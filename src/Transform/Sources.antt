-- ===== src/Transform/Sources.antt =====
-- What the transformers promise of the events they build.
use job_stream.Base.{ℕ, ◌≡◌, ◌≢◌, refl, subst, false, is_empty, some, Result, ok, err, arith}
use job_stream.Strings.{trim_space}
use job_stream.Proto.{
  Time, Source, source_unspecified, source_dashboard, source_chrome_ext, source_scraper,
  source_number, source_to_int32, SubmitApplicationRequest,
}
use job_stream.Errors.{
  Error, err_unsupported_source, err_source_required, err_schema_required, root,
}
use job_stream.Canonical.{UrlPackage, ApplicationEvent, schema_version, validate, is_zero}
use job_stream.Transform.{
  applied_at_or_now, from_dashboard, from_chrome_ext, from_scraper, transformer_for, Transformer,
}

ok_inj : {f g : Transformer} → ◌≡◌ {A = Result Error Transformer} (ok f) (ok g) → f ≡ g
ok_inj h = cc

module _ (lower : ℕ → ℕ) (net_url : UrlPackage) (now : Time) where
  -- What every transformer sets, whatever its source.
  pub record IsStamped (src : Source) (req : SubmitApplicationRequest) (e : ApplicationEvent)
      : Type 0 where
    pub source : e.source ≡ source_to_int32 src
    pub schema : e.schema_version ≡ schema_version
    pub applied_at : e.applied_at ≡ applied_at_or_now now req.applied_at
    pub user_id : e.user_id ≡ trim_space req.user_id

  -- The three sources that the service accepts.
  abbrev pub IsSupported : Source → Type 0
  IsSupported source_dashboard = Unit
  IsSupported source_chrome_ext = Unit
  IsSupported source_scraper = Unit
  IsSupported _ = ⊥

  dashboard-IsStamped :
      (req : SubmitApplicationRequest)
      → IsStamped source_dashboard req (from_dashboard lower net_url now req)
  unfolding from_dashboard
  dashboard-IsStamped req = record {
    source = refl;
    schema = refl;
    applied_at = refl;
    user_id = refl;
  }

  chrome_ext-IsStamped :
      (req : SubmitApplicationRequest)
      → IsStamped source_chrome_ext req (from_chrome_ext lower net_url now req)
  unfolding from_chrome_ext
  chrome_ext-IsStamped req = record {
    source = refl;
    schema = refl;
    applied_at = refl;
    user_id = refl;
  }

  scraper-IsStamped :
      (req : SubmitApplicationRequest)
      → IsStamped source_scraper req (from_scraper lower net_url now req)
  unfolding from_scraper
  scraper-IsStamped req = record { source = refl; schema = refl; applied_at = refl; user_id = refl }

  -- Only the three named sources have a transformer, and it stamps the event with the source's
  -- number, the schema version, the trimmed user and the time.
  pub transformer_for-IsStamped :
      (src : Source) (tf : Transformer) (req : SubmitApplicationRequest)
      → transformer_for lower net_url now src ≡ ok tf
      → IsSupported src × IsStamped src req (tf req)
  unfolding transformer_for
  transformer_for-IsStamped source_unspecified tf req h = cc
  transformer_for-IsStamped source_dashboard tf req h =
      (tt, subst (λ t. IsStamped source_dashboard req (t req)) (ok_inj h) (dashboard-IsStamped req))
  transformer_for-IsStamped source_chrome_ext tf req h = (
    tt,
    subst (λ t. IsStamped source_chrome_ext req (t req)) (ok_inj h) (chrome_ext-IsStamped req),
  )
  transformer_for-IsStamped source_scraper tf req h =
      (tt, subst (λ t. IsStamped source_scraper req (t req)) (ok_inj h) (scraper-IsStamped req))
  transformer_for-IsStamped (source_number n) tf req h = cc

  -- Any other source is refused with the error that the server takes for bad input.
  pub transformer_for-refuses :
      (src : Source)
      → ¬ IsSupported src
      → (e : Error) × (transformer_for lower net_url now src ≡ err e)
        × (root e ≡ err_unsupported_source)
  unfolding transformer_for
  transformer_for-refuses source_unspecified h = (_, refl, refl)
  transformer_for-refuses source_dashboard h = absurd (h tt)
  transformer_for-refuses source_chrome_ext h = absurd (h tt)
  transformer_for-refuses source_scraper h = absurd (h tt)
  transformer_for-refuses (source_number n) h = (_, refl, refl)

  supported-nonzero : (src : Source) → IsSupported src → is_zero (source_to_int32 src) ≡ false
  unfolding source_to_int32
  supported-nonzero source_unspecified h = absurd h
  supported-nonzero source_dashboard h = refl
  supported-nonzero source_chrome_ext h = refl
  supported-nonzero source_scraper h = refl
  supported-nonzero (source_number n) h = absurd h

  schema_version-nonempty : is_empty schema_version ≡ false
  unfolding schema_version
  schema_version-nonempty = refl

  -- An event that a transformer built never fails the validator's rules on the source and on the
  -- schema version.
  validate-transformer_for :
      (src : Source) (tf : Transformer) (req : SubmitApplicationRequest)
      → transformer_for lower net_url now src ≡ ok tf
      → (validate lower net_url (tf req) ≢ some err_source_required)
        × (validate lower net_url (tf req) ≢ some err_schema_required)
  unfolding validate
  validate-transformer_for src tf req h =
      let (supported, stamped) = transformer_for-IsStamped src tf req h in
      let nonzero : is_zero (tf req).source ≡ false =
        rw stamped.source (supported-nonzero src supported) in
      let versioned : is_empty (tf req).schema_version ≡ false =
        rw stamped.schema schema_version-nonempty in
      (λ e. ground (arith, nonzero, e), λ e. ground (arith, versioned, e))
