-- ===== src/Server/Alone/Shown.antt =====
-- A submission and then the status request for the id that it answered.
use job_stream.Base.{
  ℕ, ◌≡◌, ◌≢◌, ◌⊎◌, inl, inr, refl, ap, sym, ◌∙◌, subst, false, some, List, [], ◌++◌, Text, Result,
  ok, err, codes, arith, is_empty, Contains,
}
use job_stream.Proto.{
  Time, Application, SubmitApplicationRequest, GetApplicationStatusResponse, Source,
  source_unspecified, source_dashboard, source_chrome_ext, source_scraper, source_number, source_of,
  source_to_int32, status_applied, status_of, status_to_int32,
}
use job_stream.Errors
use job_stream.Errors.{Error, error_text, err_not_found, root}
use job_stream.Canonical.{UrlPackage, ApplicationEvent}
use job_stream.Canonical.Validation.{validate-IsAcceptable}
use job_stream.Transform.Sources.{IsSupported, transformer_for-IsStamped}
use job_stream.Dedup.Contract.{Entry, free}
use job_stream.Repo.{ApplicationRecord}
use job_stream.Repo.Int16.{IsInt16}
use job_stream.Repo.Timestamps.{IsTimestamp, to_micros}
use job_stream.Server.{
  submit_one, insert_params, to_application, is_not_found, status_response, get_application_status,
}
use job_stream.Server.Calls.{Services, run}
use job_stream.Server.World.{WorldLaws, Holds, LookupContract}
use job_stream.Server.Alone.{
  key_at_event, Submitted, repeated, in_progress, stored, failed, Becomes, submit_one-Submitted,
}

-- The application that the submission stored under this id.
pub record Shows (req : SubmitApplicationRequest) (e : ApplicationEvent) (id : Text)
    (app : Application) : Type 0 where
  pub same_id : app.id ≡ id
  pub user_id : app.user_id ≡ e.user_id
  pub company : app.company ≡ e.company
  pub job_title : app.job_title ≡ e.job_title
  pub url : app.url ≡ e.url
  pub source : app.source ≡ req.source
  pub status : app.status ≡ status_applied
  pub applied_at : IsTimestamp e.applied_at → app.applied_at ≡ some (to_micros e.applied_at)
  pub schema_version : app.schema_version ≡ e.schema_version

module _ {W : Type 0} (key_of : Text → Text → Text → Text) (entries : W → Text → Entry)
    (rows : W → List ApplicationRecord) (e : ApplicationEvent) where
  -- An answer to a free key is the id of the newest row.
  answered-row :
      (w w' : W) (r : Result Error Text) (id : Text)
      → Submitted key_of entries rows e w w' r
      → entries w (key_at_event key_of entries rows e) ≡ free
      → r ≡ ok id
      → (rec : ApplicationRecord) × (rec.id ≡ id)
        × Holds (insert_params e) rec
        × Contains (rows w') rec
  answered-row w w' r id (repeated id' is kept) vacant h = cc
  answered-row w w' r id (in_progress is kept) vacant h = cc
  answered-row w w' r id (stored rec is values grown after) vacant h =
      (rec, cc, values, (0, rw grown refl))
  answered-row w w' r id (failed x is kept) vacant h = cc

module _ (lower : ℕ → ℕ) (net_url : UrlPackage) where
  source_of-source_to_int32 :
      (now : Time) (src : Source)
      → IsSupported lower net_url now src
      → (source_of (source_to_int32 src) ≡ src) × IsInt16 (source_to_int32 src)
  unfolding source_of source_to_int32
  source_of-source_to_int32 now source_unspecified h = absurd h
  source_of-source_to_int32 now source_dashboard h = (refl, omega arith)
  source_of-source_to_int32 now source_chrome_ext h = (refl, omega arith)
  source_of-source_to_int32 now source_scraper h = (refl, omega arith)
  source_of-source_to_int32 now (source_number n) h = absurd h

  to_application-Shows :
      (now : Time) (req : SubmitApplicationRequest) (e : ApplicationEvent) (id : Text)
      (rec : ApplicationRecord)
      → Becomes lower net_url now req e
      → Holds (insert_params e) rec
      → rec.id ≡ id
      → Shows req e id (to_application rec)
  unfolding to_application insert_params status_to_int32 status_of
  to_application-Shows now req e id rec b h same =
      let (supported, stamped) =
        transformer_for-IsStamped lower net_url now req.source b.transformer req b.chosen in
      let number : e.source ≡ source_to_int32 req.source =
        ap (λ (v : ApplicationEvent). v.source) (sym b.event) ∙ stamped.source in
      let (back, fits) = source_of-source_to_int32 now req.source supported in
      record {
        same_id = same;
        user_id = h.user_id;
        company = h.company;
        job_title = h.job_title;
        url = h.url;
        source = ap source_of (h.source (subst IsInt16 (sym number) fits) ∙ number) ∙ back;
        status = ap status_of (h.status (omega arith));
        applied_at = λ t. ap some (h.applied_at t);
        schema_version = h.schema_version;
      }

-- What the status request answers: the application, or Internal.
abbrev pub IsShown : (Application → Type 0) → Result Error GetApplicationStatusResponse → Type 0
IsShown P r =
    ((app : Application) × (r ≡ ok (record { application = app })) × P app)
    ⊎ ((t : Text) × (r ≡ err (Errors.status Errors.internal t)))

status_response-IsShown :
    (P : Application → Type 0) (rec : ApplicationRecord) (r : Result Error ApplicationRecord)
    → P (to_application rec)
    → (r ≡ ok rec) ⊎ ((x : Error) × (r ≡ err x) × (root x ≢ err_not_found))
    → IsShown P (status_response r)
unfolding status_response
status_response-IsShown P rec r p (inl found) =
    inl (to_application rec, ap status_response found, p)
status_response-IsShown P rec r p (inr (x, fault, other)) =
    let not_missing : is_not_found (root x) ≡ false = ground (arith, other) in
    inr (codes "get application: " ++ error_text x, ap status_response fault ∙ rw not_missing refl)

module _ {W : Type 0} (s : Services W) where
  get_application_status-IsShown :
      (P : Application → Type 0) (rec : ApplicationRecord) (w : W)
      → rec.id ≢ []
      → rec.user_id ≢ []
      → P (to_application rec)
      → (let got = s.repo.get_by_id_and_user_id rec.id rec.user_id w in
          (got.0 ≡ ok rec) ⊎ ((x : Error) × (got.0 ≡ err x) × (root x ≢ err_not_found)))
      → IsShown P
          (run s
            (get_application_status (record { application_id = rec.id; user_id = rec.user_id }))
            w).0
  unfolding get_application_status run
  get_application_status-IsShown P rec w id user p got =
      let id' : is_empty rec.id ≡ false = ground (arith, id) in
      let user' : is_empty rec.user_id ≡ false = ground (arith, user) in
      rw (id', user') (status_response-IsShown P rec _ p got)

module _ (lower : ℕ → ℕ) (net_url : UrlPackage) (marshal : Application → Result Error (List ℕ))
    {W : Type 0} (s : Services W) (key_of : Text → Text → Text → Text) (entries : W → Text → Entry)
    (rows : W → List ApplicationRecord) (laws : WorldLaws s key_of entries rows)
    (IsSound : W → Type 0) (lookups : LookupContract s.repo rows IsSound) where
  -- Over a deduper and a repository that keep their contracts: after a valid submission with a
  -- free key has been answered with an id, and if the store is sound then, the status request for
  -- this id and user shows the application with the values of the canonical event (a time of the
  -- years 1 to 9999 in whole microseconds), the source of the request and the status "applied"; or it fails with Internal, but never with NotFound.
  pub submit-get_application_status :
      (req : SubmitApplicationRequest) (e : ApplicationEvent) (w : W) (id : Text)
      → Becomes lower net_url (s.now w) req e
      → entries w (key_at_event key_of entries rows e) ≡ free
      → let first = run s (submit_one lower net_url marshal req) w in
        first.0 ≡ ok id
        → IsSound first.1
        → IsShown
            (Shows req e id)
            (run s
              (get_application_status (record { application_id = id; user_id = e.user_id }))
              first.1).0
  submit-get_application_status req e w id b vacant answered sound =
      let first = run s (submit_one lower net_url marshal req) w in
      let (rec, same, values, there) =
        answered-row key_of entries rows e w first.1 first.0 id
          (submit_one-Submitted lower net_url marshal s key_of entries rows laws req e w b) vacant
          answered in
      let named : e.user_id ≢ [] =
        ((validate-IsAcceptable lower net_url e).0 b.valid).has_user_id in
      let owned : rec.user_id ≡ e.user_id = unfold insert_params in values.user_id in
      let asked : Text → Text → Type 0 = λ i u.
        IsShown (Shows req e id)
          (run s (get_application_status (record { application_id = i; user_id = u })) first.1).0 in
      subst (λ i. asked i e.user_id) same
        (subst (asked rec.id) owned (
          get_application_status-IsShown s (Shows req e id) rec first.1
            (lookups.named rec first.1 sound there) (λ none_there. named (sym owned ∙ none_there))
            (to_application-Shows lower net_url (s.now w) req e id rec b values same)
            (lookups.found rec first.1 sound there)))
