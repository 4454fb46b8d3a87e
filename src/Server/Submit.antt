-- ===== src/Server/Submit.antt =====
-- One submission on its own: bad input and its errors.
use job_stream.Base.{
  ℕ, true, false, ◌≡◌, refl, ap, ◌∙◌, ◌⊎◌, inl, inr, some, List, Result, ok, err, arith,
}
use job_stream.Proto.{
  Application, Time, Source, source_unspecified, source_dashboard, source_chrome_ext,
  source_scraper, source_number, SubmitApplicationRequest,
}
use job_stream.Errors
use job_stream.Errors.{Error, error_text, root, err_pending_duplicate, Code}
use job_stream.Canonical.{UrlPackage, ApplicationEvent, validate}
use job_stream.Transform.{Transformer, transformer_for}
use job_stream.Server.{
  is_sentinel, is_pending_duplicate, to_grpc_error, after_validate, after_for, submit_one,
  submit_response, submit_application,
}
use job_stream.Server.Calls.{
  Program, done, time_now, context_err, dedup_check, dedup_claim, dedup_set, dedup_release, insert,
  select, Services, run, and_then,
}

module _ {W : Type 0} (s : Services W) where
  -- Running two programs in a row is running the one and then the other.
  pub run-and_then :
      {A B : Type 0} (p : Program A) (f : A → Program B) (w : W)
      → run s (and_then p f) w ≡ run s (f (run s p w).0) (run s p w).1
  unfolding run and_then
  run-and_then (done a) f w = refl
  run-and_then (time_now k) f w = run-and_then (k (s.now w)) f w
  run-and_then (context_err k) f w = let r = s.ctx_err w in run-and_then (k r.0) f r.1
  run-and_then (dedup_check u c t k) f w =
      let r = s.deduper.check u c t w in run-and_then (k r.0) f r.1
  run-and_then (dedup_claim u c t k) f w =
      let r = s.deduper.claim u c t w in run-and_then (k r.0) f r.1
  run-and_then (dedup_set u c t id k) f w =
      let r = s.deduper.set u c t id w in run-and_then (k r.0) f r.1
  run-and_then (dedup_release u c t k) f w =
      let r = s.deduper.release u c t w in run-and_then (k r.0) f r.1
  run-and_then (insert p topic build k) f w =
      let r = s.repo.insert_with_outbox p topic build w in run-and_then (k r.0) f r.1
  run-and_then (select id u k) f w =
      let r = s.repo.get_by_id_and_user_id id u w in run-and_then (k r.0) f r.1

module _ (lower : ℕ → ℕ) (net_url : UrlPackage) where
  -- Every error of the validator, and of the choice of a transformer, counts as bad input.
  validate-is_sentinel :
      (e : ApplicationEvent) (x : Error)
      → validate lower net_url e ≡ some x
      → (is_sentinel (root x) ≡ true) × (is_pending_duplicate (root x) ≡ false)
  unfolding validate
  validate-is_sentinel e x h = ground arith

  transformer_for-is_sentinel :
      (now : Time) (src : Source) (x : Error)
      → transformer_for lower net_url now src ≡ err x
      → (is_sentinel (root x) ≡ true) × (is_pending_duplicate (root x) ≡ false)
  unfolding transformer_for
  transformer_for-is_sentinel now source_dashboard x h = cc
  transformer_for-is_sentinel now source_chrome_ext x h = cc
  transformer_for-is_sentinel now source_scraper x h = cc
  transformer_for-is_sentinel now source_unspecified x h = ground arith
  transformer_for-is_sentinel now (source_number n) x h = ground arith

  -- The request is bad input at this time, for this reason.
  abbrev pub IsBadInput : Time → SubmitApplicationRequest → Error → Type 0
  IsBadInput now req x =
      (transformer_for lower net_url now req.source ≡ err x)
      ⊎ ((tf : Transformer) × (transformer_for lower net_url now req.source ≡ ok tf)
          × (validate lower net_url (tf req) ≡ some x))

  IsBadInput-is_sentinel :
      (now : Time) (req : SubmitApplicationRequest) (x : Error)
      → IsBadInput now req x
      → (is_sentinel (root x) ≡ true) × (is_pending_duplicate (root x) ≡ false)
  IsBadInput-is_sentinel now req x (inl h) = transformer_for-is_sentinel now req.source x h
  IsBadInput-is_sentinel now req x (inr (tf, h, h')) = validate-is_sentinel (tf req) x h'

  module _ (marshal : Application → Result Error (List ℕ)) {W : Type 0} (s : Services W) where
    pub submit_one_of_IsBadInput :
        (req : SubmitApplicationRequest) (x : Error) (w : W)
        → IsBadInput (s.now w) req x
        → run s (submit_one lower net_url marshal req) w ≡ (err x, w)
    unfolding submit_one run after_for after_validate
    submit_one_of_IsBadInput req x w (inl h) =
        ap (λ r. run s (after_for lower net_url marshal req r) w) h
    submit_one_of_IsBadInput req x w (inr (tf, h, h')) =
        ap (λ r. run s (after_for lower net_url marshal req r) w) h
        ∙ ap (λ o. run s (after_validate marshal (tf req) o) w) h'

    -- Bad input is answered with InvalidArgument and the text of its error, and the world is as
    -- it was.
    pub submit_application_of_IsBadInput :
        (req : SubmitApplicationRequest) (x : Error) (w : W)
        → IsBadInput (s.now w) req x
        → run s (submit_application lower net_url marshal req) w
          ≡ (err (Errors.status Errors.invalid_argument (error_text x)), w)
    unfolding submit_application submit_response to_grpc_error run
    submit_application_of_IsBadInput req x w bad =
        let (sentinel, other) = IsBadInput-is_sentinel (s.now w) req x bad in
        rw (
          run-and_then s (submit_one lower net_url marshal req) (λ r. done (submit_response r)) w,
          submit_one_of_IsBadInput req x w bad,
          other,
          sentinel,
        )
