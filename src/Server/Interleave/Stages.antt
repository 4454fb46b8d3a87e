-- ===== src/Server/Interleave/Stages.antt =====
-- Where a run of `submit_one` stands between two calls, and what its next call makes of it.
use job_stream.Base.{
  ℕ, Bool, ◌≡◌, refl, ap, Option, none, some, List, [], Text, codes, Result, ok, err, arith, not,
  ◌&&◌, if◌then◌else◌,
}
use job_stream.Proto.{Application, SubmitApplicationRequest}
use job_stream.Errors.{Error, err_pending_duplicate, wrapped}
use job_stream.Canonical.{UrlPackage, ApplicationEvent, validate}
use job_stream.Transform.{Transformer, transformer_for}
use job_stream.Repo.{ApplicationRecord}
use job_stream.Server.{
  after_insert, insert_event, after_recheck, after_claim, after_check, after_validate, after_for,
  submit_one, insert_params, topic_jobs_submitted, build_jobs_submitted_payload, is_nil,
}
use job_stream.Server.Calls.{Program, done, dedup_check, dedup_claim, Services, step}

pub data Stage : Type 0 where
  fresh : SubmitApplicationRequest → Stage
  checking claiming rechecking inserting : ApplicationEvent → Stage
  committing : ApplicationEvent → ApplicationRecord → Stage
  releasing : ApplicationEvent → Error → Stage
  finished : ApplicationEvent → Text → Stage
  gave_up : Error → Stage

-- The stage after the validator, and after each answer.
unfoldable pub validated : ApplicationEvent → Option Error → Stage
validated e (some x) = gave_up x
validated e none = checking e

unfoldable pub checked : ApplicationEvent → Text × Bool × Option Error → Stage
checked e (id, hit, x) = if is_nil x && hit then finished e id else claiming e

unfoldable pub claimed : ApplicationEvent → Bool × Option Error → Stage
claimed e (won, x) = if is_nil x && not won then rechecking e else inserting e

unfoldable pub rechecked : ApplicationEvent → Text × Bool × Option Error → Stage
rechecked e (id, hit, x) = if hit then finished e id else gave_up err_pending_duplicate

unfoldable pub inserted : ApplicationEvent → Result Error ApplicationRecord → Stage
inserted e (ok rec) = committing e rec
inserted e (err x) = releasing e x

module _ (lower : ℕ → ℕ) (net_url : UrlPackage)
    (marshal : Application → Result Error (List ℕ)) where
  -- The rest of the program at a stage.
  unfoldable pub program : Stage → Program (Result Error Text)
  program (fresh req) = submit_one lower net_url marshal req
  program (checking e) = dedup_check e.user_id e.company e.job_title (after_check marshal e)
  program (claiming e) = dedup_claim e.user_id e.company e.job_title (after_claim marshal e)
  program (rechecking e) = dedup_check e.user_id e.company e.job_title after_recheck
  program (inserting e) = insert_event marshal e
  program (committing e rec) = after_insert e (ok rec)
  program (releasing e x) = after_insert e (err x)
  program (finished e id) = done (ok id)
  program (gave_up x) = done (err x)

  unfoldable pub transformed : SubmitApplicationRequest → Result Error Transformer → Stage
  unfolding validated
  transformed req (err x) = gave_up x
  transformed req (ok tf) = validated (tf req) (validate lower net_url (tf req))

  module _ {W : Type 0} (s : Services W) where
    -- The stage and the world after the next call.
    unfoldable pub advance : Stage → W → Stage × W
    advance (fresh req) w =
        (transformed req (transformer_for lower net_url (s.now w) req.source), w)
    advance (checking e) w =
        let (r, w') = s.deduper.check e.user_id e.company e.job_title w in (checked e r, w')
    advance (claiming e) w =
        let (r, w') = s.deduper.claim e.user_id e.company e.job_title w in (claimed e r, w')
    advance (rechecking e) w =
        let (r, w') = s.deduper.check e.user_id e.company e.job_title w in (rechecked e r, w')
    advance (inserting e) w =
        let (r, w') =
          s.repo.insert_with_outbox (insert_params e) topic_jobs_submitted
            (build_jobs_submitted_payload marshal) w in
        (inserted e r, w')
    advance (committing e rec) w =
        let (x, w') = s.deduper.set e.user_id e.company e.job_title rec.id w in
        (finished e rec.id, w')
    advance (releasing e x) w =
        let (y, w') = s.deduper.release e.user_id e.company e.job_title w in
        (gave_up (wrapped (codes "insert: ") x []), w')
    advance (finished e id) w = (finished e id, w)
    advance (gave_up x) w = (gave_up x, w)

  validated-program :
      (e : ApplicationEvent) (o : Option Error)
      → after_validate marshal e o ≡ program (validated e o)
  unfolding after_validate validated program
  validated-program e none = refl
  validated-program e (some x) = refl

  transformed-program :
      (req : SubmitApplicationRequest) (r : Result Error Transformer)
      → after_for lower net_url marshal req r ≡ program (transformed req r)
  unfolding after_for transformed program
  transformed-program req (err x) = refl
  transformed-program req (ok tf) = validated-program (tf req) (validate lower net_url (tf req))

  checked-program :
      (e : ApplicationEvent) (r : Text × Bool × Option Error)
      → after_check marshal e r ≡ program (checked e r)
  unfolding after_check checked program
  checked-program e (id, hit, x) = ground arith

  claimed-program :
      (e : ApplicationEvent) (r : Bool × Option Error)
      → after_claim marshal e r ≡ program (claimed e r)
  unfolding after_claim claimed program
  claimed-program e (won, x) = ground arith

  rechecked-program :
      (e : ApplicationEvent) (r : Text × Bool × Option Error)
      → after_recheck r ≡ program (rechecked e r)
  unfolding after_recheck rechecked program
  rechecked-program e (id, hit, x) = ground arith

  inserted-program :
      (e : ApplicationEvent) (r : Result Error ApplicationRecord)
      → after_insert e r ≡ program (inserted e r)
  unfolding inserted program
  inserted-program e (ok rec) = refl
  inserted-program e (err x) = refl

  -- The stages are those of the program: each call of the one is the call of the other.
  pub step-program :
      {W : Type 0} (s : Services W) (st : Stage) (w : W)
      → step s (program st) w ≡ (program (advance s st w).0, (advance s st w).1)
  unfolding program step advance submit_one insert_event after_insert
  step-program s (fresh req) w =
      ap (λ p. (p, w))
        (transformed-program req (transformer_for lower net_url (s.now w) req.source))
  step-program s (checking e) w =
      let r = s.deduper.check e.user_id e.company e.job_title w in
      ap (λ p. (p, r.1)) (checked-program e r.0)
  step-program s (claiming e) w =
      let r = s.deduper.claim e.user_id e.company e.job_title w in
      ap (λ p. (p, r.1)) (claimed-program e r.0)
  step-program s (rechecking e) w =
      let r = s.deduper.check e.user_id e.company e.job_title w in
      ap (λ p. (p, r.1)) (rechecked-program e r.0)
  step-program s (inserting e) w =
      let r =
        s.repo.insert_with_outbox (insert_params e) topic_jobs_submitted
          (build_jobs_submitted_payload marshal) w in
      ap (λ p. (p, r.1)) (inserted-program e r.0)
  step-program s (committing e rec) w = refl
  step-program s (releasing e x) w = refl
  step-program s (finished e id) w = refl
  step-program s (gave_up x) w = refl
