-- ===== src/Server/Alone/Outage.antt =====
-- A submission while the deduper fails.
use job_stream.Base.{
  ℕ, ◌≡◌, refl, ap, ◌∙◌, Bool, false, Option, some, List, [], Text, Result, ok, err, codes, arith,
}
use job_stream.Proto.{Application, SubmitApplicationRequest}
use job_stream.Errors.{Error, wrapped}
use job_stream.Canonical.{UrlPackage, ApplicationEvent}
use job_stream.Dedup.Contract.{Entry, free, update}
use job_stream.Dedup.Updates.{update_same}
use job_stream.Repo.{ApplicationRecord}
use job_stream.Server.{
  submit_one, insert_params, topic_jobs_submitted, build_jobs_submitted_payload, insert_event,
  after_insert, after_check, after_claim, after_validate,
}
use job_stream.Server.Calls.{Services, dedup_claim, run}
use job_stream.Server.Alone.{Becomes, run-Becomes}

-- What a submission answers for the insert's result.
abbrev pub insert_answer : Result Error ApplicationRecord → Result Error Text
insert_answer (ok rec) = ok rec.id
insert_answer (err x) = err (wrapped (codes "insert: ") x [])

module _ (lower : ℕ → ℕ) (net_url : UrlPackage) (marshal : Application → Result Error (List ℕ))
    {W : Type 0} (s : Services W) (req : SubmitApplicationRequest) (e : ApplicationEvent)
    (w : W) where
  -- The worlds after the two calls of the deduper, and the insert in the second one.
  abbrev pub checked : (Text × Bool × Option Error) × W
  checked = s.deduper.check e.user_id e.company e.job_title w

  abbrev pub claimed : (Bool × Option Error) × W
  claimed = s.deduper.claim e.user_id e.company e.job_title checked.1

  abbrev pub inserted : Result Error ApplicationRecord × W
  inserted =
      s.repo.insert_with_outbox (insert_params e) topic_jobs_submitted
        (build_jobs_submitted_payload marshal) claimed.1

  insert_event-answer :
      (v : W) (r : Result Error ApplicationRecord)
      → (run s (after_insert e r) v).0 ≡ insert_answer r
  unfolding after_insert run
  insert_event-answer v (ok rec) = refl
  insert_event-answer v (err x) = refl

  after_check-miss :
      (a : Text × Bool × Option Error)
      → a.1 ≡ false
      → after_check marshal e a
        ≡ dedup_claim e.user_id e.company e.job_title (after_claim marshal e)
  unfolding after_check
  after_check-miss (id, hit, x) miss = ground (arith, miss)

  after_claim-broken :
      (a : Bool × Option Error) (x : Error)
      → a.1 ≡ some x
      → after_claim marshal e a ≡ insert_event marshal e
  unfolding after_claim
  after_claim-broken (won, o) x broken = rw broken refl

  -- The submission goes on to the insert if the check has no hit and the claim reports an error.
  to_insert :
      (x : Error)
      → Becomes lower net_url (s.now w) req e
      → checked.0.1 ≡ false
      → claimed.0.1 ≡ some x
      → run s (submit_one lower net_url marshal req) w
        ≡ run s (after_insert e inserted.0) inserted.1
  unfolding after_validate insert_event run
  to_insert x b miss broken =
      run-Becomes lower net_url marshal s req e w b
      ∙ ap (λ p. run s p checked.1) (after_check-miss checked.0 miss)
      ∙ ap (λ p. run s p claimed.1) (after_claim-broken claimed.0 x broken)

  -- If the check has no hit, whatever the reason, and the claim fails with an error, as in an
  -- outage of Redis, then a valid submission is not refused: it answers with the id of the row
  -- that it inserts, or with the insert's error.
  pub submit_one_of_outage :
      (x : Error)
      → Becomes lower net_url (s.now w) req e
      → checked.0.1 ≡ false
      → claimed.0.1 ≡ some x
      → (run s (submit_one lower net_url marshal req) w).0 ≡ insert_answer inserted.0
  submit_one_of_outage x b miss broken =
      ap (λ (out : Result Error Text × W). out.0) (to_insert x b miss broken)
      ∙ insert_event-answer inserted.1 inserted.0

  -- If besides the insert fails, and the deduper releases keys as its contract says, then the
  -- entry of the key is free afterwards, whatever it was before: another request's claim or
  -- committed id is lost.
  pub submit_one-releases_unowned :
      (key_of : Text → Text → Text → Text) (entries : W → Text → Entry) (x y : Error)
      → Becomes lower net_url (s.now w) req e
      → checked.0.1 ≡ false
      → claimed.0.1 ≡ some x
      → inserted.0 ≡ err y
      → ((v : W) (j : Text)
          → entries (s.deduper.release e.user_id e.company e.job_title v).1 j
            ≡ update (entries v) (key_of e.user_id e.company e.job_title) free j)
      → let out = run s (submit_one lower net_url marshal req) w in
        entries out.1 (key_of e.user_id e.company e.job_title) ≡ free
  unfolding after_insert run
  submit_one-releases_unowned key_of entries x y b miss broken failed releases =
      let k = key_of e.user_id e.company e.job_title in
      ap (λ (out : Result Error Text × W). entries out.1 k)
        (to_insert x b miss broken ∙ ap (λ r. run s (after_insert e r) inserted.1) failed)
      ∙ releases inserted.1 k
      ∙ update_same (entries inserted.1) k free
