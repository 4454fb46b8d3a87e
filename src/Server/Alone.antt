-- ===== src/Server/Alone.antt =====
-- A submission that runs without others: what it answers and leaves for each state of its key.
pub mod Again
pub mod Outage
pub mod Shown
pub mod Rows
use job_stream.Base.{
  ℕ, ◌≡◌, refl, ap, sym, ◌∙◌, subst, inl, inr, Bool, true, false, Option, none, some, List, [], ◌∷◌,
  Text, Result, ok, err, codes, text_eq, text_eq_iff, Bool-cases, if◌then◌else◌,
}
use job_stream.Proto.{Application, Time, SubmitApplicationRequest}
use job_stream.Errors.{Error, err_pending_duplicate, wrapped}
use job_stream.Canonical.{UrlPackage, ApplicationEvent, validate}
use job_stream.Transform.{Transformer, transformer_for}
use job_stream.Dedup.Contract.{Entry, free, pending, committed, update, seen, claimed, is_free}
use job_stream.Dedup.Updates.{update_kept, update_again, update_back, update_congr}
use job_stream.Repo.{ApplicationRecord}
use job_stream.Server.{
  insert_params, topic_jobs_submitted, build_jobs_submitted_payload, after_insert, insert_event,
  after_claim, after_recheck, after_check, after_validate, after_for, submit_one,
}
use job_stream.Server.Calls.{Services, run}
use job_stream.Server.World.{Inserted, Holds, WorldLaws}

module _ {W : Type 0} (key_of : Text → Text → Text → Text) (entries : W → Text → Entry)
    (rows : W → List ApplicationRecord) where
  abbrev pub key_at_event : ApplicationEvent → Text
  key_at_event e = key_of e.user_id e.company e.job_title

  -- Neither store has changed.
  pub record Unchanged (w w' : W) : Type 0 where
    pub same_rows : rows w' ≡ rows w
    pub same_entries : (j : Text) → entries w' j ≡ entries w j

  -- What a submission of `e` answers and leaves: the id that its key has; the refusal of a key
  -- that is claimed; or, for a free key, the id of one new row, which is then the key's; or the
  -- insert's error, and the stores as they were.
  pub data Submitted (e : ApplicationEvent) (w w' : W) : Result Error Text → Type 0 where
    repeated :
        (id : Text)
        → entries w (key_at_event e) ≡ committed id
        → Unchanged w w'
        → Submitted e w w' (ok id)
    in_progress :
        entries w (key_at_event e) ≡ pending
        → Unchanged w w'
        → Submitted e w w' (err err_pending_duplicate)
    stored :
        (rec : ApplicationRecord)
        → entries w (key_at_event e) ≡ free
        → Holds (insert_params e) rec
        → rows w' ≡ rec ∷ rows w
        → ((j : Text) → entries w' j ≡ update (entries w) (key_at_event e) (committed rec.id) j)
        → Submitted e w w' (ok rec.id)
    failed :
        (x : Error)
        → entries w (key_at_event e) ≡ free
        → Unchanged w w'
        → Submitted e w w' (err (wrapped (codes "insert: ") x []))

module _ (marshal : Application → Result Error (List ℕ)) {W : Type 0} (s : Services W)
    (key_of : Text → Text → Text → Text) (entries : W → Text → Entry)
    (rows : W → List ApplicationRecord) (laws : WorldLaws s key_of entries rows)
    (e : ApplicationEvent) where
  open laws use {dedup, store, apart}

  abbrev Spec : W → Result Error Text × W → Type 0
  Spec w out = Submitted key_of entries rows e w out.1 out.0

  abbrev k : Text
  k = key_at_event key_of entries rows e

  after_insert-Submitted :
      (w w1 : W) (r : Result Error ApplicationRecord)
      → entries w k ≡ free
      → Inserted (insert_params e) (rows w) (rows w1) r
      → ((j : Text) → entries w1 j ≡ update (entries w) k pending j)
      → Spec w (run s (after_insert e r) w1)
  unfolding after_insert run insert_params
  after_insert-Submitted w w1 (ok rec) vacant (grown, values, id) held =
      stored rec vacant values (apart.set_rows e.user_id e.company e.job_title rec.id w1 ∙ grown)
        λ j.
          dedup.set_entries e.user_id e.company e.job_title rec.id w1 j id
          ∙ update_again (entries w) (entries w1) k pending (committed rec.id) held j
  after_insert-Submitted w w1 (err x) vacant same held = failed x vacant (record {
    same_rows = apart.release_rows e.user_id e.company e.job_title w1 ∙ same;
    same_entries = λ j.
        dedup.release_entries e.user_id e.company e.job_title w1 j
        ∙ update_back (entries w) (entries w1) k pending free held vacant j;
  })

  -- The insert, for a key that was free and has been claimed.
  insert_event-Submitted :
      (w w1 : W)
      → entries w k ≡ free
      → rows w1 ≡ rows w
      → ((j : Text) → entries w1 j ≡ update (entries w) k pending j)
      → Spec w (run s (insert_event marshal e) w1)
  unfolding insert_event run
  insert_event-Submitted w w1 vacant same held =
      let p = insert_params e in
      let build = build_jobs_submitted_payload marshal in
      let out = s.repo.insert_with_outbox p topic_jobs_submitted build w1 in
      after_insert-Submitted w out.1 out.0 vacant
        (subst (λ before. Inserted p before (rows out.1) out.0) same
          (store.inserted p topic_jobs_submitted build w1))
        λ j. apart.insert_entries p topic_jobs_submitted build w1 j ∙ held j

  after_claim-Submitted :
      (w w1 : W) (ent : Entry)
      → entries w k ≡ ent
      → ((id : Text) → ent ≡ committed id → ⊥)
      → rows w1 ≡ rows w
      → ((j : Text) → entries w1 j ≡ update (entries w) k (claimed ent) j)
      → Spec w (run s (after_claim marshal e (is_free ent, none)) w1)
  unfolding after_claim after_recheck run
  after_claim-Submitted w w1 free is other same held = insert_event-Submitted w w1 is same held
  after_claim-Submitted w w1 (committed id) is other same held = absurd (other id refl)
  after_claim-Submitted w w1 pending is other same held =
      let kept : (j : Text) → entries w1 j ≡ entries w j =
        λ j. held j ∙ update_kept (entries w) k pending (sym is) j in
      let again = s.deduper.check e.user_id e.company e.job_title w1 in
      let answer : again.0 ≡ seen pending =
        dedup.check_answer e.user_id e.company e.job_title w1 ∙ ap seen (kept k ∙ is) in
      subst (λ a. Spec w (run s (after_recheck a) again.1)) (sym answer)
        (in_progress is (record {
          same_rows = apart.check_rows e.user_id e.company e.job_title w1 ∙ same;
          same_entries = λ j. dedup.check_entries e.user_id e.company e.job_title w1 j ∙ kept j;
        }))

  claim-Submitted :
      (w w1 : W) (ent : Entry)
      → entries w k ≡ ent
      → ((id : Text) → ent ≡ committed id → ⊥)
      → Unchanged key_of entries rows w w1
      → let c = s.deduper.claim e.user_id e.company e.job_title w1 in
        Spec w (run s (after_claim marshal e c.0) c.1)
  claim-Submitted w w1 ent is other kept =
      let c = s.deduper.claim e.user_id e.company e.job_title w1 in
      let here : entries w1 k ≡ ent = kept.same_entries k ∙ is in
      let answer : c.0 ≡ (is_free ent, none) =
        dedup.claim_answer e.user_id e.company e.job_title w1 ∙ ap (λ x. (is_free x, none)) here in
      subst (λ a. Spec w (run s (after_claim marshal e a) c.1)) (sym answer)
        (after_claim-Submitted w c.1 ent is other
          (apart.claim_rows e.user_id e.company e.job_title w1 ∙ kept.same_rows)
          λ j.
            dedup.claim_entries e.user_id e.company e.job_title w1 j
            ∙ update_congr (entries w1) (entries w) k (claimed (entries w1 k)) (claimed ent)
                kept.same_entries (ap claimed here) j)

  after_check-Submitted :
      (w w1 : W) (ent : Entry)
      → entries w k ≡ ent
      → Unchanged key_of entries rows w w1
      → Spec w (run s (after_check marshal e (seen ent)) w1)
  unfolding after_check run
  after_check-Submitted w w1 (committed id) is kept = repeated id is kept
  after_check-Submitted w w1 free is kept = claim-Submitted w w1 free is (λ id h. cc) kept
  after_check-Submitted w w1 pending is kept = claim-Submitted w w1 pending is (λ id h. cc) kept

  pub after_validate-Submitted : (w : W) → Spec w (run s (after_validate marshal e none) w)
  unfolding after_validate run
  after_validate-Submitted w =
      let c = s.deduper.check e.user_id e.company e.job_title w in
      subst (λ a. Spec w (run s (after_check marshal e a) c.1))
        (sym (dedup.check_answer e.user_id e.company e.job_title w))
        (after_check-Submitted w c.1 (entries w k) refl (record {
          same_rows = apart.check_rows e.user_id e.company e.job_title w;
          same_entries = dedup.check_entries e.user_id e.company e.job_title w;
        }))

-- The request becomes the event `e` at this time, and the event is valid.
pub record Becomes (lower : ℕ → ℕ) (net_url : UrlPackage) (now : Time)
    (req : SubmitApplicationRequest) (e : ApplicationEvent) : Type 0 where
  pub transformer : Transformer
  pub chosen : transformer_for lower net_url now req.source ≡ ok transformer
  pub event : transformer req ≡ e
  pub valid : validate lower net_url e ≡ none

module _ (lower : ℕ → ℕ) (net_url : UrlPackage) (marshal : Application → Result Error (List ℕ))
    {W : Type 0} (s : Services W) where
  -- After the transformer and the validator.
  pub run-Becomes :
      (req : SubmitApplicationRequest) (e : ApplicationEvent) (w : W)
      → Becomes lower net_url (s.now w) req e
      → run s (submit_one lower net_url marshal req) w ≡ run s (after_validate marshal e none) w
  unfolding submit_one run after_for
  run-Becomes req e w b =
      ap (λ r. run s (after_for lower net_url marshal req r) w) b.chosen
      ∙ ap (λ v. run s (after_validate marshal v (validate lower net_url v)) w) b.event
      ∙ ap (λ o. run s (after_validate marshal e o) w) b.valid

  -- Let the deduper and the repository keep their contracts. A valid submission that no other one
  -- interrupts is answered by the entry of its key: a committed id is returned and a claimed key
  -- is refused, and the stores stay as they were; for a free key, one row of the submission is
  -- added and its id is committed and returned, or the insert's error is returned, and rows and
  -- entries are as before.
  pub submit_one-Submitted :
      (key_of : Text → Text → Text → Text) (entries : W → Text → Entry)
      (rows : W → List ApplicationRecord) (laws : WorldLaws s key_of entries rows)
      (req : SubmitApplicationRequest) (e : ApplicationEvent) (w : W)
      → Becomes lower net_url (s.now w) req e
      → let out = run s (submit_one lower net_url marshal req) w in
        Submitted key_of entries rows e w out.1 out.0
  submit_one-Submitted key_of entries rows laws req e w b =
      subst (λ (out : Result Error Text × W). Submitted key_of entries rows e w out.1 out.0)
        (sym (run-Becomes req e w b))
        (after_validate-Submitted marshal s key_of entries rows laws e w)
