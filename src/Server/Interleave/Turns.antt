-- ===== src/Server/Interleave/Turns.antt =====
-- The turns of a schedule and the invariant of concurrent submissions.
use job_stream.Base.{ℕ, ◌≡◌, refl, ap, sym, subst, none, List, Text, Result}
use job_stream.Proto.{Application}
use job_stream.Errors.{Error}
use job_stream.Dedup.Contract.{Entry}
use job_stream.Canonical.{UrlPackage}
use job_stream.Transform.{transformer_for}
use job_stream.Repo.{ApplicationRecord}
use job_stream.Server.{insert_params, topic_jobs_submitted, build_jobs_submitted_payload}
use job_stream.Server.Calls.{Services}
use job_stream.Server.World.{WorldLaws}
use job_stream.Server.Interleave.{set_at}
use job_stream.Server.Interleave.Stages.{
  Stage, fresh, checking, claiming, rechecking, inserting, committing, releasing, finished, gave_up,
  checked, rechecked, transformed, advance, program, step-program,
}
use job_stream.Server.Interleave.Stages
use job_stream.Server.Interleave.Phases.{event_key, holds}
use job_stream.Server.Interleave.Safety.{Fact, Safe, Safe-quiet}
use job_stream.Server.Interleave.Moves.{
  transformed-Calm, checked-Calm, rechecked-Calm, claim-Safe, insert-Safe, commit-Safe,
  release-Safe,
}

module _ (lower : ℕ → ℕ) (net_url : UrlPackage) (marshal : Application → Result Error (List ℕ))
    {W : Type 0} (s : Services W) (key_of : Text → Text → Text → Text) (entries : W → Text → Entry)
    (rows : W → List ApplicationRecord) (laws : WorldLaws s key_of entries rows) where
  -- The invariant at a world.
  abbrev pub SafeAt : (ℕ → Stage) → W → Type 0
  SafeAt stages w = Safe key_of stages (entries w) (rows w)

  -- One call of the request `t`, which stands at `st`.
  pub advance-Safe :
      (stages : ℕ → Stage) (t : ℕ) (w : W) (st : Stage)
      → stages t ≡ st
      → SafeAt stages w
      → SafeAt
          (set_at stages t (advance lower net_url marshal s st w).0)
          (advance lower net_url marshal s st w).1
  unfolding advance
  advance-Safe stages t w (fresh req) at safe =
      let calm =
        transformed-Calm key_of lower net_url marshal (entries w) req
          (transformer_for lower net_url (s.now w) req.source) in
      Safe-quiet key_of stages t _ (entries w) (entries w) (rows w) (rows w) (λ j. refl) refl
        (ap (holds key_of) at) calm.0 calm.1 safe
  advance-Safe stages t w (checking e) at safe =
      let r = s.deduper.check e.user_id e.company e.job_title w in
      let answer = laws.dedup.check_answer e.user_id e.company e.job_title w in
      let same = laws.dedup.check_entries e.user_id e.company e.job_title w in
      let calm =
        subst (λ a. (holds key_of (checked e a) ≡ none) × Fact key_of (entries r.1) (checked e a))
          (sym answer)
          (checked-Calm key_of (entries r.1) e (entries w (event_key key_of e)) (same _)) in
      Safe-quiet key_of stages t _ (entries w) (entries r.1) (rows w) (rows r.1) same
        (laws.apart.check_rows e.user_id e.company e.job_title w) (ap (holds key_of) at) calm.0
        calm.1 safe
  advance-Safe stages t w (rechecking e) at safe =
      let r = s.deduper.check e.user_id e.company e.job_title w in
      let answer = laws.dedup.check_answer e.user_id e.company e.job_title w in
      let same = laws.dedup.check_entries e.user_id e.company e.job_title w in
      let calm =
        subst
          (λ a. (holds key_of (rechecked e a) ≡ none) × Fact key_of (entries r.1) (rechecked e a))
          (sym answer)
          (rechecked-Calm key_of (entries r.1) e (entries w (event_key key_of e)) (same _)) in
      Safe-quiet key_of stages t _ (entries w) (entries r.1) (rows w) (rows r.1) same
        (laws.apart.check_rows e.user_id e.company e.job_title w) (ap (holds key_of) at) calm.0
        calm.1 safe
  advance-Safe stages t w (claiming e) at safe =
      let r = s.deduper.claim e.user_id e.company e.job_title w in
      let answer = laws.dedup.claim_answer e.user_id e.company e.job_title w in
      subst (λ a. SafeAt (set_at stages t (Stages.claimed e a)) r.1) (sym answer)
        (claim-Safe key_of stages t (entries w) (entries r.1) (rows w) (rows r.1) safe e
          (entries w (event_key key_of e)) refl at
          (laws.dedup.claim_entries e.user_id e.company e.job_title w)
          (laws.apart.claim_rows e.user_id e.company e.job_title w))
  advance-Safe stages t w (inserting e) at safe =
      let topic = topic_jobs_submitted in
      let build = build_jobs_submitted_payload marshal in
      let r = s.repo.insert_with_outbox (insert_params e) topic build w in
      insert-Safe key_of stages t (entries w) (entries r.1) (rows w) (rows r.1) safe e
        (ap (holds key_of) at) r.0 at (laws.apart.insert_entries (insert_params e) topic build w)
        (laws.store.inserted (insert_params e) topic build w)
  advance-Safe stages t w (committing e rec) at safe =
      let r = s.deduper.set e.user_id e.company e.job_title rec.id w in
      let valid = subst (Fact key_of (entries w)) at (safe.fact t) in
      commit-Safe key_of stages t (entries w) (entries r.1) (rows w) (rows r.1) safe e
        (ap (holds key_of) at) rec at
        (λ j. laws.dedup.set_entries e.user_id e.company e.job_title rec.id w j valid)
        (laws.apart.set_rows e.user_id e.company e.job_title rec.id w)
  advance-Safe stages t w (releasing e x) at safe =
      let r = s.deduper.release e.user_id e.company e.job_title w in
      release-Safe key_of stages t (entries w) (entries r.1) (rows w) (rows r.1) safe e
        (ap (holds key_of) at) x _ at (laws.dedup.release_entries e.user_id e.company e.job_title w)
        (laws.apart.release_rows e.user_id e.company e.job_title w)
  advance-Safe stages t w (finished e id) at safe =
      Safe-quiet key_of stages t _ (entries w) (entries w) (rows w) (rows w) (λ j. refl) refl
        (ap (holds key_of) at) refl (subst (Fact key_of (entries w)) at (safe.fact t)) safe
  advance-Safe stages t w (gave_up x) at safe =
      Safe-quiet key_of stages t _ (entries w) (entries w) (rows w) (rows w) (λ j. refl) refl
        (ap (holds key_of) at) refl tt safe
