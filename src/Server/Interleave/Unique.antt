-- ===== src/Server/Interleave/Unique.antt =====
-- Concurrent submissions of one key: the rows that they leave and the ids that they answer with.
use job_stream.Base.{
  ℕ, ◌≤◌, ◌≡◌, refl, ap, sym, ◌∙◌, subst, inl, inr, some, List, [], ◌∷◌, Text, Result, ok, arith,
  ◌==◌, Bool-cases, length,
}
use job_stream.Proto.{Application, SubmitApplicationRequest}
use job_stream.Errors.{Error}
use job_stream.Dedup.Contract.{Entry, free, pending, committed}
use job_stream.Canonical.{UrlPackage, ApplicationEvent}
use job_stream.Repo.{ApplicationRecord}
use job_stream.Server.{submit_one, after_insert, insert_event}
use job_stream.Server.Calls.{Program, done, Services, step}
use job_stream.Server.World.{WorldLaws, ids_at}
use job_stream.Server.Interleave.{set_at, take_turns}
use job_stream.Server.Interleave.Stages.{
  Stage, fresh, committing, finished, advance, program, step-program,
}
use job_stream.Server.Interleave.Phases.{event_key, Phase, idle, busy, settled, set_at_all, written}
use job_stream.Server.Interleave.Safety.{Safe, Fact}
use job_stream.Server.Interleave.Turns.{advance-Safe}
use job_stream.Server.Interleave.Keyed.{request_key, Keyed, advance-Keyed}

-- The deduper and the rows agree at `k` while no request runs.
abbrev pub Agrees : Entry → List Text → Type 0
Agrees free ids = ids ≡ []
Agrees pending ids = ⊥
Agrees (committed id) ids = ids ≡ id ∷ []

module _ (lower : ℕ → ℕ) (net_url : UrlPackage) (marshal : Application → Result Error (List ℕ))
    {W : Type 0} (s : Services W) (key_of : Text → Text → Text → Text) (entries : W → Text → Entry)
    (rows : W → List ApplicationRecord) (laws : WorldLaws s key_of entries rows)
    (reqs : ℕ → SubmitApplicationRequest) where
  -- The programs stand at stages that satisfy the invariant, each on its request's key.
  pub record Reached (programs : ℕ → Program (Result Error Text)) (w : W) : Type 0 where
    pub stages : ℕ → Stage
    pub at : (t : ℕ) → programs t ≡ program lower net_url marshal (stages t)
    pub safe : Safe key_of stages (entries w) (rows w)
    pub keyed : (t : ℕ) → Keyed lower net_url key_of (reqs t) (stages t)

  start-Phase :
      (k : Text) (ent : Entry) (ids : List Text)
      → Agrees ent ids
      → Phase key_of (λ t. fresh (reqs t)) k ent ids
  start-Phase k free ids h = idle refl h (λ t e. cc)
  start-Phase k pending ids h = absurd h
  start-Phase k (committed id) ids h = settled id refl h (λ t e. cc)

  start-Reached :
      (w : W)
      → ((k : Text) → Agrees (entries w k) (ids_at key_of (rows w) k))
      → Reached (λ t. submit_one lower net_url marshal (reqs t)) w
  unfolding program
  start-Reached w agrees = record {
    stages = λ t. fresh (reqs t);
    at = λ t. refl;
    safe = record { phase = λ k. start-Phase k (entries w k) _ (agrees k); fact = λ t. tt };
    keyed = λ t. refl;
  }

  turn-Reached :
      (programs : ℕ → Program (Result Error Text)) (w : W) (i : ℕ)
      → Reached programs w
      → Reached (set_at programs i (step s (programs i) w).0) (step s (programs i) w).1
  unfolding set_at
  turn-Reached programs w i r =
      let st = r.stages i in
      let next = advance lower net_url marshal s st w in
      let moved : step s (programs i) w ≡ (program lower net_url marshal next.0, next.1) =
        ap (λ p. step s p w) (r.at i) ∙ step-program lower net_url marshal s st w in
      rw moved (record {
        stages = set_at r.stages i next.0;
        at = λ t. elim (Bool-cases (t == i)) [ inl b ↦ rw b | inr b ↦ rw b (r.at t) ];
        safe =
            advance-Safe lower net_url marshal s key_of entries rows laws r.stages i w st refl
              r.safe;
        keyed =
            set_at_all key_of (λ u x. Keyed lower net_url key_of (reqs u) x) r.stages i next.0
              (advance-Keyed lower net_url key_of marshal s (reqs i) st w (r.keyed i))
              (λ u _. r.keyed u);
      })

  turns-Reached :
      (schedule : List ℕ) (programs : ℕ → Program (Result Error Text)) (w : W)
      → Reached programs w
      → let after = take_turns s schedule programs w in Reached after.0 after.1
  unfolding take_turns
  turns-Reached [] programs w r = r
  turns-Reached (i ∷ schedule) programs w r =
      turns-Reached schedule _ _ (turn-Reached programs w i r)

  written-length : (st : Stage) → length (written key_of st) ≤ 1
  written-length (committing e rec) = omega arith
  written-length (fresh req) = omega arith
  written-length _ = omega arith

  Phase-length :
      (stages : ℕ → Stage) (k : Text) (ent : Entry) (ids : List Text)
      → Phase key_of stages k ent ids
      → length ids ≤ 1
  Phase-length stages k ent ids (idle e r out) = rw r (omega arith)
  Phase-length stages k ent ids (busy t e h alone r) = rw r (written-length (stages t))
  Phase-length stages k ent ids (settled id e r out) = rw r (omega arith)

  program-done :
      (st : Stage) (id : Text)
      → program lower net_url marshal st ≡ done (ok id)
      → (e : ApplicationEvent) × (st ≡ finished e id)
  unfolding program submit_one insert_event after_insert
  program-done (finished e id') id h = (e, cc)
  program-done (fresh req) id h = cc
  program-done _ id h = cc

  Phase-committed :
      (stages : ℕ → Stage) (k : Text) (ent : Entry) (ids : List Text) (id : Text)
      → Phase key_of stages k ent ids
      → ent ≡ committed id
      → ids ≡ id ∷ []
  Phase-committed stages k ent ids id (idle e r out) h = cc
  Phase-committed stages k ent ids id (busy t e held alone r) h = cc
  Phase-committed stages k ent ids id (settled id' e r out) h = cc

  module _ (w : W) (agrees : (k : Text) → Agrees (entries w k) (ids_at key_of (rows w) k))
      (schedule : List ℕ) where
    -- The state after the turns of the schedule.
    abbrev pub after : (ℕ → Program (Result Error Text)) × W
    after = take_turns s schedule (λ t. submit_one lower net_url marshal (reqs t)) w

    pub reached : Reached after.0 after.1
    reached = turns-Reached schedule _ w (start-Reached w agrees)

    -- Let the deduper and the repository keep their contracts, and let them agree at every key
    -- before the first turn. Then, however the calls of any number of submissions are
    -- interleaved, no key has two rows.
    pub at_most_one_row : (k : Text) → length (ids_at key_of (rows after.1) k) ≤ 1
    at_most_one_row k = Phase-length reached.stages k _ _ (reached.safe.phase k)

    -- Under the same contracts, and from a world that agrees in the same way, a submission that
    -- has answered with an id has a dedup key, and the row with that id is the one row of the
    -- key.
    pub answer-row :
        (t : ℕ) (id : Text)
        → after.0 t ≡ done (ok id)
        → (k : Text) × (request_key lower net_url key_of (reqs t) ≡ some k)
          × (ids_at key_of (rows after.1) k ≡ id ∷ [])
    answer-row t id h =
        let (e, at) = program-done (reached.stages t) id (sym (reached.at t) ∙ h) in
        let fact = subst (Fact key_of (entries after.1)) at (reached.safe.fact t) in
        let k = event_key key_of e in
        (
          k,
          subst (Keyed lower net_url key_of (reqs t)) at (reached.keyed t),
          Phase-committed reached.stages k _ _ id (reached.safe.phase k) fact,
        )

    -- Under the same contracts, and from a world that agrees in the same way, two submissions
    -- with one dedup key that have both answered with an id have the same id.
    pub answers-agree :
        (t u : ℕ) (id id' : Text)
        → request_key lower net_url key_of (reqs t) ≡ request_key lower net_url key_of (reqs u)
        → after.0 t ≡ done (ok id)
        → after.0 u ≡ done (ok id')
        → id ≡ id'
    answers-agree t u id id' same h h' =
        let (k, key, row) = answer-row t id h in
        let (k', key', row') = answer-row u id' h' in
        let keys : k ≡ k' = cc in
        let ids : id ∷ [] ≡ id' ∷ [] = sym row ∙ ap (ids_at key_of (rows after.1)) keys ∙ row' in cc
