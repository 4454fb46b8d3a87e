-- ===== src/Server/Interleave/Safety.antt =====
-- The invariant of concurrent submissions: at every key the claim, the entry and the rows agree.
use job_stream.Base.{
  ℕ, ◌≡◌, ◌≢◌, sym, ◌∙◌, subst, inl, inr, none, List, Text, arith, text_eq, text_eq_iff, Bool-cases,
}
use job_stream.Dedup.{pending_sentinel}
use job_stream.Dedup.Contract.{Entry, committed}
use job_stream.Repo.{ApplicationRecord}
use job_stream.Server.World.{ids_at}
use job_stream.Server.Interleave.{set_at}
use job_stream.Server.Interleave.Stages.{
  Stage, fresh, checking, claiming, rechecking, inserting, committing, releasing, finished, gave_up,
}
use job_stream.Server.Interleave.Phases.{event_key, holds, Off, Phase, Phase-frame, set_at_all}

module _ (key_of : Text → Text → Text → Text) where
  -- What a request knows of the deduper's entries, beside the claims.
  abbrev pub Fact : (Text → Entry) → Stage → Type 0
  Fact entries (committing e rec) = rec.id ≢ pending_sentinel
  Fact entries (finished e id) = entries (event_key key_of e) ≡ committed id
  Fact entries _ = Unit

  pub record Safe (stages : ℕ → Stage) (entries : Text → Entry) (rows : List ApplicationRecord)
      : Type 0 where
    pub phase : (k : Text) → Phase key_of stages k (entries k) (ids_at key_of rows k)
    pub fact : (t : ℕ) → Fact entries (stages t)

  Fact-kept :
      (entries entries' : Text → Entry)
      → ((j id : Text) → entries j ≡ committed id → entries' j ≡ committed id)
      → (st : Stage) → Fact entries st
      → Fact entries' st
  Fact-kept entries entries' kept (fresh req) h = tt
  Fact-kept entries entries' kept (checking e) h = tt
  Fact-kept entries entries' kept (claiming e) h = tt
  Fact-kept entries entries' kept (rechecking e) h = tt
  Fact-kept entries entries' kept (inserting e) h = tt
  Fact-kept entries entries' kept (committing e rec) h = h
  Fact-kept entries entries' kept (releasing e x) h = tt
  Fact-kept entries entries' kept (finished e id) h = kept (event_key key_of e) id h
  Fact-kept entries entries' kept (gave_up x) h = tt

  module _ (stages : ℕ → Stage) (t : ℕ) (st : Stage) (entries entries' : Text → Entry)
      (rows rows' : List ApplicationRecord) where
    -- A move that changes neither store and takes no claim.
    pub Safe-quiet :
        ((j : Text) → entries' j ≡ entries j)
        → rows' ≡ rows
        → holds key_of (stages t) ≡ none
        → holds key_of st ≡ none
        → Fact entries' st
        → Safe stages entries rows
        → Safe (set_at stages t st) entries' rows'
    Safe-quiet same_entries same_rows quiet quiet' fact safe = record {
      phase = λ k.
          rw (same_entries k, same_rows)
            (Phase-frame key_of stages t st (λ h. cc) (λ h. cc) (safe.phase k));
      fact =
          set_at_all key_of (λ u x. Fact entries' x) stages t st fact
            λ u _.
              Fact-kept entries entries' (λ j id h. same_entries j ∙ h) (stages u) (safe.fact u);
    }

    -- A move at the key `k`, which has no committed id.
    pub Safe-at :
        (k : Text)
        → ((j : Text) → j ≢ k → entries' j ≡ entries j)
        → ((j : Text) → j ≢ k → ids_at key_of rows' j ≡ ids_at key_of rows j)
        → ((j : Text) → j ≢ k → Off key_of j (stages t))
        → ((j : Text) → j ≢ k → Off key_of j st)
        → ((id : Text) → entries k ≢ committed id)
        → Phase key_of (set_at stages t st) k (entries' k) (ids_at key_of rows' k)
        → Fact entries' st
        → Safe stages entries rows
        → Safe (set_at stages t st) entries' rows'
    Safe-at k same_entries same_ids off off' open_key here fact safe = record {
      phase = λ j. elim (Bool-cases (text_eq j k)) [
        | inl same ↦
            subst (λ i. Phase key_of (set_at stages t st) i (entries' i) (ids_at key_of rows' i))
              (sym ((text_eq_iff j k).0 same)) here
        | inr other ↦
            let ne : j ≢ k = λ e. absurd (ground (arith, other, (text_eq_iff j k).1 e)) in
            rw (same_entries j ne, same_ids j ne)
              (Phase-frame key_of stages t st (off j ne) (off' j ne) (safe.phase j))
      ];
      fact =
          set_at_all key_of (λ u x. Fact entries' x) stages t st fact
            λ u _.
              Fact-kept entries entries'
                (λ j id h.
                  same_entries j (λ e. open_key id (subst (λ i. entries i ≡ committed id) e h)) ∙ h)
                (stages u) (safe.fact u);
    }
