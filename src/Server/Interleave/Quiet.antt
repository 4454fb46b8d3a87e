-- ===== src/Server/Interleave/Quiet.antt =====
-- The stores once the requests of a schedule are done.
use job_stream.Base.{ℕ, ◌≤◌, ◌≡◌, ◌⊎◌, inl, inr, refl, sym, ◌∙◌, subst, none, List, Text, Result}
use job_stream.Proto.{Application, SubmitApplicationRequest}
use job_stream.Errors.{Error}
use job_stream.Canonical.{UrlPackage}
use job_stream.Dedup.Contract.{Entry}
use job_stream.Repo.{ApplicationRecord}
use job_stream.Server.{submit_one, insert_event, after_insert}
use job_stream.Server.Calls.{Program, done, Services}
use job_stream.Server.World.{WorldLaws, ids_at}
use job_stream.Server.Interleave.Stages.{Stage, inserting, committing, releasing, program}
use job_stream.Server.Interleave.Phases.{Phase, idle, busy, settled, holds}
use job_stream.Server.Interleave.Unique.{Agrees, after, reached}
use job_stream.Server.Interleave.Progress.{turns_of, turns_of-zero, submit_one-answers}

module _ (lower : ℕ → ℕ) (net_url : UrlPackage) (marshal : Application → Result Error (List ℕ))
    (key_of : Text → Text → Text → Text) where
  -- Neither at its start nor at its end does a request hold a claim.
  done-holds :
      (st : Stage) (r : Result Error Text)
      → program lower net_url marshal st ≡ done r
      → holds key_of st ≡ none
  unfolding program insert_event after_insert
  done-holds (inserting e) r h = cc
  done-holds (committing e rec) r h = cc
  done-holds (releasing e x) r h = cc
  done-holds _ r h = refl

  start-holds :
      (st : Stage) (req : SubmitApplicationRequest)
      → program lower net_url marshal st ≡ submit_one lower net_url marshal req
      → holds key_of st ≡ none
  unfolding program insert_event after_insert submit_one
  start-holds (inserting e) req h = cc
  start-holds (committing e rec) req h = cc
  start-holds (releasing e x) req h = cc
  start-holds _ req h = refl

  Phase-Agrees :
      (stages : ℕ → Stage) (k : Text) (ent : Entry) (ids : List Text)
      → ((t : ℕ) → holds key_of (stages t) ≡ none)
      → Phase key_of stages k ent ids
      → Agrees ent ids
  Phase-Agrees stages k ent ids rest (idle e none_there out) =
      subst (λ x. Agrees x ids) (sym e) none_there
  Phase-Agrees stages k ent ids rest (busy t e held alone written) = cc (sym (rest t) ∙ held)
  Phase-Agrees stages k ent ids rest (settled id e row out) = subst (λ x. Agrees x ids) (sym e) row

  module _ {W : Type 0} (s : Services W) (entries : W → Text → Entry)
      (rows : W → List ApplicationRecord) (laws : WorldLaws s key_of entries rows)
      (reqs : ℕ → SubmitApplicationRequest) (w : W)
      (agrees : (k : Text) → Agrees (entries w k) (ids_at key_of (rows w) k))
      (schedule : List ℕ) where
    abbrev end : (ℕ → Program (Result Error Text)) × W
    end = after lower net_url marshal s key_of entries rows laws reqs w agrees schedule

    -- Let the deduper and the repository keep their contracts and agree at every key before the
    -- first turn. If the schedule gives each request either no turn or five at least, then at the
    -- end they agree at every key again: no claim is left behind, every committed id has its one
    -- row, and every row has its id committed.
    pub finished_schedule-Agrees :
        ((t : ℕ) → (turns_of t schedule ≡ 0) ⊎ (5 ≤ turns_of t schedule))
        → (k : Text) → Agrees (entries end.1 k) (ids_at key_of (rows end.1) k)
    finished_schedule-Agrees full k =
        let r = reached lower net_url marshal s key_of entries rows laws reqs w agrees schedule in
        Phase-Agrees r.stages k _ _
          (λ t. elim (full t) [
            | inl untouched ↦ start-holds (r.stages t) (reqs t) (
                sym (r.at t)
                ∙ turns_of-zero s schedule (λ u. submit_one lower net_url marshal (reqs u)) w t
                    untouched)
            | inr enough ↦
                let (x, answered) =
                  submit_one-answers lower net_url marshal s reqs w schedule t enough in
                done-holds (r.stages t) x (sym (r.at t) ∙ answered)
          ])
          (r.safe.phase k)
