-- ===== src/Server/Interleave/Progress.antt =====
-- How many turns of its own a submission takes.
use job_stream.Base.{
  ℕ, suc, ◌-◌, ◌≤◌, Bool, ◌≡◌, refl, ap, ◌∙◌, subst, inl, inr, Option, none, some, List, [], ◌∷◌,
  Text, Result, ok, err, arith, ◌==◌, Bool-cases, if◌then◌else◌,
}
use job_stream.Proto.{Application, SubmitApplicationRequest}
use job_stream.Errors.{Error}
use job_stream.Canonical.{UrlPackage, ApplicationEvent, validate}
use job_stream.Transform.{Transformer}
use job_stream.Repo.{ApplicationRecord}
use job_stream.Server.{submit_one}
use job_stream.Server.Calls.{Program, done, Services, step}
use job_stream.Server.Interleave.{set_at, take_turns}
use job_stream.Server.Interleave.Stages
use job_stream.Server.Interleave.Stages.{
  Stage, fresh, checking, claiming, rechecking, inserting, committing, releasing, finished, gave_up,
  validated, checked, rechecked, inserted, transformed, advance, program, step-program,
}

-- The calls that a submission has before it at most.
abbrev rank : Stage → ℕ
rank (fresh req) = 5
rank (checking e) = 4
rank (claiming e) = 3
rank (rechecking e) = 2
rank (inserting e) = 2
rank (committing e rec) = 1
rank (releasing e x) = 1
rank (finished e id) = 0
rank (gave_up x) = 0

-- The turns that a schedule gives to the request `t`.
abbrev pub turns_of : ℕ → List ℕ → ℕ
turns_of t [] = 0
turns_of t (i ∷ schedule) = if t == i then suc (turns_of t schedule) else turns_of t schedule

validated-rank : (e : ApplicationEvent) (o : Option Error) → rank (validated e o) ≤ 4
unfolding validated
validated-rank e none = omega arith
validated-rank e (some x) = omega arith

checked-rank : (e : ApplicationEvent) (r : Text × Bool × Option Error) → rank (checked e r) ≤ 3
unfolding checked
checked-rank e (id, hit, x) = ground arith

rechecked-rank : (e : ApplicationEvent) (r : Text × Bool × Option Error) → rank (rechecked e r) ≤ 1
unfolding rechecked
rechecked-rank e (id, hit, x) = ground arith

claimed-rank : (e : ApplicationEvent) (r : Bool × Option Error) → rank (Stages.claimed e r) ≤ 2
unfolding Stages.claimed
claimed-rank e (won, x) = ground arith

inserted-rank :
    (e : ApplicationEvent) (r : Result Error ApplicationRecord) → rank (inserted e r) ≤ 1
unfolding inserted
inserted-rank e (ok rec) = omega arith
inserted-rank e (err x) = omega arith

module _ (lower : ℕ → ℕ) (net_url : UrlPackage) (marshal : Application → Result Error (List ℕ))
    {W : Type 0} (s : Services W) where
  transformed-rank :
      (req : SubmitApplicationRequest) (r : Result Error Transformer)
      → rank (transformed lower net_url marshal req r) ≤ 4
  unfolding transformed
  transformed-rank req (err x) = omega arith
  transformed-rank req (ok tf) = validated-rank (tf req) (validate lower net_url (tf req))

  -- Each call brings the end nearer.
  advance-rank : (st : Stage) (w : W) → rank (advance lower net_url marshal s st w).0 ≤ rank st - 1
  unfolding advance
  advance-rank (fresh req) w = transformed-rank req _
  advance-rank (checking e) w = checked-rank e _
  advance-rank (claiming e) w = claimed-rank e _
  advance-rank (rechecking e) w = rechecked-rank e _
  advance-rank (inserting e) w = inserted-rank e _
  advance-rank (committing e rec) w = omega arith
  advance-rank (releasing e x) w = omega arith
  advance-rank (finished e id) w = omega arith
  advance-rank (gave_up x) w = omega arith

  -- Where the request `t` stands after a schedule.
  turns-rank :
      (schedule : List ℕ) (programs : ℕ → Program (Result Error Text)) (w : W) (t : ℕ) (st : Stage)
      → programs t ≡ program lower net_url marshal st
      → (st' : Stage) × ((take_turns s schedule programs w).0 t ≡ program lower net_url marshal st')
        × (rank st' ≤ rank st - turns_of t schedule)
  unfolding take_turns set_at
  turns-rank [] programs w t st at = (st, at, omega arith)
  turns-rank (i ∷ schedule) programs w t st at = elim (Bool-cases (t == i)) [
    | inl same ↦
        let e : t ≡ i = ground (arith, same) in
        let next = advance lower net_url marshal s st w in
        let moved : (step s (programs i) w).0 ≡ program lower net_url marshal next.0 =
          ap (λ p. (step s p w).0) (subst (λ v. programs v ≡ program lower net_url marshal st) e at)
          ∙ ap (λ (r : Program (Result Error Text) × W). r.0)
              (step-program lower net_url marshal s st w) in
        let (st', at', less) =
          turns-rank schedule (set_at programs i (step s (programs i) w).0)
            (step s (programs i) w).1 t next.0 (rw same moved) in
        (st', at', rw same (omega (arith, less, advance-rank st w)))
    | inr other ↦
        let (st', at', less) =
          turns-rank schedule (set_at programs i (step s (programs i) w).0)
            (step s (programs i) w).1 t st (rw other at) in
        (st', at', rw other less)
  ]

  program_at_rest :
      (st : Stage)
      → rank st ≤ 0
      → (r : Result Error Text) × (program lower net_url marshal st ≡ done r)
  unfolding program
  program_at_rest (finished e id) h = (ok id, refl)
  program_at_rest (gave_up x) h = (err x, refl)
  program_at_rest (fresh req) h = absurd (omega arith)
  program_at_rest (checking e) h = absurd (omega arith)
  program_at_rest (claiming e) h = absurd (omega arith)
  program_at_rest (rechecking e) h = absurd (omega arith)
  program_at_rest (inserting e) h = absurd (omega arith)
  program_at_rest (committing e rec) h = absurd (omega arith)
  program_at_rest (releasing e x) h = absurd (omega arith)

  -- A submission with five turns in the schedule has answered.
  pub submit_one-answers :
      (reqs : ℕ → SubmitApplicationRequest) (w : W) (schedule : List ℕ) (t : ℕ)
      → 5 ≤ turns_of t schedule
      → (r : Result Error Text) × ((take_turns s schedule
              (λ u. submit_one lower net_url marshal (reqs u))
              w).0
            t
          ≡ done r)
  unfolding program
  submit_one-answers reqs w schedule t enough =
      let (st, at, less) =
        turns-rank schedule (λ u. submit_one lower net_url marshal (reqs u)) w t (fresh (reqs t))
          refl in
      let (r, rest) = program_at_rest st (omega (arith, less, enough)) in (r, at ∙ rest)

-- A request without a turn stands where it stood.
pub turns_of-zero :
    {W A : Type 0} (s : Services W) (schedule : List ℕ) (programs : ℕ → Program A) (w : W) (t : ℕ)
    → turns_of t schedule ≡ 0
    → (take_turns s schedule programs w).0 t ≡ programs t
unfolding take_turns set_at
turns_of-zero s [] programs w t h = refl
turns_of-zero s (i ∷ schedule) programs w t h = elim (Bool-cases (t == i)) [
  | inl same ↦ absurd (omega (arith, rw same at h))
  | inr other ↦
      let (next, w') = step s (programs i) w in
      turns_of-zero s schedule (set_at programs i next) w' t (rw other at h) ∙ rw other refl
]
