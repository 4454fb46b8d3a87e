-- ===== src/Server/Interleave/Phases.antt =====
-- The state of one dedup key while any number of requests run: who holds the claim, what the
-- deduper's entry says, and which rows there are.
use job_stream.Base.{
  ℕ, ◌≡◌, ◌≢◌, refl, ap, sym, ◌∙◌, subst, inl, inr, Option, none, some, List, [], ◌∷◌, Text, arith,
  ◌==◌, ==_iff, Bool-cases,
}
use job_stream.Dedup.Contract.{Entry, free, pending, committed}
use job_stream.Canonical.{ApplicationEvent}
use job_stream.Server.Interleave.{set_at}
use job_stream.Server.Interleave.Stages.{Stage, inserting, committing, releasing}

module _ (key_of : Text → Text → Text → Text) where
  abbrev pub event_key : ApplicationEvent → Text
  event_key e = key_of e.user_id e.company e.job_title

  -- The key whose claim a request holds.
  abbrev pub holds : Stage → Option Text
  holds (inserting e) = some (event_key e)
  holds (committing e rec) = some (event_key e)
  holds (releasing e x) = some (event_key e)
  holds _ = none

  -- The ids that the holder has written and not committed to the deduper.
  abbrev pub written : Stage → List Text
  written (committing e rec) = rec.id ∷ []
  written _ = []

  abbrev pub Off : Text → Stage → Type 0
  Off k st = holds st ≢ some k

  -- The three states of a key `k` with the entry `ent` and the rows `ids`.
  pub data Phase (stages : ℕ → Stage) (k : Text) (ent : Entry) (ids : List Text) : Type 0 where
    idle : ent ≡ free → ids ≡ [] → ((t : ℕ) → Off k (stages t)) → Phase stages k ent ids
    busy :
        (t : ℕ)
        → ent ≡ pending
        → holds (stages t) ≡ some k
        → ((u : ℕ) → holds (stages u) ≡ some k → u ≡ t)
        → ids ≡ written (stages t)
        → Phase stages k ent ids
    settled :
        (id : Text)
        → ent ≡ committed id
        → ids ≡ id ∷ []
        → ((t : ℕ) → Off k (stages t))
        → Phase stages k ent ids

  set_at_same : (stages : ℕ → Stage) (t : ℕ) (st : Stage) → set_at stages t st t ≡ st
  unfolding set_at
  set_at_same stages t st = ground arith

  set_at_other :
      (stages : ℕ → Stage) (t u : ℕ) (st : Stage) → u ≢ t → set_at stages t st u ≡ stages u
  unfolding set_at
  set_at_other stages t u st h = ground arith

  -- What the moved request and all the others have, each has.
  pub set_at_all {ℓ} :
      (P : ℕ → Stage → Type ℓ) (stages : ℕ → Stage) (t : ℕ) (st : Stage)
      → P t st
      → ((u : ℕ) → u ≢ t → P u (stages u))
      → (u : ℕ) → P u (set_at stages t st u)
  set_at_all P stages t st here others u = elim (Bool-cases (u == t)) [
    | inl same ↦
        subst (λ v. P v (set_at stages t st v)) (sym ((==_iff u t).0 same))
          (subst (P t) (sym (set_at_same stages t st)) here)
    | inr other ↦
        let ne : u ≢ t = λ e. absurd (ground (arith, other, e)) in
        subst (P u) (sym (set_at_other stages t u st ne)) (others u ne)
  ]

  module _ (stages : ℕ → Stage) (t : ℕ) (st : Stage) {k : Text} where
    -- A request that neither held nor takes the claim of `k` leaves the state of `k` as it is.
    pub Phase-frame :
        {ent : Entry} {ids : List Text}
        → Off k (stages t)
        → Off k st
        → Phase stages k ent ids
        → Phase (set_at stages t st) k ent ids
    Phase-frame off off' (idle e r out) =
        idle e r (set_at_all (λ u x. Off k x) stages t st off' (λ u _. out u))
    Phase-frame off off' (settled id e r out) =
        settled id e r (set_at_all (λ u x. Off k x) stages t st off' (λ u _. out u))
    Phase-frame {ids} off off' (busy h e holder alone r) =
        let ne : h ≢ t = λ same. off (subst (λ v. holds (stages v) ≡ some k) same holder) in
        let kept = set_at_other stages t h st ne in
        busy h e (subst (λ x. holds x ≡ some k) (sym kept) holder)
          (set_at_all (λ u x. holds x ≡ some k → u ≡ h) stages t st
            (λ holding. absurd (off' holding)) (λ u _. alone u))
          (subst (λ x. ids ≡ written x) (sym kept) r)

    -- A request takes the claim of a free key.
    pub Phase-take :
        {ids : List Text}
        → holds st ≡ some k
        → written st ≡ []
        → Phase stages k free ids
        → Phase (set_at stages t st) k pending ids
    Phase-take {ids} holding nothing (idle e r out) =
        let here = set_at_same stages t st in
        busy t refl (subst (λ x. holds x ≡ some k) (sym here) holding)
          (set_at_all (λ u x. holds x ≡ some k → u ≡ t) stages t st (λ _. refl)
            (λ u ne h. absurd (out u h)))
          (subst (λ x. ids ≡ written x) (sym here) (r ∙ sym nothing))
    Phase-take holding nothing (busy h e holder alone r) = cc
    Phase-take holding nothing (settled id e r out) = cc

    module _ (held : holds (stages t) ≡ some k) where
      -- What the holder of a claim knows.
      pub holder-ids :
          {ent : Entry} {ids : List Text}
          → Phase stages k ent ids
          → (ent ≡ pending) × (ids ≡ written (stages t))
      holder-ids (idle e r out) = absurd (out t held)
      holder-ids (settled id e r out) = absurd (out t held)
      holder-ids (busy h e holder alone r) =
          (e, r ∙ ap (λ u. written (stages u)) (sym (alone t held)))

      others-Off :
          {ent : Entry} {ids : List Text}
          → Phase stages k ent ids
          → (u : ℕ) → u ≢ t
          → Off k (stages u)
      others-Off (idle e r out) u ne h = out u h
      others-Off (settled id e r out) u ne h = out u h
      others-Off (busy h e holder alone r) u ne other = ne (alone u other ∙ sym (alone t held))

      -- The holder keeps the claim, and the rows are what it has written.
      pub Phase-hold :
          {ent : Entry} {ids ids' : List Text}
          → holds st ≡ some k
          → ids' ≡ written st
          → Phase stages k ent ids
          → Phase (set_at stages t st) k ent ids'
      Phase-hold {ids'} holding r' phase =
          let here = set_at_same stages t st in
          busy t (holder-ids phase).0 (subst (λ x. holds x ≡ some k) (sym here) holding)
            (set_at_all (λ u x. holds x ≡ some k → u ≡ t) stages t st (λ _. refl)
              (λ u ne h. absurd (others-Off phase u ne h)))
            (subst (λ x. ids' ≡ written x) (sym here) r')

      out_after :
          {ent : Entry} {ids : List Text}
          → Off k st
          → Phase stages k ent ids
          → (u : ℕ) → Off k (set_at stages t st u)
      out_after off phase = set_at_all (λ u x. Off k x) stages t st off (others-Off phase)

      -- The holder commits the id of the row that it wrote.
      pub Phase-settle :
          {ent : Entry} {ids : List Text} {id : Text}
          → Off k st
          → written (stages t) ≡ id ∷ []
          → Phase stages k ent ids
          → Phase (set_at stages t st) k (committed id) ids
      Phase-settle off wrote phase =
          settled _ refl ((holder-ids phase).1 ∙ wrote) (out_after off phase)

      -- The holder gives the claim back, and has written nothing.
      pub Phase-free :
          {ent : Entry} {ids : List Text}
          → Off k st
          → written (stages t) ≡ []
          → Phase stages k ent ids
          → Phase (set_at stages t st) k free ids
      Phase-free off nothing phase =
          idle refl ((holder-ids phase).1 ∙ nothing) (out_after off phase)
