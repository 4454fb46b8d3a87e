-- ===== src/Server/Interleave/Moves.antt =====
-- The calls of a submission and the invariant of concurrent submissions.
use job_stream.Base.{
  ℕ, ◌≡◌, ◌≢◌, refl, ap, sym, ◌∙◌, subst, Option, none, some, List, [], ◌∷◌, Text, Result, ok, err,
}
use job_stream.Proto.{Application, SubmitApplicationRequest}
use job_stream.Errors.{Error}
use job_stream.Dedup.Contract.{Entry, free, pending, committed, update, seen, is_free, claimed}
use job_stream.Canonical.{UrlPackage, ApplicationEvent, validate}
use job_stream.Transform.{Transformer}
use job_stream.Dedup.Updates.{update_same, update_other, update_kept}
use job_stream.Repo.{ApplicationRecord}
use job_stream.Server.{insert_params}
use job_stream.Server.World.{Inserted, ids_at, ids_at-cons_self, ids_at-cons_ne}
use job_stream.Server.Interleave.{set_at}
use job_stream.Server.Interleave.Stages
use job_stream.Server.Interleave.Stages.{
  Stage, fresh, checking, claiming, rechecking, inserting, committing, releasing, finished, gave_up,
  validated, checked, rechecked, inserted, transformed, advance,
}
use job_stream.Server.Interleave.Phases.{
  event_key, holds, written, Off, Phase, Phase-take, Phase-hold, Phase-settle, Phase-free,
  holder-ids,
}
use job_stream.Server.Interleave.Safety.{Fact, Safe, Safe-quiet, Safe-at}

module _ (key_of : Text → Text → Text → Text) where
  -- A stage without a claim, and with its fact.
  abbrev pub Calm : (Text → Entry) → Stage → Type 0
  Calm entries st = (holds key_of st ≡ none) × Fact key_of entries st

  validated-Calm :
      (entries : Text → Entry) (e : ApplicationEvent) (o : Option Error)
      → Calm entries (validated e o)
  unfolding validated
  validated-Calm entries e none = (refl, tt)
  validated-Calm entries e (some x) = (refl, tt)

  pub transformed-Calm :
      (lower : ℕ → ℕ) (net_url : UrlPackage) (marshal : Application → Result Error (List ℕ))
      (entries : Text → Entry) (req : SubmitApplicationRequest) (r : Result Error Transformer)
      → Calm entries (transformed lower net_url marshal req r)
  unfolding transformed
  transformed-Calm lower net_url marshal entries req (err x) = (refl, tt)
  transformed-Calm lower net_url marshal entries req (ok tf) =
      validated-Calm entries (tf req) (validate lower net_url (tf req))

  -- A hit is answered with the committed id.
  pub checked-Calm :
      (entries : Text → Entry) (e : ApplicationEvent) (entry : Entry)
      → entries (event_key key_of e) ≡ entry
      → Calm entries (checked e (seen entry))
  unfolding checked
  checked-Calm entries e free h = (refl, tt)
  checked-Calm entries e pending h = (refl, tt)
  checked-Calm entries e (committed id) h = (refl, h)

  pub rechecked-Calm :
      (entries : Text → Entry) (e : ApplicationEvent) (entry : Entry)
      → entries (event_key key_of e) ≡ entry
      → Calm entries (rechecked e (seen entry))
  unfolding rechecked
  rechecked-Calm entries e free h = (refl, tt)
  rechecked-Calm entries e pending h = (refl, tt)
  rechecked-Calm entries e (committed id) h = (refl, h)

  other_key :
      (k : Text) (st : Stage) → holds key_of st ≡ some k → (j : Text) → j ≢ k → Off key_of j st
  other_key k st h j ne held = ne (cc)

  none-Off : (st : Stage) → holds key_of st ≡ none → (j : Text) → Off key_of j st
  none-Off st h j held = cc

  pending_open : (entry : Entry) → entry ≡ pending → (id : Text) → entry ≢ committed id
  pending_open entry h id e = cc

  module _ (stages : ℕ → Stage) (t : ℕ) (entries entries' : Text → Entry)
      (rows rows' : List ApplicationRecord) (safe : Safe key_of stages entries rows)
      (e : ApplicationEvent) where
    -- `Claim`: it takes a free key, and any other stays as it is.
    pub claim-Safe :
        (entry : Entry)
        → entries (event_key key_of e) ≡ entry
        → stages t ≡ claiming e
        → ((j : Text) → entries' j ≡ update entries (event_key key_of e) (claimed entry) j)
        → rows' ≡ rows
        → Safe key_of (set_at stages t (Stages.claimed e (is_free entry, none))) entries' rows'
    unfolding Stages.claimed
    claim-Safe free was at after same_rows =
        let k = event_key key_of e in
        let quiet : holds key_of (stages t) ≡ none = ap (holds key_of) at in
        Safe-at key_of stages t (inserting e) entries entries' rows rows' k
          (λ j ne. after j ∙ update_other entries k pending j ne)
          (λ j _. ap (λ r. ids_at key_of r j) same_rows) (λ j _. none-Off (stages t) quiet j)
          (other_key k (inserting e) refl) (λ id h. cc (was, h))
          (rw (after k ∙ update_same entries k pending, same_rows)
            (Phase-take key_of stages t (inserting e) refl refl
              (subst (λ x. Phase key_of stages k x (ids_at key_of rows k)) was (safe.phase k))))
          tt safe
    claim-Safe pending was at after same_rows =
        Safe-quiet key_of stages t (rechecking e) entries entries' rows rows'
          (λ j. after j ∙ update_kept entries (event_key key_of e) pending (sym was) j) same_rows
          (ap (holds key_of) at) refl tt safe
    claim-Safe (committed id) was at after same_rows =
        Safe-quiet key_of stages t (rechecking e) entries entries' rows rows'
          (λ j. after j ∙ update_kept entries (event_key key_of e) (committed id) (sym was) j)
          same_rows (ap (holds key_of) at) refl tt safe

    module _ (held : holds key_of (stages t) ≡ some (event_key key_of e)) where
      held_pending : entries (event_key key_of e) ≡ pending
      held_pending =
          (holder-ids key_of stages t (stages t) held (safe.phase (event_key key_of e))).0

      -- The holder writes its row, or fails to.
      pub insert-Safe :
          (r : Result Error ApplicationRecord)
          → stages t ≡ inserting e
          → ((j : Text) → entries' j ≡ entries j)
          → Inserted (insert_params e) rows rows' r
          → Safe key_of (set_at stages t (inserted e r)) entries' rows'
      unfolding inserted insert_params
      insert-Safe (ok rec) at same_entries (grown, held_values, valid) =
          let user = held_values.user_id in
          let company = held_values.company in
          let title = held_values.job_title in
          let k = event_key key_of e in
          let same : key_of rec.user_id rec.company rec.job_title ≡ k = cc in
          let nothing = (holder-ids key_of stages t (stages t) held (safe.phase k)).1 in
          let one : ids_at key_of rows' k ≡ rec.id ∷ [] =
            ap (λ r. ids_at key_of r k) grown
            ∙ ids_at-cons_self key_of rec rows k same
            ∙ ap (◌∷◌ rec.id) (nothing ∙ ap (written key_of) at) in
          Safe-at key_of stages t (committing e rec) entries entries' rows rows' k
            (λ j _. same_entries j)
            (λ j ne. ap (λ r. ids_at key_of r j) grown ∙ ids_at-cons_ne key_of rec rows k same j ne)
            (other_key k (stages t) held) (other_key k (committing e rec) refl)
            (pending_open (entries k) held_pending)
            (rw (same_entries k)
              (Phase-hold key_of stages t (committing e rec) held refl one (safe.phase k)))
            valid safe
      insert-Safe (err x) at same_entries same_rows =
          let k = event_key key_of e in
          Safe-at key_of stages t (releasing e x) entries entries' rows rows' k
            (λ j _. same_entries j) (λ j _. ap (λ r. ids_at key_of r j) same_rows)
            (other_key k (stages t) held) (other_key k (releasing e x) refl)
            (pending_open (entries k) held_pending)
            (rw (same_entries k, same_rows)
              (Phase-hold key_of stages t (releasing e x) held refl
                ((holder-ids key_of stages t (stages t) held (safe.phase k)).1
                  ∙ ap (written key_of) at)
                (safe.phase k)))
            tt safe

      -- The holder commits the id of its row.
      pub commit-Safe :
          (rec : ApplicationRecord)
          → stages t ≡ committing e rec
          → ((j : Text) → entries' j ≡ update entries (event_key key_of e) (committed rec.id) j)
          → rows' ≡ rows
          → Safe key_of (set_at stages t (finished e rec.id)) entries' rows'
      commit-Safe rec at after same_rows =
          let k = event_key key_of e in
          let now = after k ∙ update_same entries k (committed rec.id) in
          Safe-at key_of stages t (finished e rec.id) entries entries' rows rows' k
            (λ j ne. after j ∙ update_other entries k (committed rec.id) j ne)
            (λ j _. ap (λ r. ids_at key_of r j) same_rows) (other_key k (stages t) held)
            (λ j _. none-Off (finished e rec.id) refl j) (pending_open (entries k) held_pending)
            (rw (now, same_rows)
              (Phase-settle key_of stages t (finished e rec.id) held (λ h. cc)
                (ap (written key_of) at) (safe.phase k)))
            now safe

      -- The holder frees the key after a failed insert.
      pub release-Safe :
          (x y : Error)
          → stages t ≡ releasing e x
          → ((j : Text) → entries' j ≡ update entries (event_key key_of e) free j)
          → rows' ≡ rows
          → Safe key_of (set_at stages t (gave_up y)) entries' rows'
      release-Safe x y at after same_rows =
          let k = event_key key_of e in
          Safe-at key_of stages t (gave_up y) entries entries' rows rows' k
            (λ j ne. after j ∙ update_other entries k free j ne)
            (λ j _. ap (λ r. ids_at key_of r j) same_rows) (other_key k (stages t) held)
            (λ j _. none-Off (gave_up y) refl j) (pending_open (entries k) held_pending)
            (rw (after k ∙ update_same entries k free, same_rows)
              (Phase-free key_of stages t (gave_up y) held (λ h. cc) (ap (written key_of) at)
                (safe.phase k)))
            tt safe
