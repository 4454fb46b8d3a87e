-- ===== src/Server/Alone/Again.antt =====
-- One submission after another with the same key.
use job_stream.Base.{ℕ, ◌≡◌, ◌≢◌, ap, sym, ◌∙◌, List, Text, Result, ok, err}
use job_stream.Proto.{Application, SubmitApplicationRequest}
use job_stream.Errors.{Error, err_pending_duplicate}
use job_stream.Canonical.{UrlPackage, ApplicationEvent}
use job_stream.Dedup.Contract.{Entry, free, committed}
use job_stream.Dedup.Updates.{update_same}
use job_stream.Repo.{ApplicationRecord}
use job_stream.Server.{submit_one}
use job_stream.Server.Calls.{Services, run}
use job_stream.Server.World.{WorldLaws}
use job_stream.Server.Alone.{
  key_at_event, Unchanged, Submitted, repeated, in_progress, stored, failed, Becomes,
  submit_one-Submitted,
}

module _ {W : Type 0} (key_of : Text → Text → Text → Text) (entries : W → Text → Entry)
    (rows : W → List ApplicationRecord) (e : ApplicationEvent) where
  abbrev k : Text
  k = key_at_event key_of entries rows e

  -- An answer is committed when it is given.
  pub answered-committed :
      (w w' : W) (r : Result Error Text) (id : Text)
      → Submitted key_of entries rows e w w' r
      → r ≡ ok id
      → entries w' k ≡ committed id
  answered-committed w w' r id (repeated id' is kept) h =
      kept.same_entries k ∙ is ∙ ap committed (cc)
  answered-committed w w' r id (in_progress is kept) h = cc
  answered-committed w w' r id (stored rec is of grown after) h =
      after k ∙ update_same (entries w) k (committed rec.id) ∙ ap committed (cc)
  answered-committed w w' r id (failed x is kept) h = cc

  committed-repeats :
      (w w' : W) (r : Result Error Text) (id : Text)
      → entries w k ≡ committed id
      → Submitted key_of entries rows e w w' r
      → (r ≡ ok id) × Unchanged key_of entries rows w w'
  committed-repeats w w' r id h (repeated id' is kept) =
      let same : committed id' ≡ committed id = sym is ∙ h in (ap ok (cc), kept)
  committed-repeats w w' r id h (in_progress is kept) = cc
  committed-repeats w w' r id h (stored rec is of grown after) = cc
  committed-repeats w w' r id h (failed x is kept) = cc

  failed-free :
      (w w' : W) (r : Result Error Text) (x : Error)
      → Submitted key_of entries rows e w w' r
      → r ≡ err x
      → x ≢ err_pending_duplicate
      → entries w' k ≡ free
  failed-free w w' r x (repeated id' is kept) h other = cc
  failed-free w w' r x (in_progress is kept) h other = absurd (other (cc))
  failed-free w w' r x (stored rec is of grown after) h other = cc
  failed-free w w' r x (failed y is kept) h other = kept.same_entries k ∙ is

  free-unblocked :
      (w w' : W) (r : Result Error Text)
      → entries w k ≡ free
      → Submitted key_of entries rows e w w' r
      → r ≢ err err_pending_duplicate
  free-unblocked w w' r h (repeated id' is kept) = cc
  free-unblocked w w' r h (in_progress is kept) = cc
  free-unblocked w w' r h (stored rec is of grown after) = λ x. cc
  free-unblocked w w' r h (failed x is kept) = λ y. cc

module _ (lower : ℕ → ℕ) (net_url : UrlPackage) (marshal : Application → Result Error (List ℕ))
    {W : Type 0} (s : Services W) (key_of : Text → Text → Text → Text) (entries : W → Text → Entry)
    (rows : W → List ApplicationRecord) (laws : WorldLaws s key_of entries rows)
    (req req' : SubmitApplicationRequest) (e e' : ApplicationEvent) (w : W) where
  abbrev first : Result Error Text × W
  first = run s (submit_one lower net_url marshal req) w

  abbrev second : Result Error Text × W
  second = run s (submit_one lower net_url marshal req') first.1

  module _ (becomes : Becomes lower net_url (s.now w) req e)
      (becomes' : Becomes lower net_url (s.now first.1) req' e')
      (same_key : key_at_event key_of entries rows e ≡ key_at_event key_of entries rows e') where
    spec : Submitted key_of entries rows e w first.1 first.0
    spec = submit_one-Submitted lower net_url marshal s key_of entries rows laws req e w becomes

    spec' : Submitted key_of entries rows e' first.1 second.1 second.0
    spec' =
        submit_one-Submitted lower net_url marshal s key_of entries rows laws req' e' first.1
          becomes'

    -- Over a deduper and a repository that keep their contracts, submitting is idempotent: once a
    -- valid submission has been answered with an id, the next valid one with the same key gets the
    -- same id, and rows and entries stay as they are.
    pub resubmit-same_id :
        (id : Text)
        → first.0 ≡ ok id
        → (second.0 ≡ ok id) × Unchanged key_of entries rows first.1 second.1
    resubmit-same_id id answered =
        committed-repeats key_of entries rows e' first.1 second.1 second.0 id
          (ap (entries first.1) (sym same_key)
            ∙ answered-committed key_of entries rows e w first.1 first.0 id spec answered)
          spec'

    -- Over the same contracts, a valid submission that fails in the insert does not block its key:
    -- the next valid one with the same key is not refused as a duplicate in progress.
    pub resubmit-unblocked :
        (x : Error)
        → first.0 ≡ err x
        → x ≢ err_pending_duplicate
        → second.0 ≢ err err_pending_duplicate
    resubmit-unblocked x failed_first other =
        free-unblocked key_of entries rows e' first.1 second.1 second.0
          (ap (entries first.1) (sym same_key)
            ∙ failed-free key_of entries rows e w first.1 first.0 x spec failed_first other)
          spec'
