-- ===== src/Server/World.antt =====
-- What the server assumes of its dependencies, over two views of the world: the deduper's entries
-- and the application rows, the newest first.
use job_stream.Base.{
  ◌≡◌, ◌≢◌, ◌⊎◌, Contains, List, [], ◌∷◌, Text, Result, ok, err, text_eq, text_eq_iff, sym, arith,
  if◌then◌else◌,
}
use job_stream.Errors.{Error, err_not_found, root}
use job_stream.Dedup.{pending_sentinel}
use job_stream.Dedup.Contract.{Entry, DeduperContract}
use job_stream.Repo.Int16.{IsInt16}
use job_stream.Repo.Timestamps.{IsTimestamp, to_micros}
use job_stream.Repo.{ApplicationRecord, InsertParams, PayloadBuilder, ApplicationRepo}
use job_stream.Server.Calls.{Services}

-- The record holds the values of the submission; the enum numbers, where an int16 can hold them, and
-- the time in whole microseconds, where it is one of the years 1 to 9999.
pub record Holds (p : InsertParams) (rec : ApplicationRecord) : Type 0 where
  pub user_id : rec.user_id ≡ p.user_id
  pub company : rec.company ≡ p.company
  pub job_title : rec.job_title ≡ p.job_title
  pub url : rec.url ≡ p.url
  pub source : IsInt16 p.source → rec.source ≡ p.source
  pub status : IsInt16 p.status → rec.status ≡ p.status
  pub applied_at : IsTimestamp p.applied_at → rec.applied_at ≡ to_micros p.applied_at
  pub schema_version : rec.schema_version ≡ p.schema_version

-- What an insert leaves: on success one row more, of the submission and with an id that is not
-- the sentinel, and on failure the old rows.
abbrev pub Inserted :
    InsertParams
    → List ApplicationRecord
    → List ApplicationRecord
    → Result Error ApplicationRecord
    → Type 0
Inserted p before after (ok rec) =
    (after ≡ rec ∷ before) × Holds p rec × (rec.id ≢ pending_sentinel)
Inserted p before after (err e) = after ≡ before

pub record RepoContract {W : Type 0} (r : ApplicationRepo W) (rows : W → List ApplicationRecord)
    : Type 0 where
  pub inserted :
      (p : InsertParams) (topic : Text) (build : PayloadBuilder) (w : W)
      → Inserted p
          (rows w)
          (rows (r.insert_with_outbox p topic build w).1)
          (r.insert_with_outbox p topic build w).0

-- What a client assumes of lookups in a world that is sound, whatever that means for the store: a
-- record that is there is found under its id and its user, or the answer is a fault, never
-- "not found".
pub record LookupContract {W : Type 0} (r : ApplicationRepo W) (rows : W → List ApplicationRecord)
    (IsSound : W → Type 0) : Type 0 where
  pub found :
      (rec : ApplicationRecord) (w : W)
      → IsSound w
      → Contains (rows w) rec
      → ((r.get_by_id_and_user_id rec.id rec.user_id w).0 ≡ ok rec)
        ⊎ ((e : Error) × ((r.get_by_id_and_user_id rec.id rec.user_id w).0 ≡ err e)
            × (root e ≢ err_not_found))
  pub named : (rec : ApplicationRecord) (w : W) → IsSound w → Contains (rows w) rec → rec.id ≢ []

-- The two stores do not touch one another.
pub record Apart {W : Type 0} (s : Services W) (entries : W → Text → Entry)
    (rows : W → List ApplicationRecord) : Type 0 where
  pub check_rows : (u c t : Text) (w : W) → rows (s.deduper.check u c t w).1 ≡ rows w
  pub claim_rows : (u c t : Text) (w : W) → rows (s.deduper.claim u c t w).1 ≡ rows w
  pub set_rows : (u c t id : Text) (w : W) → rows (s.deduper.set u c t id w).1 ≡ rows w
  pub release_rows : (u c t : Text) (w : W) → rows (s.deduper.release u c t w).1 ≡ rows w
  pub insert_entries :
      (p : InsertParams) (topic : Text) (build : PayloadBuilder) (w : W) (j : Text)
      → entries (s.repo.insert_with_outbox p topic build w).1 j ≡ entries w j

pub record WorldLaws {W : Type 0} (s : Services W) (key_of : Text → Text → Text → Text)
    (entries : W → Text → Entry) (rows : W → List ApplicationRecord) : Type 0 where
  pub dedup : DeduperContract s.deduper key_of entries
  pub store : RepoContract s.repo rows
  pub apart : Apart s entries rows

-- The ids of the rows whose submission has the key `k`.
unfoldable pub ids_at : (Text → Text → Text → Text) → List ApplicationRecord → Text → List Text
ids_at key_of [] k = []
ids_at key_of (rec ∷ recs) k =
    let rest = ids_at key_of recs k in
    if text_eq k (key_of rec.user_id rec.company rec.job_title) then rec.id ∷ rest else rest

module _ (key_of : Text → Text → Text → Text) (rec : ApplicationRecord)
    (recs : List ApplicationRecord) (k : Text)
    (same : key_of rec.user_id rec.company rec.job_title ≡ k) where
  pub ids_at-cons_self : ids_at key_of (rec ∷ recs) k ≡ rec.id ∷ ids_at key_of recs k
  unfolding ids_at
  ids_at-cons_self =
      rw ((text_eq_iff k (key_of rec.user_id rec.company rec.job_title)).1 (sym same))

  pub ids_at-cons_ne : (j : Text) → j ≢ k → ids_at key_of (rec ∷ recs) j ≡ ids_at key_of recs j
  unfolding ids_at
  ids_at-cons_ne j ne =
      ground (arith, text_eq_iff j (key_of rec.user_id rec.company rec.job_title), same, ne)
