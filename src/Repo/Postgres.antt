-- ===== src/Repo/Postgres.antt =====
-- services/intake/internal/repo/postgres.go over the queries of services/intake/internal/db. The
-- driver (pgx) is a parameter: `W` is the world with the database, `Tx` an open transaction.
pub mod Atomic
pub mod Rows
pub mod Contract
pub mod Lookup
use job_stream.Base.{
  ℕ, ◌+◌, ◌-◌, ◌%◌, Option, none, some, List, [], ◌++◌, ℤ, pos, negsuc, Text, codes, Result, ok,
  err, ltb, Bool, true, false, if◌then◌else◌,
}
use job_stream.Proto.{Time}
use job_stream.Errors.{Error, err_not_found, err_no_rows, wrapped, root}
use job_stream.Repo.{ApplicationRecord, InsertParams, PayloadBuilder, ApplicationRepo}
use job_stream.Repo.Uuid.{uuid_to_string}

-- db.Application: a row of the table `applications`, its id as raw bytes.
pub record Row : Type 0 where
  pub id : List ℕ
  pub user_id : Text
  pub job_title : Text
  pub company : Text
  pub url : Text
  pub source : ℤ
  pub status : ℤ
  pub applied_at : Time
  pub created_at : Time
  pub schema_version : Text

pub record InsertApplicationParams : Type 0 where
  pub user_id : Text
  pub job_title : Text
  pub company : Text
  pub url : Text
  pub source : ℤ
  pub status : ℤ
  pub applied_at : Time
  pub schema_version : Text

pub record InsertOutboxParams : Type 0 where
  pub aggregate_id : List ℕ
  pub topic : Text
  pub payload : List ℕ

-- The pool and the three statements of query.sql.
pub record Pool (W Tx : Type 0) : Type 0 where
  pub begin_tx : W → Result Error Tx × W
  pub insert_application : InsertApplicationParams → Tx → Result Error Row × Tx
  pub insert_outbox : InsertOutboxParams → Tx → Option Error × Tx
  pub commit : Tx → W → Option Error × W
  pub rollback : Tx → W → W
  pub get_application : List ℕ → Text → W → Result Error Row × W
  -- `uid.Scan(id)`
  pub scan_uuid : Text → Result Error (List ℕ)

-- `int16(n)` of an int32.
unfoldable pub to_int16 : ℤ → ℤ
to_int16 (pos n) = let m = n % 65536 in if ltb m 32768 then pos m else negsuc (65535 - m)
to_int16 (negsuc n) = let m = n % 65536 in if ltb m 32768 then negsuc m else pos (65535 - m)

unfoldable pub from_row : Row → ApplicationRecord
from_row r = record {
  id = uuid_to_string r.id;
  user_id = r.user_id;
  job_title = r.job_title;
  company = r.company;
  url = r.url;
  source = r.source;
  status = r.status;
  applied_at = r.applied_at;
  created_at = r.created_at;
  schema_version = r.schema_version;
}

unfoldable pub row_params : InsertParams → InsertApplicationParams
row_params p = record {
  user_id = p.user_id;
  job_title = p.job_title;
  company = p.company;
  url = p.url;
  source = to_int16 p.source;
  status = to_int16 p.status;
  applied_at = p.applied_at;
  schema_version = p.schema_version;
}

-- `errors.Is(err, pgx.ErrNoRows)`, of the innermost error.
abbrev pub is_no_rows : Error → Bool
is_no_rows err_no_rows = true
is_no_rows _ = false

-- `quoted` is the verb `%q`.
module _ {W Tx : Type 0} (quoted : Text → Text) (pool : Pool W Tx) where
  -- What a stage of the transaction leaves: the result, the transaction and the world.
  abbrev pub Stage : Type 0
  Stage = Result Error ApplicationRecord × Tx × W

  unfoldable pub after_commit : ApplicationRecord → Tx → Option Error × W → Stage
  after_commit rec tx (some e, w) = (err (wrapped (codes "commit tx: ") e []), tx, w)
  after_commit rec tx (none, w) = (ok rec, tx, w)

  unfoldable pub after_outbox : ApplicationRecord → Option Error × Tx → W → Stage
  after_outbox rec (some e, tx) w = (err (wrapped (codes "insert outbox: ") e []), tx, w)
  after_outbox rec (none, tx) w = after_commit rec tx (pool.commit tx w)

  unfoldable pub after_payload :
      ApplicationRecord → List ℕ → Text → Result Error (List ℕ) → Tx → W → Stage
  after_payload rec id topic (err e) tx w =
      (err (wrapped (codes "build outbox payload: ") e []), tx, w)
  after_payload rec id topic (ok payload) tx w =
      after_outbox rec
        (pool.insert_outbox (record { aggregate_id = id; topic = topic; payload = payload }) tx) w

  unfoldable pub after_insert : Text → PayloadBuilder → Result Error Row × Tx → W → Stage
  after_insert topic build (err e, tx) w =
      (err (wrapped (codes "insert application: ") e []), tx, w)
  after_insert topic build (ok row, tx) w =
      let rec = from_row row in after_payload rec row.id topic (build rec) tx w

  -- The deferred rollback, which runs whatever the result is.
  unfoldable pub close_tx : Stage → Result Error ApplicationRecord × W
  close_tx (result, tx, w) = (result, pool.rollback tx w)

  unfoldable pub after_begin :
      InsertParams
      → Text
      → PayloadBuilder
      → Result Error Tx × W
      → Result Error ApplicationRecord × W
  after_begin p topic build (err e, w) = (err (wrapped (codes "begin tx: ") e []), w)
  after_begin p topic build (ok tx, w) =
      close_tx (after_insert topic build (pool.insert_application (row_params p) tx) w)

  unfoldable pub insert_with_outbox :
      InsertParams → Text → PayloadBuilder → W → Result Error ApplicationRecord × W
  unfolding after_begin close_tx after_insert after_payload after_outbox after_commit from_row
  insert_with_outbox p topic build w = after_begin p topic build (pool.begin_tx w)

  unfoldable pub after_get : Result Error Row × W → Result Error ApplicationRecord × W
  after_get (err e, w) =
      if is_no_rows (root e)
      then (err err_not_found, w)
      else (err (wrapped (codes "get application: ") e []), w)
  after_get (ok row, w) = (ok (from_row row), w)

  unfoldable pub after_scan :
      Text → Text → Result Error (List ℕ) → W → Result Error ApplicationRecord × W
  after_scan id user_id (err e) w =
      (err (wrapped (codes "invalid uuid " ++ quoted id ++ codes ": ") e []), w)
  after_scan id user_id (ok uid) w = after_get (pool.get_application uid user_id w)

  unfoldable pub get_by_id_and_user_id : Text → Text → W → Result Error ApplicationRecord × W
  unfolding after_scan after_get from_row
  get_by_id_and_user_id id user_id w = after_scan id user_id (pool.scan_uuid id) w

  unfoldable pub postgres_repo : ApplicationRepo W
  unfolding insert_with_outbox get_by_id_and_user_id
  postgres_repo = record {
    insert_with_outbox = insert_with_outbox;
    get_by_id_and_user_id = get_by_id_and_user_id;
  }
