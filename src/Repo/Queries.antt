-- ===== src/Repo/Queries.antt =====
-- services/intake/internal/db, query.sql.go and db.go: the arguments and the columns of the
-- statements. `query_row` and `exec` are the driver's, on a transaction or on the pool; a statement
-- goes by its name.
pub mod Columns
use job_stream.Base.{◌≡◌, refl, List, [], ◌∷◌, ℤ, Text, codes, Result, ok, err, Option, ℕ}
use job_stream.Proto.{Time}
use job_stream.Errors.{Error, plain}
use job_stream.Repo.Postgres.{Row, InsertApplicationParams, InsertOutboxParams, Pool}

-- A value of a column, by the Go type that carries it.
pub data Value : Type 0 where
  uuid : List ℕ → Value
  text : Text → Value
  int16 : ℤ → Value
  timestamptz : Time → Value
  bytea : List ℕ → Value

pub data Statement : Type 0 where
  insert_application get_application_by_id_and_user_id insert_outbox : Statement

-- `row.Scan`, of columns of the right types in the order of the struct.
unfoldable pub scan : List Value → Result Error Row
scan
      (uuid id
        ∷ text user_id
        ∷ text job_title
        ∷ text company
        ∷ text url
        ∷ int16 source
        ∷ int16 status
        ∷ timestamptz applied_at
        ∷ timestamptz created_at
        ∷ text schema_version
        ∷ []) =
    ok (record {
      id = id;
      user_id = user_id;
      job_title = job_title;
      company = company;
      url = url;
      source = source;
      status = status;
      applied_at = applied_at;
      created_at = created_at;
      schema_version = schema_version;
    })
scan _ = err (plain (codes "can't scan into dest"))

-- The columns of a row, in the order of the RETURNING and SELECT clauses.
abbrev pub columns : Row → List Value
columns r =
    uuid r.id
    ∷ text r.user_id
    ∷ text r.job_title
    ∷ text r.company
    ∷ text r.url
    ∷ int16 r.source
    ∷ int16 r.status
    ∷ timestamptz r.applied_at
    ∷ timestamptz r.created_at
    ∷ text r.schema_version
    ∷ []

scanned : {W : Type 0} → Result Error (List Value) × W → Result Error Row × W
scanned (err e, w) = (err e, w)
scanned (ok vs, w) = (scan vs, w)

module _ {W : Type 0} (query_row : Statement → List Value → W → Result Error (List Value) × W) where
  unfoldable pub query_insert_application : InsertApplicationParams → W → Result Error Row × W
  unfolding scanned
  query_insert_application arg w = scanned (
      query_row insert_application
        (text arg.user_id
          ∷ text arg.job_title
          ∷ text arg.company
          ∷ text arg.url
          ∷ int16 arg.source
          ∷ int16 arg.status
          ∷ timestamptz arg.applied_at
          ∷ text arg.schema_version
          ∷ [])
        w)

  unfoldable pub query_application_by_id_and_user_id : List ℕ → Text → W → Result Error Row × W
  unfolding scanned
  query_application_by_id_and_user_id id user_id w =
      scanned (query_row get_application_by_id_and_user_id (uuid id ∷ text user_id ∷ []) w)

unfoldable pub exec_insert_outbox :
    {W : Type 0}
    → (Statement → List Value → W → Option Error × W)
    → InsertOutboxParams
    → W
    → Option Error × W
exec_insert_outbox exec arg w =
    exec insert_outbox (uuid arg.aggregate_id ∷ text arg.topic ∷ bytea arg.payload ∷ []) w

-- The driver: transactions, and statements on a transaction and on the pool (the interface DBTX).
pub record Driver (W Tx : Type 0) : Type 0 where
  pub begin_tx : W → Result Error Tx × W
  pub commit : Tx → W → Option Error × W
  pub rollback : Tx → W → W
  pub query_row_in : Statement → List Value → Tx → Result Error (List Value) × Tx
  pub exec_in : Statement → List Value → Tx → Option Error × Tx
  pub query_row : Statement → List Value → W → Result Error (List Value) × W
  pub scan_uuid : Text → Result Error (List ℕ)

-- The queries over the driver: `New` on the pool and `WithTx` on a transaction.
unfoldable pub queries : {W Tx : Type 0} → Driver W Tx → Pool W Tx
unfolding query_insert_application query_application_by_id_and_user_id exec_insert_outbox
queries d = record {
  begin_tx = d.begin_tx;
  insert_application = query_insert_application d.query_row_in;
  insert_outbox = exec_insert_outbox d.exec_in;
  commit = d.commit;
  rollback = d.rollback;
  get_application = query_application_by_id_and_user_id d.query_row;
  scan_uuid = d.scan_uuid;
}
