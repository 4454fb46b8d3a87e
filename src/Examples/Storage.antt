-- ===== src/Examples/Storage.antt =====
-- The queries over a driver in memory, and the texts of ids and numbers.
use job_stream.Base.{
  ◌+◌, ◌≡◌, ◌↔◌, refl, none, some, List, [], ◌∷◌, All, ℤ, pos, negsuc, Text, codes, decimal_ℤ,
  length, arith, Option, Result, ok, err,
}
use job_stream.Errors.{Error, plain}
use job_stream.Config.{env_int}
use job_stream.Config.Numbers.{lower, env_int-decimal_ℤ}
use job_stream.Dedup.Keys.{IsByte}
use job_stream.Repo.Int16.{IsInt16}
use job_stream.Repo.Uuid.{uuid_to_string}
use job_stream.Repo.Uuid.RoundTrip.{undash, unhex, unhex-uuid_to_string}
use job_stream.Repo.Postgres.{
  Row, InsertApplicationParams, InsertOutboxParams, to_int16, postgres_repo,
}
use job_stream.Repo.Postgres.Atomic.{PoolLaws}
use job_stream.Repo.Postgres.Lookup.{IsKeyed, postgres_repo-LookupContract}
use job_stream.Repo.Postgres.Rows.{SelectLaws, low_bits, to_int16_bounds}
use job_stream.Repo.Queries.{
  Value, uuid, text, int16, timestamptz, bytea, Statement, insert_application,
  get_application_by_id_and_user_id, insert_outbox, columns, Driver, queries,
}
use job_stream.Repo.Queries.Columns.{
  inserted_columns, AllKept, outbox_columns, DriverLaws, queries-PoolLaws,
}
use job_stream.Server.World.{LookupContract}
use job_stream.Examples.Memory.{Memory, Transaction, row_id, new_row, find_row, pool, bracketed}
use job_stream.Examples.Laws.{
  rows, pool-PoolLaws, pool-QueryLaws, find_row-matches, repeat_byte-IsByte,
}

abbrev staged : InsertApplicationParams → Transaction → Transaction
staged p tx = record {
  staged_rows = new_row p tx ∷ tx.staged_rows;
  staged_outbox = tx.staged_outbox;
  serial = tx.serial + 1;
}

query_row_in : Statement → List Value → Transaction → Result Error (List Value) × Transaction
query_row_in insert_application
      (text u ∷ text j ∷ text c ∷ text l ∷ int16 s ∷ int16 st ∷ timestamptz a ∷ text v ∷ []) tx =
    let p : InsertApplicationParams = record {
      user_id = u;
      job_title = j;
      company = c;
      url = l;
      source = s;
      status = st;
      applied_at = a;
      schema_version = v;
    } in
    (ok (columns (new_row p tx)), staged p tx)
query_row_in _ _ tx = (err (plain (codes "bad statement")), tx)

exec_in : Statement → List Value → Transaction → Option Error × Transaction
exec_in insert_outbox (uuid id ∷ text topic ∷ bytea payload ∷ []) tx = (
  none,
  record {
    staged_rows = tx.staged_rows;
    staged_outbox =
        record { aggregate_id = id; topic = topic; payload = payload } ∷ tx.staged_outbox;
    serial = tx.serial;
  },
)
exec_in _ _ tx = (some (plain (codes "bad statement")), tx)

found : Result Error Row → Result Error (List Value)
found (err e) = err e
found (ok row) = ok (columns row)

query_row : Statement → List Value → Memory → Result Error (List Value) × Memory
query_row get_application_by_id_and_user_id (uuid id ∷ text user_id ∷ []) w =
    (found (find_row id user_id w.tables.applications), w)
query_row _ _ w = (err (plain (codes "bad statement")), w)

abbrev driver : Driver Memory Transaction
driver = record {
  begin_tx = pool.begin_tx;
  commit = pool.commit;
  rollback = pool.rollback;
  query_row_in = query_row_in;
  exec_in = exec_in;
  query_row = query_row;
  scan_uuid = pool.scan_uuid;
}

-- What the INSERT does, for arguments that it takes.
inserts :
    (args : List Value) (tx : Transaction) (out : List Value)
    → (query_row_in insert_application args tx).0 ≡ ok out
    → let tx' = (query_row_in insert_application args tx).1 in
      (row : Row) × (out ≡ columns row)
      × AllKept args (inserted_columns row)
      × (tx'.staged_rows ≡ row ∷ tx.staged_rows)
      × (tx'.staged_outbox ≡ tx.staged_outbox)
      × (length row.id ≡ 16)
      × All IsByte row.id
unfolding query_row_in
inserts (text u ∷ text j ∷ text c ∷ text l ∷ int16 s ∷ int16 st ∷ timestamptz a ∷ text v ∷ []) tx
      out h =
    (
      _,
      cc,
      (refl, (refl, (refl, (refl, (refl, (refl, ((_, refl, λ known. refl), (refl, tt)))))))),
      refl,
      refl,
      refl,
      (omega arith, repeat_byte-IsByte 15 0 (omega arith)),
    )
inserts _ tx out h = cc

appends :
    (args : List Value) (tx : Transaction)
    → (exec_in insert_outbox args tx).0 ≡ none
    → let tx' = (exec_in insert_outbox args tx).1 in
      (o : InsertOutboxParams) × (args ≡ outbox_columns o)
      × (tx'.staged_rows ≡ tx.staged_rows)
      × (tx'.staged_outbox ≡ o ∷ tx.staged_outbox)
unfolding exec_in
appends (uuid id ∷ text topic ∷ bytea payload ∷ []) tx h =
    (record { aggregate_id = id; topic = topic; payload = payload }, refl, refl, refl)
appends _ tx h = cc

found-ok :
    (r : Result Error Row) (out : List Value)
    → found r ≡ ok out
    → (row : Row) × (r ≡ ok row) × (out ≡ columns row)
unfolding found
found-ok (err e) out h = cc
found-ok (ok row) out h = (row, refl, cc)

selects :
    (args : List Value) (w : Memory) (out : List Value)
    → (query_row get_application_by_id_and_user_id args w).0 ≡ ok out
    → (row : Row) × (out ≡ columns row) × (args ≡ uuid row.id ∷ text row.user_id ∷ [])
unfolding query_row
selects (uuid id ∷ text user_id ∷ []) w out h =
    let (row, there, came) = found-ok (find_row id user_id w.tables.applications) out h in
    let (same_id, same_user) = find_row-matches id user_id row w.tables.applications there in
    (row, came, rw (same_id, same_user) refl)
selects _ w out h = cc

driver-DriverLaws :
    DriverLaws driver (λ w. w.tables) (λ tx. tx.staged_rows) (λ tx. tx.staged_outbox)
driver-DriverLaws = record {
  begin_tables = pool-PoolLaws.begin_tables;
  begin_rows = pool-PoolLaws.begin_rows;
  begin_outbox = pool-PoolLaws.begin_outbox;
  inserts = inserts;
  appends = appends;
  selects = selects;
  commit_rows = pool-PoolLaws.commit_rows;
  commit_failed = pool-PoolLaws.commit_failed;
  rollback_tables = pool-PoolLaws.rollback_tables;
}

queries-PoolLaws_example :
    PoolLaws (queries driver) (λ w. w.tables) (λ tx. tx.staged_rows) (λ tx. tx.staged_outbox)
    × SelectLaws (queries driver)
queries-PoolLaws_example =
    queries-PoolLaws driver (λ w. w.tables) (λ tx. tx.staged_rows) (λ tx. tx.staged_outbox)
      driver-DriverLaws

postgres_repo-LookupContract_example :
    LookupContract (postgres_repo bracketed pool) rows (λ w. IsKeyed w.tables)
postgres_repo-LookupContract_example =
    postgres_repo-LookupContract bracketed pool (λ w. w.tables) pool-QueryLaws

unhex-uuid_to_string_example : unhex (undash (uuid_to_string (row_id 9))) ≡ row_id 9
unhex-uuid_to_string_example = unhex-uuid_to_string (row_id 9) refl (omega arith)

to_int16_bounds_example :
    IsInt16 (to_int16 (pos 40000))
    × (low_bits (to_int16 (pos 40000)) ≡ low_bits (pos 40000))
    × ((m : ℤ) → IsInt16 m → low_bits m ≡ low_bits (pos 40000) → m ≡ to_int16 (pos 40000))
    × ((to_int16 (pos 40000) ≡ pos 40000) ↔ IsInt16 (pos 40000))
to_int16_bounds_example = to_int16_bounds (pos 40000)

abbrev getenv : Text → Text
getenv k = decimal_ℤ (negsuc 41)

env_int-decimal_ℤ_example : env_int getenv (codes "HTTP_PORT") (pos 8081) ≡ negsuc 41
env_int-decimal_ℤ_example =
    env_int-decimal_ℤ getenv (codes "HTTP_PORT") (pos 8081) (negsuc 41) (lower (omega arith)) refl
