-- ===== src/Repo/Queries/Columns.antt =====
-- The generated queries against the columns of the tables.
use job_stream.Base.{
  ◌≡◌, ◌⊎◌, refl, ap, sym, subst, ◌∙◌, none, some, List, [], ◌∷◌, All, length, Result, ok, err,
}
use job_stream.Proto.{Time}
use job_stream.Errors.{Error}
use job_stream.Dedup.Keys.{IsByte}
use job_stream.Repo.Postgres.{Row, InsertApplicationParams, InsertOutboxParams}
use job_stream.Repo.Timestamps.{IsTimestamp, to_micros}
use job_stream.Repo.Postgres.Atomic.{Tables, published, Stored, PoolLaws}
use job_stream.Repo.Postgres.Rows.{SelectLaws}
use job_stream.Repo.Queries.{
  Value, uuid, text, int16, timestamptz, bytea, insert_application,
  get_application_by_id_and_user_id, insert_outbox, scan, columns, scanned, Driver, queries,
}

-- The columns that INSERT INTO applications lists, in its order.
abbrev pub inserted_columns : Row → List Value
inserted_columns r =
    text r.user_id
    ∷ text r.job_title
    ∷ text r.company
    ∷ text r.url
    ∷ int16 r.source
    ∷ int16 r.status
    ∷ timestamptz r.applied_at
    ∷ text r.schema_version
    ∷ []

-- The columns that INSERT INTO outbox lists.
abbrev pub outbox_columns : InsertOutboxParams → List Value
outbox_columns o = uuid o.aggregate_id ∷ text o.topic ∷ bytea o.payload ∷ []

-- What a column keeps of a value: the value itself, but of a time its whole microseconds.
abbrev pub Keeps : Value → Value → Type 0
Keeps (timestamptz t) v = (t' : Time) × (v ≡ timestamptz t') × (IsTimestamp t → t' ≡ to_micros t)
Keeps (uuid id) v = v ≡ uuid id
Keeps (text s) v = v ≡ text s
Keeps (int16 n) v = v ≡ int16 n
Keeps (bytea b) v = v ≡ bytea b

abbrev pub AllKept : List Value → List Value → Type 0
AllKept [] [] = Unit
AllKept (v ∷ vs) (c ∷ cs) = Keeps v c × AllKept vs cs
AllKept _ _ = ⊥

-- Documented behaviour of the statements and of transactions: an INSERT stages one row whose
-- listed columns keep the values of the arguments, in this order, and RETURNING gives its
-- columns; SELECT gives the columns of a row that has the id and the user of the arguments; a
-- commit that succeeds publishes what was staged, one that fails all of it or nothing, and a
-- rollback nothing.
pub record DriverLaws {W Tx : Type 0} (d : Driver W Tx) (tables : W → Tables)
    (staged_rows : Tx → List Row) (staged_outbox : Tx → List InsertOutboxParams) : Type 0 where
  pub begin_tables : (w : W) → tables (d.begin_tx w).1 ≡ tables w
  pub begin_rows : (w : W) (tx : Tx) → (d.begin_tx w).0 ≡ ok tx → staged_rows tx ≡ []
  pub begin_outbox : (w : W) (tx : Tx) → (d.begin_tx w).0 ≡ ok tx → staged_outbox tx ≡ []
  pub inserts :
      (args : List Value) (tx : Tx) (out : List Value)
      → (d.query_row_in insert_application args tx).0 ≡ ok out
      → let tx' = (d.query_row_in insert_application args tx).1 in
        (row : Row) × (out ≡ columns row)
        × AllKept args (inserted_columns row)
        × (staged_rows tx' ≡ row ∷ staged_rows tx)
        × (staged_outbox tx' ≡ staged_outbox tx)
        × (length row.id ≡ 16)
        × All IsByte row.id
  pub appends :
      (args : List Value) (tx : Tx)
      → (d.exec_in insert_outbox args tx).0 ≡ none
      → let tx' = (d.exec_in insert_outbox args tx).1 in
        (o : InsertOutboxParams) × (args ≡ outbox_columns o)
        × (staged_rows tx' ≡ staged_rows tx)
        × (staged_outbox tx' ≡ o ∷ staged_outbox tx)
  pub selects :
      (args : List Value) (w : W) (out : List Value)
      → (d.query_row get_application_by_id_and_user_id args w).0 ≡ ok out
      → (row : Row) × (out ≡ columns row) × (args ≡ uuid row.id ∷ text row.user_id ∷ [])
  pub commit_rows :
      (tx : Tx) (w : W)
      → (d.commit tx w).0 ≡ none
      → tables (d.commit tx w).1 ≡ published (staged_rows tx) (staged_outbox tx) (tables w)
  pub commit_failed :
      (tx : Tx) (w : W) (e : Error)
      → (d.commit tx w).0 ≡ some e
      → (tables (d.commit tx w).1 ≡ tables w)
        ⊎ (tables (d.commit tx w).1 ≡ published (staged_rows tx) (staged_outbox tx) (tables w))
  pub rollback_tables : (tx : Tx) (w : W) → tables (d.rollback tx w) ≡ tables w

-- A scan that succeeds is one of columns that came.
scanned-ok :
    {W : Type 0} (answer : Result Error (List Value) × W) (row : Row)
    → (scanned answer).0 ≡ ok row
    → (out : List Value) × (answer.0 ≡ ok out) × (scan out ≡ ok row)
unfolding scanned
scanned-ok (err e, w) row h = cc
scanned-ok (ok out, w) row h = (out, refl, h)

scanned-state :
    {W : Type 0} (answer : Result Error (List Value) × W) → (scanned answer).1 ≡ answer.1
unfolding scanned
scanned-state (err e, w) = refl
scanned-state (ok out, w) = refl

scan-columns :
    (out : List Value) (row row' : Row) → out ≡ columns row → scan out ≡ ok row' → row ≡ row'
unfolding scan
scan-columns out row row' e h = cc (rw e at h)

inserted-Stored :
    (p : InsertApplicationParams) (row : Row)
    → AllKept
        (text p.user_id
          ∷ text p.job_title
          ∷ text p.company
          ∷ text p.url
          ∷ int16 p.source
          ∷ int16 p.status
          ∷ timestamptz p.applied_at
          ∷ text p.schema_version
          ∷ [])
        (inserted_columns row)
    → length row.id ≡ 16
    → All IsByte row.id
    → Stored p row
inserted-Stored p row (u, (j, (c, (l, (s, (st, ((t, at, cut), (v, _)))))))) width bytes = record {
  user_id = cc;
  job_title = cc;
  company = cc;
  url = cc;
  source = cc;
  status = cc;
  applied_at = λ known. let same : row.applied_at ≡ t = cc in same ∙ cut known;
  schema_version = cc;
  id = width;
  id_bytes = bytes;
}

outbox_columns_inj : (o o' : InsertOutboxParams) → outbox_columns o ≡ outbox_columns o' → o ≡ o'
outbox_columns_inj o o' e =
    let id : o.aggregate_id ≡ o'.aggregate_id = cc in
    let topic : o.topic ≡ o'.topic = cc in
    let payload : o.payload ≡ o'.payload = cc in
    λ i. record { aggregate_id = id i; topic = topic i; payload = payload i }

module _ {W Tx : Type 0} (d : Driver W Tx) (tables : W → Tables) (staged_rows : Tx → List Row)
    (staged_outbox : Tx → List InsertOutboxParams)
    (laws : DriverLaws d tables staged_rows staged_outbox) where
  -- Over a driver that runs the statements as documented, the generated queries keep the laws that
  -- the repository relies on: what InsertApplication returns is the staged row, each argument in
  -- its own column, a time of the years 1 to 9999 cut to microseconds; InsertOutbox stages its arguments; and a row that the SELECT by id and user
  -- returns has both.
  pub queries-PoolLaws :
      PoolLaws (queries d) tables staged_rows staged_outbox × SelectLaws (queries d)
  unfolding queries
  queries-PoolLaws = (
    record {
      begin_tables = laws.begin_tables;
      begin_rows = laws.begin_rows;
      begin_outbox = laws.begin_outbox;
      insert_rows = λ p tx row h.
          let (out, came, read) = scanned-ok _ row h in
          let (r, is, args, rows, events, width, bytes) = laws.inserts _ tx out came in
          let it = scan-columns out r row is read in
          (
            ap staged_rows (scanned-state _) ∙ rows ∙ ap (λ x. x ∷ staged_rows tx) it,
            ap staged_outbox (scanned-state _) ∙ events,
            subst (Stored p) it (inserted-Stored p r args width bytes),
          );
      outbox_rows = λ o tx h.
          let (o', args, rows, events) = laws.appends _ tx h in
          (rows, events ∙ ap (λ x. x ∷ staged_outbox tx) (outbox_columns_inj o' o (sym args)));
      commit_rows = laws.commit_rows;
      commit_failed = laws.commit_failed;
      rollback_tables = laws.rollback_tables;
    },
    record {
      matches = λ uid user_id w row h.
          let (out, came, read) = scanned-ok _ row h in
          let (r, is, args) = laws.selects _ w out came in
          let it = scan-columns out r row is read in
          let ids : r.id ≡ uid = cc in
          let users : r.user_id ≡ user_id = cc in
          (ap (λ (x : Row). x.id) (sym it) ∙ ids, ap (λ (x : Row). x.user_id) (sym it) ∙ users);
    },
  )
