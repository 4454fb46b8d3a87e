-- ===== src/Repo/Postgres/Atomic.antt =====
-- The dual write of `insert_with_outbox`: the tables before and after it, for each result.
use job_stream.Base.{
  ℕ, ◌≡◌, ◌⊎◌, inl, inr, sym, codes, refl, ap, ◌∙◌, Option, none, some, List, [], ◌∷◌, All, ◌++◌,
  Text, Result, ok, err, length,
}
use job_stream.Errors.{Error, wrapped}
use job_stream.Repo.Timestamps.{IsTimestamp, to_micros}
use job_stream.Dedup.Keys.{IsByte}
use job_stream.Repo.{ApplicationRecord, InsertParams, PayloadBuilder}
use job_stream.Repo.Postgres.{
  Row, InsertApplicationParams, InsertOutboxParams, Pool, from_row, row_params, after_commit,
  after_outbox, after_payload, after_insert, close_tx, after_begin, insert_with_outbox,
}

-- The committed rows of the two tables, the newest first.
pub record Tables : Type 0 where
  pub applications : List Row
  pub outbox : List InsertOutboxParams

-- The tables with these rows and events on top.
abbrev pub published : List Row → List InsertOutboxParams → Tables → Tables
published rows events t = record {
  applications = rows ++ t.applications;
  outbox = events ++ t.outbox;
}

-- The row holds the values that were inserted, the time in whole microseconds, and an id of sixteen
-- bytes.
pub record Stored (p : InsertApplicationParams) (row : Row) : Type 0 where
  pub user_id : row.user_id ≡ p.user_id
  pub job_title : row.job_title ≡ p.job_title
  pub company : row.company ≡ p.company
  pub url : row.url ≡ p.url
  pub source : row.source ≡ p.source
  pub status : row.status ≡ p.status
  pub applied_at : IsTimestamp p.applied_at → row.applied_at ≡ to_micros p.applied_at
  pub schema_version : row.schema_version ≡ p.schema_version
  pub id : length row.id ≡ 16
  pub id_bytes : All IsByte row.id

-- Documented behaviour of transactions: statements act on the open transaction alone, a commit
-- that succeeds publishes what it staged, a rollback publishes nothing, and a rollback after the
-- commit changes nothing either. A commit that fails has published all or nothing: its answer may
-- have been lost.
pub record PoolLaws {W Tx : Type 0} (pool : Pool W Tx) (tables : W → Tables)
    (staged_rows : Tx → List Row) (staged_outbox : Tx → List InsertOutboxParams) : Type 0 where
  pub begin_tables : (w : W) → tables (pool.begin_tx w).1 ≡ tables w
  pub begin_rows : (w : W) (tx : Tx) → (pool.begin_tx w).0 ≡ ok tx → staged_rows tx ≡ []
  pub begin_outbox : (w : W) (tx : Tx) → (pool.begin_tx w).0 ≡ ok tx → staged_outbox tx ≡ []
  pub insert_rows :
      (p : InsertApplicationParams) (tx : Tx) (row : Row)
      → (pool.insert_application p tx).0 ≡ ok row
      → (staged_rows (pool.insert_application p tx).1 ≡ row ∷ staged_rows tx)
        × (staged_outbox (pool.insert_application p tx).1 ≡ staged_outbox tx)
        × Stored p row
  pub outbox_rows :
      (o : InsertOutboxParams) (tx : Tx)
      → (pool.insert_outbox o tx).0 ≡ none
      → (staged_rows (pool.insert_outbox o tx).1 ≡ staged_rows tx)
        × (staged_outbox (pool.insert_outbox o tx).1 ≡ o ∷ staged_outbox tx)
  pub commit_rows :
      (tx : Tx) (w : W)
      → (pool.commit tx w).0 ≡ none
      → tables (pool.commit tx w).1 ≡ published (staged_rows tx) (staged_outbox tx) (tables w)
  pub commit_failed :
      (tx : Tx) (w : W) (e : Error)
      → (pool.commit tx w).0 ≡ some e
      → (tables (pool.commit tx w).1 ≡ tables w)
        ⊎ (tables (pool.commit tx w).1 ≡ published (staged_rows tx) (staged_outbox tx) (tables w))
  pub rollback_tables : (tx : Tx) (w : W) → tables (pool.rollback tx w) ≡ tables w

-- One application row and the outbox row that points at it, on top of the old tables.
pub record BothWritten (p : InsertParams) (topic : Text) (build : PayloadBuilder)
    (rec : ApplicationRecord) (before after : Tables) : Type 0 where
  pub row : Row
  pub event : InsertOutboxParams
  pub tables_after : after ≡ published (row ∷ []) (event ∷ []) before
  pub stored : Stored (row_params p) row
  pub returned : rec ≡ from_row row
  pub points_at : event.aggregate_id ≡ row.id
  pub on_topic : event.topic ≡ topic
  pub carries : build rec ≡ ok event.payload

-- The answer of a commit was lost: it is an error, and yet both rows are there.
pub record Unanswered {W Tx : Type 0} (pool : Pool W Tx) (tables : W → Tables) (p : InsertParams)
    (topic : Text) (build : PayloadBuilder) (e : Error) (before after : Tables) : Type 0 where
  pub tx : Tx
  pub world : W
  pub cause : Error
  pub refused : (pool.commit tx world).0 ≡ some cause
  pub from_before : tables world ≡ before
  pub to_after : tables (pool.commit tx world).1 ≡ after
  pub reported : e ≡ wrapped (codes "commit tx: ") cause []
  pub rec : ApplicationRecord
  pub written : BothWritten p topic build rec before after

-- What a result says about the tables before and after the call.
abbrev pub Atomic :
    {W Tx : Type 0}
    → Pool W Tx
    → (W → Tables)
    → InsertParams
    → Text
    → PayloadBuilder
    → Tables
    → Tables
    → Result Error ApplicationRecord
    → Type 0
Atomic pool tables p topic build before after (ok rec) = BothWritten p topic build rec before after
Atomic pool tables p topic build before after (err e) =
    (after ≡ before) ⊎ Unanswered pool tables p topic build e before after

module _ {W Tx : Type 0} (quoted : Text → Text) (pool : Pool W Tx) (tables : W → Tables)
    (staged_rows : Tx → List Row) (staged_outbox : Tx → List InsertOutboxParams)
    (laws : PoolLaws pool tables staged_rows staged_outbox) (p : InsertParams) (topic : Text)
    (build : PayloadBuilder) where
  after_commit-Atomic :
      (rec : ApplicationRecord) (tx : Tx) (v : W) (answer : Option Error × W)
      → pool.commit tx v ≡ answer
      → ((after : Tables)
          → after ≡ published (staged_rows tx) (staged_outbox tx) (tables v)
          → BothWritten p topic build rec (tables v) after)
      → let s = after_commit quoted pool rec tx answer in
        Atomic pool tables p topic build (tables v) (tables (pool.rollback s.1 s.2)) s.0
  unfolding after_commit
  after_commit-Atomic rec tx v (none, w) asked written =
      let world = ap (λ (r : Option Error × W). tables r.1) (sym asked) in
      written _ (
        laws.rollback_tables tx w
        ∙ world
        ∙ laws.commit_rows tx v (ap (λ (r : Option Error × W). r.0) asked))
  after_commit-Atomic rec tx v (some e, w) asked written =
      let world = ap (λ (r : Option Error × W). tables r.1) (sym asked) in
      let refused : (pool.commit tx v).0 ≡ some e = ap (λ (r : Option Error × W). r.0) asked in
      elim (laws.commit_failed tx v e refused) [
        | inl nothing ↦ inl (laws.rollback_tables tx w ∙ world ∙ nothing)
        | inr both ↦ inr (record {
          tx = tx;
          world = v;
          cause = e;
          refused = refused;
          from_before = refl;
          to_after = sym (laws.rollback_tables tx w ∙ world);
          reported = refl;
          rec = rec;
          written = written _ (laws.rollback_tables tx w ∙ world ∙ both);
        })
      ]

  after_outbox-Atomic :
      (rec : ApplicationRecord) (row : Row) (event : InsertOutboxParams)
      (answer : Option Error × Tx) (w : W)
      → Stored (row_params p) row
      → rec ≡ from_row row
      → event.aggregate_id ≡ row.id
      → event.topic ≡ topic
      → build rec ≡ ok event.payload
      → (answer.0 ≡ none
          → (staged_rows answer.1 ≡ row ∷ []) × (staged_outbox answer.1 ≡ event ∷ []))
      → let s = after_outbox quoted pool rec answer w in
        Atomic pool tables p topic build (tables w) (tables (pool.rollback s.1 s.2)) s.0
  unfolding after_outbox
  after_outbox-Atomic rec row event (some e, tx) w st r q t c staged =
      inl (laws.rollback_tables tx w)
  after_outbox-Atomic rec row event (none, tx) w st r q t c staged =
      let (rows, events) = staged refl in
      after_commit-Atomic rec tx w (pool.commit tx w) refl λ after is. record {
        row = row;
        event = event;
        tables_after = rw (rows, events) at is;
        stored = st;
        returned = r;
        points_at = q;
        on_topic = t;
        carries = c;
      }

  after_payload-Atomic :
      (row : Row) (payload : Result Error (List ℕ)) (tx : Tx) (w : W)
      → Stored (row_params p) row
      → build (from_row row) ≡ payload
      → staged_rows tx ≡ row ∷ []
      → staged_outbox tx ≡ []
      → let s = after_payload quoted pool (from_row row) row.id topic payload tx w in
        Atomic pool tables p topic build (tables w) (tables (pool.rollback s.1 s.2)) s.0
  unfolding after_payload
  after_payload-Atomic row (err e) tx w st built rows events = inl (laws.rollback_tables tx w)
  after_payload-Atomic row (ok payload) tx w st built rows events =
      let event : InsertOutboxParams = record {
        aggregate_id = row.id;
        topic = topic;
        payload = payload;
      } in
      after_outbox-Atomic (from_row row) row event (pool.insert_outbox event tx) w st refl refl refl
        built
        λ done.
          let (kept, added) = laws.outbox_rows event tx done in
          (kept ∙ rows, added ∙ ap (◌∷◌ event) events)

  after_insert-Atomic :
      (answer : Result Error Row × Tx) (w : W)
      → ((row : Row)
          → answer.0 ≡ ok row
          → (staged_rows answer.1 ≡ row ∷ [])
            × (staged_outbox answer.1 ≡ [])
            × Stored (row_params p) row)
      → let s = after_insert quoted pool topic build answer w in
        Atomic pool tables p topic build (tables w) (tables (pool.rollback s.1 s.2)) s.0
  unfolding after_insert
  after_insert-Atomic (err e, tx) w staged = inl (laws.rollback_tables tx w)
  after_insert-Atomic (ok row, tx) w staged =
      let (rows, events, st) = staged row refl in
      after_payload-Atomic row (build (from_row row)) tx w st refl rows events

  after_begin-Atomic :
      (before : Tables) (answer : Result Error Tx × W)
      → tables answer.1 ≡ before
      → ((tx : Tx) → answer.0 ≡ ok tx → (staged_rows tx ≡ []) × (staged_outbox tx ≡ []))
      → let s = after_begin quoted pool p topic build answer in
        Atomic pool tables p topic build before (tables s.1) s.0
  unfolding after_begin close_tx
  after_begin-Atomic before (err e, w) same empty = inl same
  after_begin-Atomic before (ok tx, w) same empty =
      let (no_rows, no_events) = empty tx refl in
      rw (← same) (
        after_insert-Atomic (pool.insert_application (row_params p) tx) w λ row done.
          let (added, kept, st) = laws.insert_rows (row_params p) tx row done in
          (added ∙ ap (◌∷◌ row) no_rows, kept ∙ no_events, st))

  -- Over a pool that keeps the laws of transactions: a record comes back only with both rows
  -- committed, the application holding the values that were given, a time of the years 1 to 9999
  -- cut to microseconds, the event on the topic pointing at the application and carrying what `build` made of the
  -- record; an error, that of `build` included, leaves both tables as they were, unless it is that
  -- of a commit whose answer was lost, which has written both rows just so.
  pub insert_with_outbox-Atomic :
      (w : W)
      → let s = insert_with_outbox quoted pool p topic build w in
        Atomic pool tables p topic build (tables w) (tables s.1) s.0
  unfolding insert_with_outbox
  insert_with_outbox-Atomic w =
      after_begin-Atomic (tables w) (pool.begin_tx w) (laws.begin_tables w)
        λ tx begun. (laws.begin_rows w tx begun, laws.begin_outbox w tx begun)
