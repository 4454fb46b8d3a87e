-- ===== src/Repo/Postgres/Contract.antt =====
-- The Postgres repository as an instance of what the server assumes of a repository.
use job_stream.Repo.Postgres.Rows.{to_int16_of_IsInt16}
use job_stream.Base.{
  ◌≡◌, inl, inr, subst, ap, sym, ◌∙◌, List, ◌∷◌, map, Text, some, Result, ok, err,
}
use job_stream.Errors.{Error}
use job_stream.Repo.{ApplicationRecord, InsertParams, PayloadBuilder}
use job_stream.Repo.Uuid.{uuid_to_string-ne-sentinel}
use job_stream.Repo.Postgres.{Row, InsertOutboxParams, Pool, from_row, row_params, postgres_repo}
use job_stream.Repo.Postgres.Atomic.{Tables, Stored, PoolLaws, Atomic, insert_with_outbox-Atomic}
use job_stream.Server.World.{Inserted, Holds, RepoContract}

-- The records of the committed applications.
abbrev pub records : Tables → List ApplicationRecord
records t = map from_row t.applications

Stored-Holds : (p : InsertParams) (row : Row) → Stored (row_params p) row → Holds p (from_row row)
unfolding from_row row_params
Stored-Holds p row st = record {
  user_id = st.user_id;
  company = st.company;
  job_title = st.job_title;
  url = st.url;
  source = λ h. st.source ∙ to_int16_of_IsInt16 p.source h;
  status = λ h. st.status ∙ to_int16_of_IsInt16 p.status h;
  applied_at = st.applied_at;
  schema_version = st.schema_version;
}

-- No answer of a commit is lost: one that fails has published nothing.
pub record CommitLaws {W Tx : Type 0} (pool : Pool W Tx) (tables : W → Tables) : Type 0 where
  pub refused :
      (tx : Tx) (w : W) (e : Error)
      → (pool.commit tx w).0 ≡ some e
      → tables (pool.commit tx w).1 ≡ tables w

Atomic-Inserted :
    {W Tx : Type 0} (pool : Pool W Tx) (tables : W → Tables) (commits : CommitLaws pool tables)
    (p : InsertParams) (topic : Text) (build : PayloadBuilder) (before after : Tables)
    (r : Result Error ApplicationRecord)
    → Atomic pool tables p topic build before after r
    → Inserted p (records before) (records after) r
unfolding from_row row_params
Atomic-Inserted pool tables commits p topic build before after (err e) (inl same) = ap records same
Atomic-Inserted pool tables commits p topic build before after (err e) (inr lost) = ap records (
    sym lost.to_after
    ∙ commits.refused lost.tx lost.world lost.cause lost.refused
    ∙ lost.from_before)
Atomic-Inserted pool tables commits p topic build before after (ok rec) both = (
  ap records both.tables_after ∙ ap (λ r. r ∷ records before) (sym both.returned),
  subst (Holds p) (sym both.returned) (Stored-Holds p both.row both.stored),
  λ e.
      uuid_to_string-ne-sentinel both.row.id both.stored.id
        (sym (ap (λ (r : ApplicationRecord). r.id) both.returned) ∙ e),
)

module _ {W Tx : Type 0} (quoted : Text → Text) (pool : Pool W Tx) (tables : W → Tables)
    (staged_rows : Tx → List Row) (staged_outbox : Tx → List InsertOutboxParams)
    (laws : PoolLaws pool tables staged_rows staged_outbox) (commits : CommitLaws pool tables) where
  -- Over a pool that keeps the laws of transactions, and loses no answer of a commit: an insert
  -- that succeeds adds one record, with the submission's values, a time of the years 1 to 9999 cut
  -- to microseconds, and an id that is not the deduper's sentinel; one that fails adds none.
  pub postgres_repo-RepoContract :
      RepoContract (postgres_repo quoted pool) (λ w. records (tables w))
  unfolding postgres_repo
  postgres_repo-RepoContract = record {
    inserted = λ p topic build w. Atomic-Inserted pool tables commits p topic build (tables w) _ _ (
        insert_with_outbox-Atomic quoted pool tables staged_rows staged_outbox laws p topic build
          w);
  }
