-- ===== src/Examples/Laws.antt =====
-- The stores in memory behave as the services expect of Redis, of Postgres and of SHA-256.
use job_stream.Base.{
  ℕ, zero, suc, ◌%◌, ◌<◌, ◌≡◌, refl, ap, subst, sym, ◌∙◌, inl, inr, List, [], ◌∷◌, Text, arith,
  text_eq, text_eq_iff, text_eq_refl, Bool-cases, Result, ok, err, All, length, Contains, get_elem?,
  some, true, false, ◌==◌, ==_iff,
}
use job_stream.Errors.{Error}
use job_stream.Dedup.{key, redis_deduper}
use job_stream.Dedup.Keys.{IsByte, IsDigest}
use job_stream.Dedup.Contract.{Entry, RedisLaws, entry_of, redis_deduper-DeduperContract}
use job_stream.Repo.{ApplicationRecord, InsertParams, PayloadBuilder}
use job_stream.Repo.Postgres.{
  Row, InsertApplicationParams, after_begin, after_insert, after_payload, after_outbox,
  after_commit, close_tx, insert_with_outbox, postgres_repo,
}
use job_stream.Repo.Postgres.Atomic.{Stored, PoolLaws}
use job_stream.Repo.Postgres.Rows.{SelectLaws}
use job_stream.Repo.Postgres.Lookup.{QueryLaws}
use job_stream.Repo.Uuid.{uuid_to_string, length-uuid_to_string}
use job_stream.Repo.Uuid.RoundTrip.{unhex-uuid_to_string}
use job_stream.Repo.Postgres.Contract.{records, CommitLaws, postgres_repo-RepoContract}
use job_stream.Server.World.{Apart, WorldLaws}
use job_stream.Examples.Memory.{
  ascii_lower, sum, repeat_byte, checksum, Memory, Transaction, client, find_row, pool, bracketed,
  services, new_row,
}

length-repeat_byte : (n b : ℕ) → length (repeat_byte n b) ≡ n
length-repeat_byte zero b = refl
length-repeat_byte (suc n) b = ap suc (length-repeat_byte n b)

pub repeat_byte-IsByte : (n b : ℕ) → b < 256 → All IsByte (repeat_byte n b)
repeat_byte-IsByte zero b h = tt
repeat_byte-IsByte (suc n) b h = (h, repeat_byte-IsByte n b h)

pub checksum-IsDigest : IsDigest checksum
checksum-IsDigest = record {
  width = λ t. length-repeat_byte 32 (sum t % 256);
  bytes = λ t. repeat_byte-IsByte 32 (sum t % 256) (omega arith);
}

pub client-RedisLaws : RedisLaws client (λ w. w.redis)
client-RedisLaws = record {
  get_reply = λ k w. refl;
  get_live = λ k w j. refl;
  set_nx_reply = λ k v ttl w. refl;
  set_nx_live = λ k v ttl w j. refl;
  set_live = λ k v ttl w j. refl;
  del_live = λ k w j. refl;
}

new_row-Stored : (p : InsertApplicationParams) (tx : Transaction) → Stored p (new_row p tx)
new_row-Stored p tx = record {
  user_id = refl;
  job_title = refl;
  company = refl;
  url = refl;
  source = refl;
  status = refl;
  applied_at = λ h. refl;
  schema_version = refl;
  id = refl;
  id_bytes = (omega arith, repeat_byte-IsByte 15 0 (omega arith));
}

pub pool-PoolLaws : PoolLaws pool (λ w. w.tables) (λ tx. tx.staged_rows) (λ tx. tx.staged_outbox)
pool-PoolLaws = record {
  begin_tables = λ w. refl;
  begin_rows = λ w tx h. cc;
  begin_outbox = λ w tx h. cc;
  insert_rows = λ p tx row h.
      let it : new_row p tx ≡ row = cc in
      (ap (λ r. r ∷ tx.staged_rows) it, refl, subst (Stored p) it (new_row-Stored p tx));
  outbox_rows = λ o tx h. (refl, refl);
  commit_rows = λ tx w h. refl;
  commit_failed = λ tx w e h. cc;
  rollback_tables = λ tx w. refl;
}

pub pool-CommitLaws : CommitLaws pool (λ w. w.tables)
pool-CommitLaws = record { refused = λ tx w e h. cc }

pub find_row-matches :
    (uid : List ℕ) (user_id : Text) (row : Row) (rows : List Row)
    → find_row uid user_id rows ≡ ok row
    → (row.id ≡ uid) × (row.user_id ≡ user_id)
find_row-matches uid user_id row [] h = cc
find_row-matches uid user_id row (r ∷ rows) h = elim (Bool-cases (text_eq r.id uid)) [
  | inl same ↦ elim (Bool-cases (text_eq r.user_id user_id)) [
    | inl same' ↦
        let it : r ≡ row = cc (rw (same, same') at h) in
        (
          ap (λ (x : Row). x.id) (sym it) ∙ (text_eq_iff r.id uid).0 same,
          ap (λ (x : Row). x.user_id) (sym it) ∙ (text_eq_iff r.user_id user_id).0 same',
        )
    | inr other ↦ find_row-matches uid user_id row rows (rw (same, other) at h)
  ]
  | inr other ↦ find_row-matches uid user_id row rows (rw other at h)
]

pub pool-SelectLaws : SelectLaws pool
pool-SelectLaws = record {
  matches = λ uid user_id w row h. find_row-matches uid user_id row w.tables.applications h;
}

find_row-found :
    (row : Row) (rows : List Row)
    → ((r r' : Row) → Contains rows r → Contains rows r' → r.id ≡ r'.id → r ≡ r')
    → Contains rows row
    → find_row row.id row.user_id rows ≡ ok row
find_row-found row [] unique (i, at) = cc
find_row-found row (r ∷ rows) unique (i, at) = elim (Bool-cases (text_eq r.id row.id)) [
  | inl same ↦
      let it : r ≡ row = unique r row (0, refl) (i, at) ((text_eq_iff r.id row.id).0 same) in
      rw (it, text_eq_refl row.id, text_eq_refl row.user_id) refl
  | inr other ↦ rw other (
      find_row-found row rows (λ x y p q. unique x y (suc p.0, p.1) (suc q.0, q.1))
        (later i at other))
]
  where
    later :
        (n : ℕ)
        → get_elem? (r ∷ rows) n ≡ some row
        → text_eq r.id row.id ≡ false
        → Contains rows row
    later zero e ne =
        let it : r ≡ row = cc in
        absurd (cc (sym ne ∙ ap (λ (x : Row). text_eq x.id row.id) it ∙ text_eq_refl row.id))
    later (suc n) e ne = (n, e)

pub pool-QueryLaws : QueryLaws pool (λ w. w.tables)
pool-QueryLaws = record {
  finds = λ row w keyed there. inl (find_row-found row w.tables.applications keyed.unique there);
  scans = λ b width bytes.
      let long : (length (uuid_to_string b) == 36) ≡ true =
        (==_iff (length (uuid_to_string b)) 36).1 (length-uuid_to_string b width) in
      rw long (ap ok (unhex-uuid_to_string b width bytes));
}

-- What Redis holds, read as entries.
abbrev pub entries : Memory → Text → Entry
entries w j = entry_of (w.redis j)

abbrev pub rows : Memory → List ApplicationRecord
rows w = records w.tables

abbrev pub key_of : Text → Text → Text → Text
key_of = key ascii_lower checksum

payload-redis :
    (rec : ApplicationRecord) (id : List ℕ) (topic : Text) (built : Result Error (List ℕ))
    (tx : Transaction) (w : Memory)
    → (close_tx bracketed pool (after_payload bracketed pool rec id topic built tx w)).1.redis
      ≡ w.redis
unfolding close_tx after_payload after_outbox after_commit
payload-redis rec id topic (ok payload) tx w = refl
payload-redis rec id topic (err e) tx w = refl

insert-redis :
    (p : InsertParams) (topic : Text) (build : PayloadBuilder) (w : Memory)
    → (insert_with_outbox bracketed pool p topic build w).1.redis ≡ w.redis
unfolding insert_with_outbox after_begin after_insert
insert-redis p topic build w = payload-redis _ _ topic _ _ w

pub services-Apart : Apart services entries rows
unfolding redis_deduper postgres_repo
services-Apart = record {
  check_rows = λ u c t w. refl;
  claim_rows = λ u c t w. refl;
  set_rows = λ u c t id w. refl;
  release_rows = λ u c t w. refl;
  insert_entries = λ p topic build w j. ap (λ r. entry_of (r j)) (insert-redis p topic build w);
}

pub services-WorldLaws : WorldLaws services key_of entries rows
services-WorldLaws = record {
  dedup =
      redis_deduper-DeduperContract ascii_lower checksum client 60 (λ w. w.redis) client-RedisLaws;
  store =
      postgres_repo-RepoContract bracketed pool (λ w. w.tables) (λ tx. tx.staged_rows)
        (λ tx. tx.staged_outbox) pool-PoolLaws pool-CommitLaws;
  apart = services-Apart;
}
