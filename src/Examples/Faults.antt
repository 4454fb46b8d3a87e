-- ===== src/Examples/Faults.antt =====
-- Stores in memory that fail: a pool that opens no transaction, a Redis that answers nothing, and
-- one that is out of reach until the key is to be deleted.
use job_stream.Base.{refl, some, codes, err, false, pos}
use job_stream.Errors.{Error, plain}
use job_stream.Dedup.{Redis, Deduper, failed, redis_deduper}
use job_stream.Dedup.Contract.{redis_deduper-DeduperContract}
use job_stream.Repo.Postgres.{Pool, after_begin, insert_with_outbox, postgres_repo}
use job_stream.Repo.Postgres.Atomic.{PoolLaws}
use job_stream.Repo.Postgres.Contract.{postgres_repo-RepoContract}
use job_stream.Server.Calls.{Services}
use job_stream.Server.Lookup.{over_postgres}
use job_stream.Server.World.{Apart, WorldLaws}
use job_stream.Examples.Memory.{ascii_lower, checksum, Memory, Transaction, client, pool, bracketed}
use job_stream.Examples.Laws.{
  client-RedisLaws, pool-PoolLaws, pool-CommitLaws, entries, rows, key_of,
}

abbrev pub down : Error
down = plain (codes "connection refused")

abbrev pub closed_pool : Pool Memory Transaction
closed_pool = record pool { begin_tx = λ w. (err down, w) }

closed_pool-PoolLaws :
    PoolLaws closed_pool (λ w. w.tables) (λ tx. tx.staged_rows) (λ tx. tx.staged_outbox)
closed_pool-PoolLaws = record {
  begin_tables = λ w. refl;
  begin_rows = λ w tx h. cc;
  begin_outbox = λ w tx h. cc;
  insert_rows = pool-PoolLaws.insert_rows;
  outbox_rows = pool-PoolLaws.outbox_rows;
  commit_rows = pool-PoolLaws.commit_rows;
  commit_failed = pool-PoolLaws.commit_failed;
  rollback_tables = pool-PoolLaws.rollback_tables;
}

abbrev pub services_with : Deduper Memory → Pool Memory Transaction → Services Memory
services_with deduper p = over_postgres bracketed p (λ w. pos 7) (λ w. (w.cancelled, w)) deduper

-- Postgres is down, and Redis is not.
abbrev pub no_postgres : Services Memory
no_postgres = services_with (redis_deduper ascii_lower checksum client 60) closed_pool

no_postgres-Apart : Apart no_postgres entries rows
unfolding redis_deduper postgres_repo insert_with_outbox after_begin
no_postgres-Apart = record {
  check_rows = λ u c t w. refl;
  claim_rows = λ u c t w. refl;
  set_rows = λ u c t id w. refl;
  release_rows = λ u c t w. refl;
  insert_entries = λ p topic build w j. refl;
}

pub no_postgres-WorldLaws : WorldLaws no_postgres key_of entries rows
no_postgres-WorldLaws = record {
  dedup =
      redis_deduper-DeduperContract ascii_lower checksum client 60 (λ w. w.redis) client-RedisLaws;
  store =
      postgres_repo-RepoContract bracketed closed_pool (λ w. w.tables) (λ tx. tx.staged_rows)
        (λ tx. tx.staged_outbox) closed_pool-PoolLaws
        (record { refused = pool-CommitLaws.refused });
  apart = no_postgres-Apart;
}

-- Redis is down but for DEL.
abbrev pub late_client : Redis Memory
late_client = record {
  get = λ k w. (failed down, w);
  set_nx = λ k v ttl w. ((false, some down), w);
  set = λ k v ttl w. (some down, w);
  del = client.del;
}

-- Postgres works, and Redis is down when it is asked.
abbrev pub no_redis : Services Memory
no_redis = services_with (redis_deduper ascii_lower checksum late_client 60) pool

-- Neither works.
abbrev pub neither : Services Memory
neither = services_with (redis_deduper ascii_lower checksum late_client 60) closed_pool
