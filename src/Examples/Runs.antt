-- ===== src/Examples/Runs.antt =====
-- The theorems on the stores and on the handlers, over the stores in memory.
use job_stream.Base.{
  ℕ, ◌≡◌, refl, inr, none, some, List, [], ◌∷◌, map, codes, arith, ok, err, length, pos, text_eq,
}
use job_stream.Proto.{
  BatchSubmitApplicationRequest, BatchSubmitResult, GetApplicationStatusRequest, source_to_int32,
}
use job_stream.Errors
use job_stream.Errors.{Error, context_canceled, err_invalid_url, error_text}
use job_stream.Canonical.{validate, is_http_url, schema_version}
use job_stream.Transform.{
  from_scraper, transformer_for, collapse_whitespace, collapse_from, is_blank, is_ascii_space,
  replace_invisible, visible,
}
use job_stream.Strings.{is_space, trim_left, trim_right, trim_space, has_prefix}
use job_stream.Dedup.{redis_deduper}
use job_stream.Dedup.Contract.{DeduperContract, entry_of, redis_deduper-DeduperContract}
use job_stream.Repo.{InsertParams}
use job_stream.Repo.Uuid.{uuid_to_string}
use job_stream.Repo.Uuid.RoundTrip.{undash, unhex}
use job_stream.Repo.Postgres.{
  insert_with_outbox, get_by_id_and_user_id, postgres_repo, Row, after_scan, after_get, from_row,
}
use job_stream.Repo.Postgres.Atomic.{Atomic, insert_with_outbox-Atomic}
use job_stream.Repo.Postgres.Contract.{postgres_repo-RepoContract}
use job_stream.Server.{
  submit_application, err_result, batch_loop, batch_submit_application, get_application_status,
  insert_params, topic_jobs_submitted, build_jobs_submitted_payload, to_application,
  status_response,
}
use job_stream.Server.Calls.{run}
use job_stream.Server.World.{RepoContract}
use job_stream.Server.Submit.{submit_application_of_IsBadInput}
use job_stream.Server.Batch.{
  Handled, batch_submit_application-Handled, polled_for, batch_loop-cancelled,
}
use job_stream.Server.Lookup.{get_application_status-owned}
use job_stream.Examples.Memory.{
  ascii_lower, links, checksum, marshal_id, Memory, client, row_id, pool, bracketed, services,
  empty,
}
use job_stream.Examples.Laws.{
  client-RedisLaws, pool-PoolLaws, pool-CommitLaws, pool-SelectLaws, key_of, rows,
}
use job_stream.Examples.Requests.{from_page, from_form, other_job, no_link}

redis_deduper-DeduperContract_example :
    DeduperContract
      (redis_deduper ascii_lower checksum client 60)
      key_of
      (λ w j. entry_of (w.redis j))
redis_deduper-DeduperContract_example =
    redis_deduper-DeduperContract ascii_lower checksum client 60 (λ w. w.redis) client-RedisLaws

abbrev params : InsertParams
params = insert_params (from_scraper ascii_lower links (pos 5) other_job)

insert_with_outbox-Atomic_example :
    let s =
      insert_with_outbox bracketed pool params topic_jobs_submitted
        (build_jobs_submitted_payload marshal_id)
        empty in
    Atomic pool
      (λ w. w.tables)
      params
      topic_jobs_submitted
      (build_jobs_submitted_payload marshal_id)
      empty.tables
      s.1.tables
      s.0
insert_with_outbox-Atomic_example =
    insert_with_outbox-Atomic bracketed pool (λ w. w.tables) (λ tx. tx.staged_rows)
      (λ tx. tx.staged_outbox) pool-PoolLaws params topic_jobs_submitted
      (build_jobs_submitted_payload marshal_id) empty

postgres_repo-RepoContract_example : RepoContract (postgres_repo bracketed pool) rows
postgres_repo-RepoContract_example =
    postgres_repo-RepoContract bracketed pool (λ w. w.tables) (λ tx. tx.staged_rows)
      (λ tx. tx.staged_outbox) pool-PoolLaws pool-CommitLaws

no_link_is_bad :
    validate ascii_lower links (from_scraper ascii_lower links (pos 7) no_link)
    ≡ some err_invalid_url
unfolding validate is_http_url from_scraper collapse_whitespace collapse_from is_blank
    is_ascii_space replace_invisible visible trim_space trim_left trim_right is_space has_prefix
    text_eq source_to_int32 schema_version
no_link_is_bad = refl

submit_application_of_IsBadInput_example :
    run services (submit_application ascii_lower links marshal_id no_link) empty
    ≡ (err (Errors.status Errors.invalid_argument (error_text err_invalid_url)), empty)
unfolding transformer_for
submit_application_of_IsBadInput_example =
    submit_application_of_IsBadInput ascii_lower links marshal_id services no_link err_invalid_url
      empty (inr (from_scraper ascii_lower links (pos 7), refl, no_link_is_bad))

abbrev batch : BatchSubmitApplicationRequest
batch = record { applications = from_page ∷ no_link ∷ from_form ∷ [] }

batch_submit_application-Handled_example :
    (rs : List BatchSubmitResult) × (w' : Memory) × (run services
        (batch_submit_application ascii_lower links marshal_id batch)
        empty
      ≡ (ok (record { results = rs }), w'))
    × Handled ascii_lower links marshal_id services batch.applications empty rs w'
    × (length rs ≡ length batch.applications)
batch_submit_application-Handled_example =
    batch_submit_application-Handled ascii_lower links marshal_id services batch empty (omega arith)
      (omega arith)

abbrev stopped : Memory
stopped = record {
  redis = empty.redis;
  tables = empty.tables;
  serial = empty.serial;
  cancelled = some context_canceled;
}

batch_loop-cancelled_example :
    run services (batch_loop ascii_lower links marshal_id batch.applications) stopped ≡ (
      map (λ _. err_result context_canceled) batch.applications,
      polled_for ascii_lower links marshal_id services batch.applications stopped,
    )
batch_loop-cancelled_example =
    batch_loop-cancelled ascii_lower links marshal_id services context_canceled batch.applications
      stopped refl (λ v h. h)

abbrev stored : Row
stored = record {
  id = row_id 1;
  user_id = codes "ann";
  job_title = codes "Baker";
  company = codes "Bread";
  url = codes "https://jobs.example/8";
  source = pos 3;
  status = pos 1;
  applied_at = pos 7;
  created_at = pos 0;
  schema_version = codes "1.0";
}

abbrev filled : Memory
filled = record {
  redis = empty.redis;
  tables = record { applications = stored ∷ []; outbox = [] };
  serial = 2;
  cancelled = none;
}

abbrev lookup : GetApplicationStatusRequest
lookup = record {
  application_id = codes "01000000-0000-0000-0000-000000000000";
  user_id = codes "ann";
}

shown :
    (run services (get_application_status lookup) filled).0
    ≡ ok (record { application = to_application (from_row stored) })
unfolding run get_application_status status_response postgres_repo get_by_id_and_user_id after_scan
    after_get text_eq undash unhex
shown = refl

get_application_status-owned_example :
    (uid : List ℕ) × (pool.scan_uuid lookup.application_id ≡ ok uid)
    × ((to_application (from_row stored)).id ≡ uuid_to_string uid)
    × ((to_application (from_row stored)).user_id ≡ codes "ann")
get_application_status-owned_example =
    get_application_status-owned bracketed pool services.now services.ctx_err services.deduper
      pool-SelectLaws lookup filled (record { application = to_application (from_row stored) })
      shown

abbrev nameless : GetApplicationStatusRequest
nameless = record { application_id = []; user_id = codes "ann" }

abbrev garbled : GetApplicationStatusRequest
garbled = record { application_id = codes "first"; user_id = codes "ann" }
