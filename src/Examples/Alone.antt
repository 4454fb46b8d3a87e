-- ===== src/Examples/Alone.antt =====
-- Submissions one after another, over the stores in memory and over stores that fail.
use job_stream.Base.{
  zero, suc, All, Contains, sym, ◌∙◌, ◌≡◌, ◌≢◌, refl, [], ◌∷◌, Text, codes, arith, Result, ok, err,
  pos, length,
}
use job_stream.Errors.{Error, wrapped, err_pending_duplicate}
use job_stream.Canonical.{ApplicationEvent}
use job_stream.Transform.{from_scraper}
use job_stream.Dedup.{read_reply, redis_check, redis_claim, redis_release, redis_deduper}
use job_stream.Dedup.Contract.{free, entry_of}
use job_stream.Dedup.Keys.{IsByte}
use job_stream.Repo.Postgres.{Row}
use job_stream.Repo.Postgres.Atomic.{Tables}
use job_stream.Repo.Uuid.{uuid_to_string}
use job_stream.Repo.Postgres.{postgres_repo, insert_with_outbox, after_begin, row_params}
use job_stream.Repo.Postgres.Lookup.{postgres_repo-LookupContract, IsKeyed}
use job_stream.Server.{submit_one, insert_params, get_application_status}
use job_stream.Server.Calls.{run}
use job_stream.Server.World.{LookupContract}
use job_stream.Server.Alone.{Submitted, Unchanged, Becomes, submit_one-Submitted}
use job_stream.Server.Alone.Again.{resubmit-same_id, resubmit-unblocked}
use job_stream.Server.Alone.Outage.{
  insert_answer, inserted, submit_one_of_outage, submit_one-releases_unowned,
}
use job_stream.Server.Alone.Shown.{Shows, IsShown, submit-get_application_status}
use job_stream.Examples.Memory.{
  ascii_lower, links, marshal_id, Memory, new_row, pool, bracketed, services, empty, row_id,
}
use job_stream.Examples.Computing.{submitted}
use job_stream.Examples.Laws.{entries, rows, key_of, services-WorldLaws, pool-QueryLaws}
use job_stream.Examples.Faults.{down, no_postgres, no_postgres-WorldLaws, no_redis, neither}
use job_stream.Examples.Requests.{other_job}

-- The canonical event of the submission.
abbrev event : ApplicationEvent
event = from_scraper ascii_lower links (pos 7) other_job

other_job-Becomes : Becomes ascii_lower links (pos 7) other_job event
unfolding submitted
other_job-Becomes = record {
  transformer = from_scraper ascii_lower links (pos 7);
  chosen = refl;
  event = refl;
  valid = refl;
}

abbrev outcome : Result Error Text × Memory
outcome = run services (submit_one ascii_lower links marshal_id other_job) empty

submit_one-Submitted_example : Submitted key_of entries rows event empty outcome.1 outcome.0
submit_one-Submitted_example =
    submit_one-Submitted ascii_lower links marshal_id services key_of entries rows
      services-WorldLaws other_job event empty other_job-Becomes

first_id : Text
first_id = uuid_to_string (row_id 1)

answered : outcome.0 ≡ ok first_id
unfolding submitted first_id
answered = refl

-- The same request once more.
abbrev repeated : Result Error Text × Memory
repeated = run services (submit_one ascii_lower links marshal_id other_job) outcome.1

resubmit-same_id_example :
    (repeated.0 ≡ ok first_id) × Unchanged key_of entries rows outcome.1 repeated.1
resubmit-same_id_example =
    resubmit-same_id ascii_lower links marshal_id services key_of entries rows services-WorldLaws
      other_job other_job event event empty other_job-Becomes other_job-Becomes refl first_id
      answered

abbrev broken : Result Error Text × Memory
broken = run no_postgres (submit_one ascii_lower links marshal_id other_job) empty

abbrev cause : Error
cause = wrapped (codes "insert: ") (wrapped (codes "begin tx: ") down []) []

failed_insert : broken.0 ≡ err cause
unfolding submitted
failed_insert = refl

resubmit-unblocked_example :
    (run no_postgres (submit_one ascii_lower links marshal_id other_job) broken.1).0
    ≢ err err_pending_duplicate
resubmit-unblocked_example =
    resubmit-unblocked ascii_lower links marshal_id no_postgres key_of entries rows
      no_postgres-WorldLaws other_job other_job event event empty other_job-Becomes
      other_job-Becomes refl cause failed_insert (λ e. cc)

submit_one_of_outage_example :
    (run no_redis (submit_one ascii_lower links marshal_id other_job) empty).0
    ≡ insert_answer (inserted ascii_lower links marshal_id no_redis other_job event empty).0
unfolding redis_deduper redis_check redis_claim read_reply
submit_one_of_outage_example =
    submit_one_of_outage ascii_lower links marshal_id no_redis other_job event empty down
      other_job-Becomes refl refl

submit_one-releases_unowned_example :
    entries
      (run neither (submit_one ascii_lower links marshal_id other_job) empty).1
      (key_of event.user_id event.company event.job_title)
    ≡ free
unfolding redis_deduper redis_check redis_claim redis_release read_reply postgres_repo
    insert_with_outbox after_begin
submit_one-releases_unowned_example =
    submit_one-releases_unowned ascii_lower links marshal_id neither other_job event empty key_of
      entries down (wrapped (codes "begin tx: ") down []) other_job-Becomes refl refl refl
      (λ v j.
        services-WorldLaws.dedup.release_entries event.user_id event.company event.job_title v j)

-- The rows after the submission have a key, and the status request finds the application.
lookups : LookupContract services.repo rows (λ w. IsKeyed w.tables)
unfolding postgres_repo
lookups = postgres_repo-LookupContract bracketed pool (λ w. w.tables) pool-QueryLaws

single-IsKeyed :
    (t : Tables) (row : Row)
    → t.applications ≡ row ∷ []
    → length row.id ≡ 16
    → All IsByte row.id
    → IsKeyed t
single-IsKeyed t row one width bytes =
    let only : (r : Row) → Contains t.applications r → row ≡ r =
      λ r there. at r (rw one at there) in
    record {
      unique = λ r r' there there' same. sym (only r there) ∙ only r' there';
      width = λ r there. rw (← only r there) width;
      bytes = λ r there. rw (← only r there) bytes;
    }
  where
    at : (r : Row) → Contains (row ∷ []) r → row ≡ r
    at r (zero, e) = cc
    at r (suc i, e) = cc

abbrev added : Row
added =
    new_row (row_params (insert_params event))
      (record { staged_rows = []; staged_outbox = []; serial = 1 })

outcome-IsKeyed : IsKeyed outcome.1.tables
unfolding submitted
outcome-IsKeyed = single-IsKeyed outcome.1.tables added refl refl (omega arith)

submit-get_application_status_example :
    IsShown
      (Shows other_job event first_id)
      (run services
        (get_application_status (record { application_id = first_id; user_id = event.user_id }))
        outcome.1).0
unfolding entry_of
submit-get_application_status_example =
    submit-get_application_status ascii_lower links marshal_id services key_of entries rows
      services-WorldLaws (λ w. IsKeyed w.tables) lookups other_job event empty first_id
      other_job-Becomes refl answered outcome-IsKeyed
