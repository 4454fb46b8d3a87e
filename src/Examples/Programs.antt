-- ===== src/Examples/Programs.antt =====
-- The command line programs against the service over the stores in memory.
use job_stream.Base.{
  ℕ, ◌*◌, ◌/◌, suc, ℤ, negsuc, decimal, decimal_ℤ, subst, ◌≡◌, refl, none, some, [], ◌++◌, Text,
  codes, text_eq, Result, ok, err, pos,
}
use job_stream.Strings.{has_prefix}
use job_stream.Proto.{
  Time, SubmitApplicationRequest, SubmitApplicationResponse, BatchSubmitApplicationRequest,
  BatchSubmitApplicationResponse,
}
use job_stream.Errors
use job_stream.Errors.{Error}
use job_stream.Rpc.{Handler, returned}
use job_stream.Auth.{is_exempt, prefix, with_user}
use job_stream.Auth.Bearer.{IsSentWith}
use job_stream.Auth.Jwt
use job_stream.Auth.Jwt.{before, unix, add}
use job_stream.RateLimit.{allow, find, limiter_for, store, new}
use job_stream.Middleware.{chain, recovered}
use job_stream.Repo.Uuid.{uuid_to_string}
use job_stream.DashboardCli.{build_request, run_submit, request_at, answered}
use job_stream.Service.Posts.{Delivers}
use job_stream.Service.{Serving, serve_submit_application, serve_batch_submit_application}
use job_stream.Stubs.{
  Connection, submit_application_full_method_name, submit_application_client,
  batch_submit_application_client,
}
use job_stream.Scraper.{Stats}
use job_stream.Scraper.Totals.{IsConsistent}
use job_stream.Clients
use job_stream.Clients.{
  hour, DashboardFlags, printed, bearer_token, mint_jwt, claims_at, submit, dashboard_main,
}
use job_stream.Clients.Tokens.{chain-mint_jwt}
use job_stream.Clients.Dashboard.{Served, dashboard_main-Served}
use job_stream.Clients.LoadTest.{ScraperFlags, ends, summary, scraper_main}
use job_stream.Clients.LoadTest.Summed.{scraper_main-Summed}
use job_stream.Examples.Memory.{ascii_lower, links, marshal_id, Memory, services, empty, row_id}
use job_stream.Examples.Computing.{called}
use job_stream.Examples.Rig.{
  counters, limits, tokens, tokens-JwtLaws, verify, sent, direct, direct-Delivers, now, new_uuid,
  token_for, clock,
}
use job_stream.Examples.LoadTest.{counter, counter-FakerLaws, config}

abbrev count_calls : Handler ℕ Text Text
count_calls ctx req w = (returned (ok req), suc w)

ann_sent : IsSentWith (prefix ++ token_for (codes "ann")) (sent (prefix ++ token_for (codes "ann")))
unfolding text_eq
ann_sent = record { md = _; metadata = refl; authorization = refl }

chain-mint_jwt_example :
    (let out =
        chain counters
          (λ w. pos 7)
          (λ raw v. Jwt.verify tokens (codes "s3cret") (pos 7) raw)
          submit_application_full_method_name
          count_calls
          (sent (prefix ++ token_for (codes "ann")))
          (codes "hi")
          (limits, 0) in
      let end =
        count_calls
          (with_user (sent (prefix ++ token_for (codes "ann"))) (codes "ann"))
          (codes "hi")
          0 in
      (out.0 ≡ returned (recovered end.0)) × (out.1.1 ≡ end.1))
unfolding is_exempt has_prefix mint_jwt claims_at before unix add allow find limiter_for store new
chain-mint_jwt_example =
    chain-mint_jwt tokens tokens-JwtLaws counters (λ w. pos 7) submit_application_full_method_name
      count_calls (sent (prefix ++ token_for (codes "ann"))) (codes "hi") limits 0 (pos 0)
      (codes "s3cret") (codes "ann") (token_for (codes "ann")) refl refl ann_sent refl (λ e. cc)
      refl

abbrev service :
    Connection (Serving counters Memory) SubmitApplicationRequest SubmitApplicationResponse
service full_method =
    direct
      (serve_submit_application counters now new_uuid verify services ascii_lower links marshal_id)

abbrev dial :
    Text
    → Result Error
        (Connection (Serving counters Memory) SubmitApplicationRequest SubmitApplicationResponse)
dial addr = ok service

abbrev no_times : Text → Result Error Time
no_times s = err (Errors.plain (codes "no time"))

abbrev flags : DashboardFlags
flags = record {
  addr = codes "localhost:50051";
  args = record {
    user_id = codes "ann";
    job_title = codes "Baker";
    company = codes "Bread";
    url = codes "https://jobs.example/8";
    applied_at = [];
  };
  jwt_secret = codes "s3cret";
  token = [];
}

abbrev outcome : Clients.Exit × Serving counters Memory
outcome = dashboard_main tokens no_times clock dial flags ([], (limits, empty))

first_id : Text
first_id = uuid_to_string (row_id 1)

printed_id : outcome ≡ (printed first_id, outcome.1)
unfolding called dashboard_main bearer_token mint_jwt claims_at run_submit build_request submit add
    request_at answered first_id
printed_id = refl

dashboard_main-Served_example :
    Served counters now new_uuid verify services ascii_lower links marshal_id tokens no_times clock
      dial flags []
      (limits, empty)
      first_id
      outcome.1
unfolding submit_application_client
dashboard_main-Served_example =
    dashboard_main-Served counters now new_uuid verify services ascii_lower links marshal_id tokens
      no_times clock dial flags [] (limits, empty) outcome.1 first_id
      (λ conn dialled.
        let same : service ≡ conn = cc in
        subst
          (λ (c : Connection (Serving counters Memory) SubmitApplicationRequest
              SubmitApplicationResponse).
            Delivers
              (serve_submit_application counters now new_uuid verify services ascii_lower links
                marshal_id)
              (submit_application_client c))
          same (direct-Delivers _))
      printed_id

abbrev batch_service :
    Connection
      (Serving counters Memory)
      BatchSubmitApplicationRequest
      BatchSubmitApplicationResponse
batch_service full_method = direct (
    serve_batch_submit_application counters now new_uuid verify services ascii_lower links
      marshal_id)

abbrev load_test : ScraperFlags counter
load_test = record {
  addr = codes "localhost:50051";
  jwt_secret = codes "s3cret";
  token = codes "t";
  cfg = config;
}

abbrev per_second : ℕ → ℤ → ℕ
per_second apps (pos d) = apps * 1000000000 / d
per_second apps (negsuc d) = 0

abbrev read_clock : Serving counters Memory → Time × Serving counters Memory
read_clock s = (clock s, s)

scraper_main-Summed_example :
    let out =
      scraper_main counter tokens read_clock
        (λ rps burst v. v)
        per_second
        decimal_ℤ
        decimal
        (λ v. (none, v))
        (λ v. none)
        (λ addr. ok batch_service)
        load_test
        ([], (limits, empty)) in
    (st : Stats) × (u : Serving counters Memory) × (out ≡ (
      ends (some (summary counter per_second decimal_ℤ decimal st (read_clock u).0)) none,
      (read_clock u).1,
    ))
    × IsConsistent st
    × (st.apps_attempted ≡ 5)
unfolding batch_submit_application_client bearer_token
scraper_main-Summed_example =
    scraper_main-Summed counters now new_uuid verify services ascii_lower links marshal_id
      batch_service (direct-Delivers _) counter counter-FakerLaws tokens read_clock
      (λ rps burst v. v) per_second decimal_ℤ decimal (λ v. (none, v)) (λ v. none)
      (λ addr. ok batch_service) load_test 1 5 (codes "t") ([], (limits, empty)) refl refl refl refl
      refl refl (λ v. refl)
