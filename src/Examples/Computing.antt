-- ===== src/Examples/Computing.antt =====
-- One submission, and one call, over stores in memory. A proof that unfolds `submitted` computes
-- with all that a submission calls.
use job_stream.Base.{Text, text_eq, Result}
use job_stream.Strings.{
  is_space, trim_left, trim_right, trim_space, has_prefix, has_suffix, byte_len, slice_to,
}
use job_stream.Proto.{
  source_to_int32, source_of, status_of, status_to_int32, SubmitApplicationRequest,
}
use job_stream.Errors.{Error}
use job_stream.Canonical.{schema_version, is_http_url, validate}
use job_stream.Transform.{
  applied_at_or_now, visible, replace_invisible, is_blank, collapse_from, is_ascii_space,
  collapse_whitespace, is_tracking, del, drop_tracking, strip_suffix_in, strip_board_suffix,
  strip_tracking_params, from_dashboard, from_chrome_ext, from_scraper, transformer_for,
}
use job_stream.Dedup.{
  hex_digit, hex, read_reply, normalize, payload, key, redis_check, redis_claim, redis_set,
  redis_release, redis_deduper,
}
use job_stream.Repo.Uuid.{uuid_to_string}
use job_stream.Repo.Postgres
use job_stream.Repo.Postgres.{
  to_int16, from_row, row_params, postgres_repo, insert_with_outbox, after_begin, close_tx,
  after_payload, after_outbox, after_commit,
}
use job_stream.Server.{
  topic_jobs_submitted, to_application, insert_params, after_insert, after_recheck,
  build_jobs_submitted_payload, insert_event, after_claim, after_check, after_validate, after_for,
  submit_one,
}
use job_stream.Server.Calls.{Services, run}
use job_stream.Server.{submit_application, submit_response}
use job_stream.Server.Calls.{Program, and_then}
use job_stream.Base.{ok}
use job_stream.Strings.{trim_prefix}
use job_stream.Rpc.{Context, Outcome}
use job_stream.Auth.{
  bearer_from_metadata, is_exempt, auth_interceptor, after_bearer, after_verify, user_from_context,
}
use job_stream.Auth.Jwt
use job_stream.Auth.Jwt.{key_for, before, unix}
use job_stream.RateLimit.{allow, find, limiter_for, store, new, rate_limit_interceptor}
use job_stream.Middleware.{chain, recovered, recovery_interceptor}
use job_stream.Logging.{logging_interceptor, logged, request_id_for, request_id_from_metadata}
use job_stream.Stubs.{unary_handler, submit_application_client}
use job_stream.Service.{Serving, method_of, interceptors, serve, serve_submit_application}
use job_stream.Examples.Rig.{counters, verify, now, new_uuid}
use job_stream.Examples.Memory.{ascii_lower, links, marshal_id, services, Memory}

unfoldable pub submitted :
    Services Memory → SubmitApplicationRequest → Memory → Result Error Text × Memory
unfolding is_space trim_left trim_right trim_space has_prefix has_suffix byte_len slice_to
    source_to_int32 source_of status_of status_to_int32 applied_at_or_now visible replace_invisible
    is_blank collapse_from is_ascii_space collapse_whitespace is_tracking del drop_tracking
    strip_suffix_in strip_board_suffix strip_tracking_params from_dashboard from_chrome_ext
    from_scraper transformer_for to_int16 from_row row_params postgres_repo insert_with_outbox
    after_begin close_tx after_payload after_outbox after_commit text_eq topic_jobs_submitted
    to_application insert_params after_insert after_recheck build_jobs_submitted_payload
    insert_event after_claim after_check after_validate after_for submit_one hex_digit hex
    read_reply normalize payload key redis_check redis_claim redis_set redis_release redis_deduper
    uuid_to_string schema_version is_http_url validate Postgres.after_insert run
submitted s req w = run s (submit_one ascii_lower links marshal_id req) w

-- A call of a method of the service. A proof that unfolds `called` computes with the whole chain.
unfoldable pub called :
    {Req Resp : Type 0}
    → Text
    → (Req → Program (Result Error Resp))
    → Context
    → Req
    → Serving counters Memory
    → Outcome Resp × Serving counters Memory
unfolding submitted serve unary_handler method_of interceptors logging_interceptor logged
    request_id_for request_id_from_metadata chain recovery_interceptor recovered auth_interceptor
    after_bearer after_verify bearer_from_metadata is_exempt trim_prefix rate_limit_interceptor
    user_from_context allow limiter_for find store new submit_application submit_response and_then
    Jwt.verify key_for before unix serve_submit_application submit_application_client
called full_method method ctx req =
    serve counters now new_uuid verify services full_method method ctx (ok req)
