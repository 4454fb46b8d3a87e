-- ===== src/Examples/Served.antt =====
-- Calls that go through the interceptors to the server, over HTTP too.
use job_stream.Base.{
  ℕ, ◌≡◌, refl, none, some, List, [], ◌∷◌, ◌++◌, Text, codes, Result, ok, err, Option,
}
use job_stream.Proto.{SubmitApplicationRequest, SubmitApplicationResponse}
use job_stream.Errors
use job_stream.Errors.{Error, Code}
use job_stream.Rpc.{Handler, returned}
use job_stream.Auth.{prefix}
use job_stream.Middleware.{recovered, recovery_interceptor}
use job_stream.Logging.{LogRecord, logging_interceptor, request_id_for, with_request_id}
use job_stream.Logging.Records.{IsRecordOf, logging_interceptor-IsRecordOf}
use job_stream.Dedup.Contract.{entry_of}
use job_stream.Server.World.{ids_at}
use job_stream.Server.Alone.{Unchanged}
use job_stream.Gateway.{
  SubmitRequest, HttpRequest, handle_submit, after_body, after_decode, after_source, after_time,
  after_submit, read_all, parse_source, parse_applied_at, forwarded, write_json,
}
use job_stream.Service.{Serving, serve_submit_application}
use job_stream.Service.Stored.{InStep, Stored, handle_submit-Stored}
use job_stream.Examples.Memory.{ascii_lower, links, marshal_id, Memory, services, empty}
use job_stream.Examples.Computing.{called}
use job_stream.Examples.Laws.{entries, rows, key_of, services-WorldLaws}
use job_stream.Examples.Rig.{
  now, new_uuid, token_for, clock, counters, limits, verify, sent, direct, direct-Delivers,
}

abbrev echo : Handler Memory Text Text
echo ctx req w = (returned (err (Errors.plain req)), w)

logging_interceptor-IsRecordOf_example :
    (let id = request_id_for new_uuid (sent []) empty in
      let inner = echo (with_request_id (sent []) id.0) (codes "hi") id.1 in
      let out =
        logging_interceptor now new_uuid
          (codes "/m")
          (recovery_interceptor echo)
          (sent [])
          (codes "hi")
          ([], empty) in
      (l : LogRecord) × (out ≡ (returned (recovered inner.0), (l ∷ [], inner.1)))
      × IsRecordOf (codes "/m") id.0 (recovered inner.0) l)
logging_interceptor-IsRecordOf_example =
    logging_interceptor-IsRecordOf now new_uuid (codes "/m") echo (sent []) (codes "hi") [] empty
      (λ v e. cc)

abbrev decode : List ℕ → Option SubmitRequest
decode bytes = some (record {
  user_id = codes "ann";
  job_title = codes "Baker";
  company = codes "Bread";
  url = codes "https://jobs.example/8";
  source = [];
  applied_at = [];
})

abbrev post : HttpRequest
post = record {
  method = codes "POST";
  path = codes "/v1/applications";
  authorization = prefix ++ token_for (codes "ann");
  body = ok (1 ∷ 2 ∷ []);
}

abbrev connection :
    Text
    → SubmitApplicationRequest
    → Serving counters Memory
    → Result (Code × Text) SubmitApplicationResponse × Serving counters Memory
connection =
    direct
      (serve_submit_application counters now new_uuid verify services ascii_lower links marshal_id)

empty-InStep : InStep key_of entries rows empty
unfolding entry_of ids_at
empty-InStep k = refl

untouched : (v : Memory) → Unchanged key_of entries rows v v
untouched v = record { same_rows = refl; same_entries = λ j. refl }

accepted :
    (handle_submit decode (λ t. none) clock connection post ([], (limits, empty))).0.code ≡ 200
unfolding called handle_submit after_body after_decode after_source after_time after_submit read_all
    parse_source parse_applied_at forwarded write_json
accepted = refl

handle_submit-Stored_example :
    Stored counters now new_uuid verify services ascii_lower links marshal_id decode
      (λ t. none)
      clock
      connection
      key_of
      entries
      rows
      post
      []
      (limits, empty)
      (handle_submit decode (λ t. none) clock connection post ([], (limits, empty)))
handle_submit-Stored_example =
    handle_submit-Stored counters now new_uuid verify services ascii_lower links marshal_id decode
      (λ t. none) clock connection key_of entries rows services-WorldLaws untouched post []
      (limits, empty) (direct-Delivers _) empty-InStep accepted
