-- ===== src/Gateway.antt =====
-- services/intake/internal/httpgateway/gateway.go: JSON over HTTP to the gRPC service. `decode` is
-- json.Unmarshal into a submitRequest, `rfc3339` is time.Parse with that layout, `client` the
-- interface SubmitClient. Headers of the response are left out where no code reads them; the
-- logger is never used.
pub mod Forward
use job_stream.Base.{
  ℕ, ◌*◌, Bool, true, false, not, ◌||◌, ◌==◌, Option, none, some, List, [], Text, codes, is_empty,
  text_eq, leb, length, Result, ok, err, if◌then◌else◌,
}
use job_stream.Proto.{
  Time, Source, source_unspecified, source_chrome_ext, source_value, SubmitApplicationRequest,
  SubmitApplicationResponse,
}
use job_stream.Errors
use job_stream.Errors.{Error, Code, plain, error_text}

abbrev pub max_body_bytes : ℕ
max_body_bytes = 64 * 1024

-- The wire shape of POST /v1/applications.
pub record SubmitRequest : Type 0 where
  pub user_id : Text
  pub job_title : Text
  pub company : Text
  pub url : Text
  pub source : Text
  pub applied_at : Text

-- What the gateway reads of a request. The body is its bytes, or the error of reading it.
pub record HttpRequest : Type 0 where
  pub method : Text
  pub path : Text
  pub authorization : Text
  pub body : Result Error (List ℕ)

pub data Body : Type 0 where
  no_body : Body
  text_body : Text → Body
  error_body : Text → Body
  submitted : Text → Body

pub record HttpResponse : Type 0 where
  pub code : ℕ
  pub allow_origin : Option Text
  pub body : Body

-- http.MaxBytesReader and io.ReadAll.
unfoldable pub read_all : Result Error (List ℕ) → Option (List ℕ)
read_all (err e) = none
read_all (ok bytes) = if leb (length bytes) max_body_bytes then some bytes else none

unfoldable pub write_json : ℕ → Body → HttpResponse
write_json code body = record { code = code; allow_origin = none; body = body }

unfoldable pub write_error : ℕ → Text → HttpResponse
unfolding write_json
write_error code msg = write_json code (error_body msg)

named_source : Option Source → Result Error Source
named_source none = err (plain (codes "invalid source value"))
named_source (some source_unspecified) = err (plain (codes "invalid source value"))
named_source (some v) = ok v

unfoldable pub parse_source : Text → Result Error Source
unfolding named_source
parse_source s = if is_empty s then ok source_chrome_ext else named_source (source_value s)

parsed_time : Option Time → Result Error Time
parsed_time none = err (plain (codes "applied_at must be RFC3339"))
parsed_time (some t) = ok t

unfoldable pub parse_applied_at : (Text → Option Time) → Time → Text → Result Error Time
unfolding parsed_time
parse_applied_at rfc3339 now s = if is_empty s then ok now else parsed_time (rfc3339 s)

unfoldable pub grpc_code_to_http : Code → ℕ
grpc_code_to_http Errors.ok = 200
grpc_code_to_http Errors.invalid_argument = 400
grpc_code_to_http Errors.failed_precondition = 400
grpc_code_to_http Errors.out_of_range = 400
grpc_code_to_http Errors.unauthenticated = 401
grpc_code_to_http Errors.permission_denied = 403
grpc_code_to_http Errors.not_found = 404
grpc_code_to_http Errors.already_exists = 409
grpc_code_to_http Errors.aborted = 409
grpc_code_to_http Errors.resource_exhausted = 429
grpc_code_to_http Errors.unimplemented = 501
grpc_code_to_http Errors.unavailable = 503
grpc_code_to_http Errors.deadline_exceeded = 504
grpc_code_to_http _ = 500

unfoldable pub handle_health : HttpResponse
handle_health = record { code = 200; allow_origin = none; body = text_body (codes "ok") }

-- The request that is forwarded.
unfoldable pub forwarded : SubmitRequest → Source → Time → SubmitApplicationRequest
forwarded input source applied_at = record {
  user_id = input.user_id;
  job_title = input.job_title;
  company = input.company;
  url = input.url;
  source = source;
  applied_at = some applied_at;
}

-- A client's error is a status: its code and its message.
module _ {W : Type 0} (decode : List ℕ → Option SubmitRequest) (rfc3339 : Text → Option Time)
    (now : W → Time)
    (client : Text
      → SubmitApplicationRequest
      → W
      → Result (Code × Text) SubmitApplicationResponse × W) where
  unfoldable pub after_submit :
      Result (Code × Text) SubmitApplicationResponse × W → HttpResponse × W
  after_submit (err (code, message), w) = (write_error (grpc_code_to_http code) message, w)
  after_submit (ok resp, w) = (write_json 200 (submitted resp.application_id), w)

  -- The rest of `handleSubmit` after each of its checks, from the last to the first.
  unfoldable pub after_time :
      Text → SubmitRequest → Source → Result Error Time → W → HttpResponse × W
  after_time auth input source (err e) w = (write_error 400 (error_text e), w)
  after_time auth input source (ok t) w = after_submit (client auth (forwarded input source t) w)

  unfoldable pub after_source : Text → SubmitRequest → Result Error Source → W → HttpResponse × W
  after_source auth input (err e) w = (write_error 400 (error_text e), w)
  after_source auth input (ok source) w =
      after_time auth input source (parse_applied_at rfc3339 (now w) input.applied_at) w

  unfoldable pub after_decode : Text → Option SubmitRequest → W → HttpResponse × W
  after_decode auth none w = (write_error 400 (codes "invalid JSON body"), w)
  after_decode auth (some input) w = after_source auth input (parse_source input.source) w

  unfoldable pub after_body : Text → Option (List ℕ) → W → HttpResponse × W
  after_body auth none w = (write_error 413 (codes "request body too large"), w)
  after_body auth (some body) w = after_decode auth (decode body) w

  unfoldable pub handle_submit : HttpRequest → W → HttpResponse × W
  handle_submit r w =
      let served = after_body r.authorization (read_all r.body) w in
      if not (text_eq r.method (codes "POST"))
      then (write_error 405 (codes "method not allowed"), w)
      else if is_empty r.authorization
      then (write_error 401 (codes "missing authorization header"), w)
      else served

  -- The mux, with `fallback` for what http.ServeMux does with any other path.
  module _ (fallback : HttpRequest → HttpResponse) (cors_origin : Text) where
    unfoldable pub serve_mux : HttpRequest → W → HttpResponse × W
    serve_mux r w =
        if text_eq r.path (codes "/v1/applications")
        then handle_submit r w
        else if text_eq r.path (codes "/healthz")
        then (handle_health, w)
        else (fallback r, w)

    abbrev pub allowing : HttpResponse → HttpResponse
    allowing resp = record { code = resp.code; allow_origin = some cors_origin; body = resp.body }

    unfoldable pub handler : HttpRequest → W → HttpResponse × W
    handler r w =
        let (resp, w') = serve_mux r w in
        if text_eq r.method (codes "OPTIONS")
        then (record { code = 204; allow_origin = some cors_origin; body = no_body }, w)
        else (allowing resp, w')
