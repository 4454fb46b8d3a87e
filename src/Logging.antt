-- ===== src/Logging.antt =====
-- services/intake/internal/middleware/logging.go: the interceptor that gives each call a request id
-- and hands one log record for it to the logger. `now` is the clock and `new_uuid` is
-- uuid.NewString.
pub mod Records
use job_stream.Base.{
  ℕ, Option, none, some, List, [], ◌∷◌, ℤ, sub_ℤ, Text, codes, is_empty, Result, ok, err,
  if◌then◌else◌,
}
use job_stream.Proto.{Time}
use job_stream.Errors
use job_stream.Errors.{Error, Code, code_string, error_text, status_code}
use job_stream.Rpc.{Context, Outcome, returned, panicked, Handler}

pub data Level : Type 0 where
  level_info level_warn level_error : Level

unfoldable pub level_for_code : Code → Level
level_for_code Errors.ok = level_info
level_for_code Errors.not_found = level_warn
level_for_code Errors.invalid_argument = level_warn
level_for_code Errors.already_exists = level_warn
level_for_code Errors.permission_denied = level_warn
level_for_code Errors.unauthenticated = level_warn
level_for_code Errors.canceled = level_warn
level_for_code Errors.resource_exhausted = level_warn
level_for_code _ = level_error

-- The attributes of a record, with the duration in nanoseconds.
pub record LogRecord : Type 0 where
  pub level : Level
  pub method : Text
  pub request_id : Text
  pub peer : Text
  pub duration : ℤ
  pub status : Text
  pub error : Option Text

or_empty : Option Text → Text
or_empty none = []
or_empty (some v) = v

unfoldable pub request_id_from_context : Context → Text
unfolding or_empty
request_id_from_context ctx = or_empty ctx.request_id

abbrev first_or_empty : List Text → Text
first_or_empty [] = []
first_or_empty (v ∷ _) = v

id_in : Option (Text → List Text) → Text
id_in none = []
id_in (some md) = first_or_empty (md (codes "x-request-id"))

unfoldable pub request_id_from_metadata : Context → Text
unfolding id_in
request_id_from_metadata ctx = id_in ctx.metadata

unfoldable pub peer_addr : Context → Text
unfolding or_empty
peer_addr ctx = or_empty ctx.peer

abbrev pub with_request_id : Context → Text → Context
with_request_id ctx id = record {
  metadata = ctx.metadata;
  peer = ctx.peer;
  user_id = ctx.user_id;
  request_id = some id;
}

code_or_unknown : Option Code → Code
code_or_unknown none = Errors.unknown
code_or_unknown (some c) = c

-- status.Code
unfoldable pub code_of : {A : Type 0} → Result Error A → Code
unfolding code_or_unknown
code_of (ok a) = Errors.ok
code_of (err e) = code_or_unknown (status_code e)

unfoldable pub text_of_error : {A : Type 0} → Result Error A → Option Text
text_of_error (ok a) = none
text_of_error (err e) = some (error_text e)

-- The id of the request, and a new one if it has none.
unfoldable pub request_id_for : {W : Type 0} → (W → Text × W) → Context → W → Text × W
request_id_for new_uuid ctx w =
    let fresh = new_uuid w in
    if is_empty (request_id_from_metadata ctx) then fresh else (request_id_from_metadata ctx, w)

unfoldable pub log_record :
    {Resp : Type 0} → Text → Text → Context → Time → Time → Result Error Resp → LogRecord
log_record full_method req_id ctx start end r = record {
  level = level_for_code (code_of r);
  method = full_method;
  request_id = req_id;
  peer = peer_addr ctx;
  duration = sub_ℤ end start;
  status = code_string (code_of r);
  error = text_of_error r;
}

-- What is logged when the handler comes back; a panic passes through without a record.
unfoldable pub logged :
    {W Resp : Type 0}
    → (W → Time)
    → Text
    → Text
    → Context
    → Time
    → List LogRecord
    → Outcome Resp × W
    → Outcome Resp × (List LogRecord × W)
logged now full_method req_id ctx start logs (returned r, w) =
    (returned r, (log_record full_method req_id ctx start (now w) r ∷ logs, w))
logged now full_method req_id ctx start logs (panicked v, w) = (panicked v, (logs, w))

module _ {W Req Resp : Type 0} (now : W → Time) (new_uuid : W → Text × W) where
  -- The records that have been written stand beside the world, the newest first.
  unfoldable pub logging_interceptor :
      Text → Handler W Req Resp → Handler (List LogRecord × W) Req Resp
  logging_interceptor full_method handler ctx req (logs, w) =
      let (req_id, w1) = request_id_for new_uuid ctx w in
      let ctx' = with_request_id ctx req_id in
      logged now full_method req_id ctx' (now w) logs (handler ctx' req w1)
