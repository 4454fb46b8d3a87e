-- ===== src/Errors.antt =====
-- Go's error values as the service uses them: the sentinel errors of the packages, wrapping by
-- `%w`, gRPC status errors, and the errors of foreign packages, of which only the text is known.
use job_stream.Base.{Option, none, some, ◌++◌, Text, codes}

-- google.golang.org/grpc/codes
pub data Code : Type 0 where
  ok canceled unknown invalid_argument deadline_exceeded not_found already_exists : Code
  permission_denied resource_exhausted failed_precondition aborted out_of_range : Code
  unimplemented internal unavailable data_loss unauthenticated : Code

pub data Error : Type 0 where
  err_user_id_required err_job_title_required err_company_required err_url_required : Error
  err_invalid_url err_source_required err_schema_required : Error
  err_unsupported_source : Error
  err_pending_duplicate : Error
  err_not_found : Error
  err_no_rows : Error
  context_canceled context_deadline_exceeded : Error
  plain : Text → Error
  wrapped : Text → Error → Text → Error
  status : Code → Text → Error

-- `c.String()`.
unfoldable pub code_string : Code → Text
code_string ok = codes "OK"
code_string canceled = codes "Canceled"
code_string unknown = codes "Unknown"
code_string invalid_argument = codes "InvalidArgument"
code_string deadline_exceeded = codes "DeadlineExceeded"
code_string not_found = codes "NotFound"
code_string already_exists = codes "AlreadyExists"
code_string permission_denied = codes "PermissionDenied"
code_string resource_exhausted = codes "ResourceExhausted"
code_string failed_precondition = codes "FailedPrecondition"
code_string aborted = codes "Aborted"
code_string out_of_range = codes "OutOfRange"
code_string unimplemented = codes "Unimplemented"
code_string internal = codes "Internal"
code_string unavailable = codes "Unavailable"
code_string data_loss = codes "DataLoss"
code_string unauthenticated = codes "Unauthenticated"

-- `err.Error()`. `wrapped before e after` is `fmt.Errorf("<before>%w<after>", e)`.
unfoldable pub error_text : Error → Text
unfolding code_string
error_text err_user_id_required = codes "user_id is required"
error_text err_job_title_required = codes "job_title is required"
error_text err_company_required = codes "company is required"
error_text err_url_required = codes "url is required"
error_text err_invalid_url = codes "url must be an absolute http(s) URL"
error_text err_source_required = codes "source must be specified"
error_text err_schema_required = codes "schema_version is required"
error_text err_unsupported_source = codes "unsupported source"
error_text err_pending_duplicate = codes "duplicate submission in progress"
error_text err_not_found = codes "application not found"
error_text err_no_rows = codes "no rows in result set"
error_text context_canceled = codes "context canceled"
error_text context_deadline_exceeded = codes "context deadline exceeded"
error_text (plain t) = t
error_text (wrapped before e after) = before ++ error_text e ++ after
error_text (status c t) = codes "rpc error: code = " ++ code_string c ++ codes " desc = " ++ t

-- What `errors.Is` compares with its target in the end: the innermost error of the chain. None of
-- the targets wraps another error, so a match further out is a match here.
abbrev pub root : Error → Error
root (wrapped _ e _) = root e
root e = e

-- The code of a status error; `none` if the chain holds no status error.
abbrev pub status_code : Error → Option Code
status_code e = code_of (root e)
  where
    code_of : Error → Option Code
    code_of (status c _) = some c
    code_of _ = none
