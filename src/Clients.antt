-- ===== src/Clients.antt =====
-- The command line programs: sources/dashboard-cli/cmd/dashboard-cli/main.go and
-- sources/scraper/cmd/scraper/main.go. The flags are read already; `dial` is grpc.NewClient and
-- gives the connection; golang-jwt is a parameter. What is written to stderr is left out.
pub mod LoadTest
pub mod Dashboard
pub mod Tokens
use job_stream.Base.{
  ℕ, ◌+◌, ◌*◌, Bool, Option, none, some, List, ◌++◌, ℤ, Text, codes, is_empty, Result, ok, err,
  if◌then◌else◌,
}
use job_stream.Proto.{
  Time, SubmitApplicationRequest, SubmitApplicationResponse, BatchSubmitApplicationRequest,
  BatchSubmitApplicationResponse,
}
use job_stream.Errors
use job_stream.Errors.{Error, Code, error_text}
use job_stream.Auth.Jwt.{JwtPackage, MapClaims, unix, add, second}
use job_stream.Stubs.{Connection, submit_application_client, batch_submit_application_client}
use job_stream.DashboardCli.{Args, run_submit}

abbrev pub hour : ℕ
hour = 3600 * second

-- The payload of `mintJWT`.
unfoldable pub claims_at : Time → Text → MapClaims
claims_at now user_id = record { user_id = user_id; iat = unix now; exp = unix (add now hour) }

unfoldable pub mint_jwt : JwtPackage → Time → Text → Text → Result Error Text
mint_jwt jwt now secret user_id = jwt.signed_string secret (claims_at now user_id)

-- The token of the call: the one that the operator gave, or a minted one.
unfoldable pub bearer_token : JwtPackage → Time → Text → Text → Text → Result Error Text
bearer_token jwt now token secret user_id =
    if is_empty token then mint_jwt jwt now secret user_id else ok token

status_error : {A S : Type 0} → Result (Code × Text) A × S → Result Error A × S
status_error (ok a, s) = (ok a, s)
status_error (err (code, message), s) = (err (Errors.status code message), s)

-- The methods of `grpcSubmitter`.
module _ {S : Type 0} (bearer : Text) where
  unfoldable pub submit :
      Connection S SubmitApplicationRequest SubmitApplicationResponse
      → SubmitApplicationRequest
      → S
      → Result Error SubmitApplicationResponse × S
  unfolding status_error
  submit invoke req s =
      status_error (submit_application_client invoke (codes "Bearer " ++ bearer) req s)

  unfoldable pub batch_submit :
      Connection S BatchSubmitApplicationRequest BatchSubmitApplicationResponse
      → BatchSubmitApplicationRequest
      → S
      → Result Error BatchSubmitApplicationResponse × S
  unfolding status_error
  batch_submit invoke req s =
      status_error (batch_submit_application_client invoke (codes "Bearer " ++ bearer) req s)

-- How a program ends: it prints a line, or log.Fatalf prints its message and exits with 1.
pub data Exit : Type 0 where
  printed : Text → Exit
  fatal : Text → Exit

pub record DashboardFlags : Type 0 where
  pub addr : Text
  pub args : Args
  pub jwt_secret : Text
  pub token : Text

module _ (jwt : JwtPackage) (rfc3339 : Text → Result Error Time) {S : Type 0} (now : S → Time)
    (dial : Text
      → Result Error (Connection S SubmitApplicationRequest SubmitApplicationResponse)) where
  after_run : Result Error Text × S → Exit × S
  after_run (err e, s) = (fatal (codes "submit: " ++ error_text e), s)
  after_run (ok id, s) = (printed id, s)

  after_dial :
      DashboardFlags
      → Text
      → Result Error (Connection S SubmitApplicationRequest SubmitApplicationResponse)
      → S
      → Exit × S
  unfolding after_run
  after_dial flags bearer (err e) s =
      (fatal (codes "dial " ++ flags.addr ++ codes ": " ++ error_text e), s)
  after_dial flags bearer (ok conn) s =
      after_run (run_submit rfc3339 (now s) (submit bearer conn) flags.args s)

  after_token : DashboardFlags → Result Error Text → S → Exit × S
  unfolding after_dial
  after_token flags (err e) s = (fatal (codes "mint jwt: " ++ error_text e), s)
  after_token flags (ok bearer) s = after_dial flags bearer (dial flags.addr) s

  -- The dashboard client's `main`.
  unfoldable pub dashboard_main : DashboardFlags → S → Exit × S
  unfolding after_token
  dashboard_main flags s =
      after_token flags (bearer_token jwt (now s) flags.token flags.jwt_secret flags.args.user_id) s
