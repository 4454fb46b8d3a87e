-- ===== src/Stubs.antt =====
-- gen/go/jobstream/v1/intake_grpc.pb.go: the generated server handlers and client methods. A
-- connection, `invoke`, is grpc-go's; so is `decoded`, what `dec` makes of the message's bytes.
use job_stream.Base.{Option, none, some, Text, codes, Result, ok, err}
use job_stream.Errors.{Error, Code}
use job_stream.Rpc.{Context, Outcome, returned, Handler}
use job_stream.Proto.{
  SubmitApplicationRequest, SubmitApplicationResponse, BatchSubmitApplicationRequest,
  BatchSubmitApplicationResponse, GetApplicationStatusRequest, GetApplicationStatusResponse,
}

abbrev pub submit_application_full_method_name : Text
submit_application_full_method_name = codes "/jobstream.v1.IntakeService/SubmitApplication"

abbrev pub batch_submit_application_full_method_name : Text
batch_submit_application_full_method_name =
    codes "/jobstream.v1.IntakeService/BatchSubmitApplication"

abbrev pub get_application_status_full_method_name : Text
get_application_status_full_method_name = codes "/jobstream.v1.IntakeService/GetApplicationStatus"

-- A unary interceptor. What it keeps itself stands beside the world `W` of the handler, in `S`.
abbrev pub Interceptor : Type 0 → Type 0 → Type 0 → Type 0 → Type 0
Interceptor W S Req Resp = Text → Handler W Req Resp → Handler S Req Resp

-- `beside` runs a handler that no interceptor is around.
module _ {W S : Type 0} where
  -- The generated handler of one method.
  unfoldable pub unary_handler :
      {Req Resp : Type 0}
      → Text
      → (Handler W Req Resp → Handler S Req Resp)
      → Handler W Req Resp
      → Context
      → Result Error Req
      → Option (Interceptor W S Req Resp)
      → S
      → Outcome Resp × S
  unary_handler full_method beside srv ctx (err e) interceptor s = (returned (err e), s)
  unary_handler full_method beside srv ctx (ok req) none s = beside srv ctx req s
  unary_handler full_method beside srv ctx (ok req) (some interceptor) s =
      interceptor full_method srv ctx req s

-- A client's connection: a call of a method with the authorization that is sent along. An error of
-- a call is a status, its code and its message.
abbrev pub Connection : Type 0 → Type 0 → Type 0 → Type 0
Connection S Req Resp = Text → Text → Req → S → Result (Code × Text) Resp × S

module _ {S : Type 0} where
  unfoldable pub submit_application_client :
      Connection S SubmitApplicationRequest SubmitApplicationResponse
      → Text
      → SubmitApplicationRequest
      → S
      → Result (Code × Text) SubmitApplicationResponse × S
  submit_application_client invoke = invoke submit_application_full_method_name

  unfoldable pub batch_submit_application_client :
      Connection S BatchSubmitApplicationRequest BatchSubmitApplicationResponse
      → Text
      → BatchSubmitApplicationRequest
      → S
      → Result (Code × Text) BatchSubmitApplicationResponse × S
  batch_submit_application_client invoke = invoke batch_submit_application_full_method_name

  unfoldable pub get_application_status_client :
      Connection S GetApplicationStatusRequest GetApplicationStatusResponse
      → Text
      → GetApplicationStatusRequest
      → S
      → Result (Code × Text) GetApplicationStatusResponse × S
  get_application_status_client invoke = invoke get_application_status_full_method_name
