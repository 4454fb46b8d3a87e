-- ===== src/Service.antt =====
-- services/intake/cmd/intake/main.go: how the parts become one service. A gRPC call goes through
-- the interceptors to the server; the HTTP gateway is a client of the same server.

pub mod Posts
pub mod Stored
pub mod Startup
pub mod Callers
use job_stream.Base.{ℕ, Option, none, some, List, Text, Result, ok, err}
use job_stream.Proto.{
  Time, Application, SubmitApplicationRequest, SubmitApplicationResponse,
  BatchSubmitApplicationRequest, BatchSubmitApplicationResponse, GetApplicationStatusRequest,
  GetApplicationStatusResponse,
}
use job_stream.Errors.{Error, Code}
use job_stream.Rpc.{Context, Outcome, returned, Handler}
use job_stream.Auth.{Claims}
use job_stream.RateLimit.{RatePackage, UserRateLimiter}
use job_stream.Middleware.{chain}
use job_stream.Logging.{LogRecord, logging_interceptor}
use job_stream.Canonical.{UrlPackage}
use job_stream.Server.Calls.{Program, Services, run}
use job_stream.Server.{submit_application, batch_submit_application, get_application_status}
use job_stream.Stubs.{
  unary_handler, submit_application_full_method_name, batch_submit_application_full_method_name,
  get_application_status_full_method_name,
}

-- The log that was written, the limiters of the users, and the world of the server.
abbrev pub Serving : RatePackage → Type 0 → Type 0
Serving rate W = List LogRecord × (UserRateLimiter rate × W)

abbrev pub uuid_beside :
    (rate : RatePackage) {W : Type 0}
    → (W → Text × W)
    → UserRateLimiter rate × W
    → Text × (UserRateLimiter rate × W)
uuid_beside rate new_uuid (limiter, w) = let (id, w') = new_uuid w in (id, (limiter, w'))

-- A handler without interceptors.
unfoldable pub beside :
    {rate : RatePackage} {W Req Resp : Type 0}
    → Handler W Req Resp
    → Handler (Serving rate W) Req Resp
beside handler ctx req (logs, (limiter, w)) =
    let (end, w') = handler ctx req w in (end, (logs, (limiter, w')))

-- A method of the server, as a handler. None reads the context but for its error.
unfoldable pub method_of :
    {W Req Resp : Type 0} → Services W → (Req → Program (Result Error Resp)) → Handler W Req Resp
method_of s method ctx req w = let (r, w') = run s (method req) w in (returned r, w')

module _ (rate : RatePackage) {W : Type 0} (now : W → Time) (new_uuid : W → Text × W)
    (verify : Text → W → Result Error Claims) where
  -- The chain of interceptors that grpc.NewServer is given.
  unfoldable pub interceptors :
      {Req Resp : Type 0} → Text → Handler W Req Resp → Handler (Serving rate W) Req Resp
  interceptors full_method handler =
      logging_interceptor (λ s. now s.1) (uuid_beside rate new_uuid) full_method
        (chain rate now verify full_method handler)

  -- What the registered service does with a call of each method.
  module _ (s : Services W) where
    unfoldable pub serve :
        {Req Resp : Type 0}
        → Text
        → (Req → Program (Result Error Resp))
        → Context
        → Result Error Req
        → Serving rate W
        → Outcome Resp × Serving rate W
    serve full_method method ctx decoded =
        unary_handler full_method beside (method_of s method) ctx decoded (some (interceptors))

    module _ (lower : ℕ → ℕ) (net_url : UrlPackage)
        (marshal : Application → Result Error (List ℕ)) where
      unfoldable pub serve_submit_application :
          Context
          → Result Error SubmitApplicationRequest
          → Serving rate W
          → Outcome SubmitApplicationResponse × Serving rate W
      serve_submit_application =
          serve submit_application_full_method_name (submit_application lower net_url marshal)

      unfoldable pub serve_batch_submit_application :
          Context
          → Result Error BatchSubmitApplicationRequest
          → Serving rate W
          → Outcome BatchSubmitApplicationResponse × Serving rate W
      serve_batch_submit_application =
          serve batch_submit_application_full_method_name
            (batch_submit_application lower net_url marshal)

    unfoldable pub serve_get_application_status :
        Context
        → Result Error GetApplicationStatusRequest
        → Serving rate W
        → Outcome GetApplicationStatusResponse × Serving rate W
    serve_get_application_status =
        serve get_application_status_full_method_name get_application_status
