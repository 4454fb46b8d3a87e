-- ===== src/Middleware.antt =====
-- services/intake/internal/middleware: errors.go and recovery.go, and the order in which
-- services/intake/cmd/intake/main.go chains the interceptors. `chain` leaves out the logging
-- interceptor, which writes logs and adds a request id to the context that no other part reads; it
-- is modelled in Logging, and Service.interceptors puts it in its place.
pub mod Access
pub mod Granted
use job_stream.Base.{
  ℕ, Option, none, some, Bool, true, false, List, Text, codes, Result, ok, err, if◌then◌else◌,
}
use job_stream.Proto.{Time}
use job_stream.Errors
use job_stream.Errors.{Error, context_canceled, context_deadline_exceeded, root, status_code}
use job_stream.Rpc.{Context, Outcome, returned, panicked, Handler}
use job_stream.Auth.{Claims, auth_interceptor}
use job_stream.RateLimit.{RatePackage, UserRateLimiter, rate_limit_interceptor}

-- The switch of `ToGRPCStatus`, on the innermost error.
unfoldable pub status_of_root : Error → Error
status_of_root context_canceled = Errors.status Errors.canceled (codes "request canceled")
status_of_root context_deadline_exceeded =
    Errors.status Errors.deadline_exceeded (codes "deadline exceeded")
status_of_root _ = Errors.status Errors.internal (codes "internal error")

unfoldable pub or_status : Error → Option Errors.Code → Error
or_status e (some _) = e
or_status e none = status_of_root (root e)

-- `ToGRPCStatus` of an error; nil stays nil in `recover`.
unfoldable pub to_grpc_status : Error → Error
unfolding or_status
to_grpc_status e = or_status e (status_code e)

-- What the recovery interceptor makes of the handler's end.
unfoldable pub recovered : {A : Type 0} → Outcome A → Result Error A
recovered (returned (ok a)) = ok a
recovered (returned (err e)) = err (to_grpc_status e)
recovered (panicked v) = err (Errors.status Errors.internal (codes "internal server error"))

module _ {W Req Resp : Type 0} where
  unfoldable pub recovery_interceptor : Handler W Req Resp → Handler W Req Resp
  recovery_interceptor handler ctx req w =
      let (end, w') = handler ctx req w in (returned (recovered end), w')

module _ (rate : RatePackage) {W Req Resp : Type 0} (now : W → Time)
    (verify : Text → W → Result Error Claims) where
  -- The chain for one method.
  unfoldable pub chain : Text → Handler W Req Resp → Handler (UserRateLimiter rate × W) Req Resp
  chain full_method handler = recovery_interceptor (
      auth_interceptor (λ raw s. verify raw s.1) full_method
        (rate_limit_interceptor rate now handler))
