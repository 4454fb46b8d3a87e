-- ===== src/Service/Callers.antt =====
-- The calls that get through the interceptors to a handler.
use job_stream.Base.{true, false, ◌≡◌, ◌≢◌, refl, [], Text, is_empty, Result, ok, arith}
use job_stream.Proto.{Time}
use job_stream.Errors.{Error}
use job_stream.Rpc.{Context, returned, Handler}
use job_stream.Auth.{
  Claims, is_exempt, bearer_from_metadata, with_user, after_bearer, after_verify, auth_interceptor,
}
use job_stream.RateLimit.{RatePackage, UserRateLimiter, allow}
use job_stream.Middleware.{chain, recovered, recovery_interceptor}
use job_stream.Middleware.Access.{for_user, rate_limit-for_user}

module _ (rate : RatePackage) {W : Type 0} (now : W → Time)
    (verify : Text → W → Result Error Claims) where
  -- A call that gets to the handler: its token verifies and names a user whose limiter allows it.
  pub record Admits (ctx : Context) (s : UserRateLimiter rate × W) : Type 0 where
    pub raw : Text
    pub claims : Claims
    pub token : bearer_from_metadata ctx ≡ ok raw
    pub verified : verify raw s.1 ≡ ok claims
    pub named : claims.user_id ≢ []
    pub allowed : (allow rate claims.user_id (now s.1) s.0).0 ≡ true

  chain-for_user :
      {Req Resp : Type 0} (full_method : Text) (handler : Handler W Req Resp) (ctx : Context)
      (req : Req) (s : UserRateLimiter rate × W) (a : Admits ctx s)
      → is_exempt full_method ≡ false
      → chain rate now verify full_method handler ctx req s
        ≡ for_user rate now verify handler a.claims.user_id ctx req s
  unfolding chain recovery_interceptor auth_interceptor after_bearer after_verify
  chain-for_user full_method handler ctx req s a guarded =
      let named : is_empty a.claims.user_id ≡ false = ground (arith, a.named) in
      rw (guarded, a.token, a.verified, named)
        (rate_limit-for_user rate now verify handler a.claims.user_id ctx req s a.named)

  pub chain-Admits :
      {Req Resp : Type 0} (full_method : Text) (handler : Handler W Req Resp) (ctx : Context)
      (req : Req) (s : UserRateLimiter rate × W) (a : Admits ctx s)
      → is_exempt full_method ≡ false
      → let out = chain rate now verify full_method handler ctx req s in
        let end = handler (with_user ctx a.claims.user_id) req s.1 in
        (out.0 ≡ returned (recovered end.0)) × (out.1.1 ≡ end.1)
  chain-Admits full_method handler ctx req s a guarded =
      rw (chain-for_user full_method handler ctx req s a guarded, a.allowed) (refl, refl)
