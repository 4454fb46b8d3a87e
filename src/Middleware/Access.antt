-- ===== src/Middleware/Access.antt =====
-- Who gets through the chain of interceptors.
use job_stream.Base.{
  false, ◌≡◌, ◌≢◌, refl, ap, sym, ◌∙◌, inl, inr, [], Text, codes, is_empty, Result, ok, err,
  Result-cases, Bool-cases, arith, if◌then◌else◌,
}
use job_stream.Proto.{Time}
use job_stream.Errors.{Error}
use job_stream.Rpc.{Context, Outcome, returned, Handler}
use job_stream.Auth.{
  Claims, user_from_context, user_of, is_exempt, bearer_from_metadata, with_user, unauthenticated,
  after_verify, after_bearer, auth_interceptor,
}
use job_stream.RateLimit.{RatePackage, UserRateLimiter, allow, rate_limited, rate_limit_interceptor}
use job_stream.Middleware.{recovered, recovery_interceptor, to_grpc_status, or_status, chain}

module _ {W Req Resp : Type 0} (verify : Text → W → Result Error Claims) where
  -- The ways through the auth interceptor, for a method that is not exempt.
  data Authorized (handler : Handler W Req Resp) (ctx : Context) (req : Req) (w : W)
      : Outcome Resp × W → Type 0 where
    refused : (t : Text) → Authorized handler ctx req w (unauthenticated t, w)
    admitted :
        (raw : Text) (claims : Claims)
        → bearer_from_metadata ctx ≡ ok raw
        → verify raw w ≡ ok claims
        → claims.user_id ≢ []
        → Authorized handler ctx req w (handler (with_user ctx claims.user_id) req w)

  after_verify-Authorized :
      (handler : Handler W Req Resp) (ctx : Context) (req : Req) (w : W) (raw : Text)
      (v : Result Error Claims)
      → bearer_from_metadata ctx ≡ ok raw
      → verify raw w ≡ v
      → Authorized handler ctx req w (after_verify verify v handler ctx req w)
  unfolding after_verify
  after_verify-Authorized handler ctx req w raw (err e) b h =
      refused (codes "invalid or expired token")
  after_verify-Authorized handler ctx req w raw (ok claims) b h =
      elim (Bool-cases (is_empty claims.user_id)) [
        | inl nameless ↦ rw nameless (refused (codes "token missing user_id claim"))
        | inr named ↦ rw named (admitted raw claims b h (λ e. cc (sym named ∙ ap is_empty e)))
      ]

  auth_interceptor-Authorized :
      (full_method : Text) (handler : Handler W Req Resp) (ctx : Context) (req : Req) (w : W)
      → is_exempt full_method ≡ false
      → Authorized handler ctx req w (auth_interceptor verify full_method handler ctx req w)
  unfolding auth_interceptor after_bearer
  auth_interceptor-Authorized full_method handler ctx req w guarded =
      elim (Result-cases (bearer_from_metadata ctx)) [
        | inl (raw, b) ↦
            rw (guarded, b) (after_verify-Authorized handler ctx req w raw (verify raw w) b refl)
        | inr (e, b) ↦ rw (guarded, b) (refused _)
      ]

module _ (rate : RatePackage) {W Req Resp : Type 0} (now : W → Time)
    (verify : Text → W → Result Error Claims) (handler : Handler W Req Resp) where
  -- What the chain comes to for a user who is authenticated.
  abbrev pub for_user :
      Text → Context → Req → UserRateLimiter rate × W → Outcome Resp × (UserRateLimiter rate × W)
  for_user user_id ctx req (limiter, w) =
      let (allowed, limiter') = allow rate user_id (now w) limiter in
      let (end, w') = handler (with_user ctx user_id) req w in
      if allowed
      then (returned (recovered end), (limiter', w'))
      else (rate_limited rate, (limiter', w))

  -- The ways through the chain.
  pub data Passed (ctx : Context) (req : Req) (s : UserRateLimiter rate × W)
      : Outcome Resp × (UserRateLimiter rate × W) → Type 0 where
    turned_away : (t : Text) → Passed ctx req s (unauthenticated t, s)
    known :
        (raw : Text) (claims : Claims)
        → bearer_from_metadata ctx ≡ ok raw
        → verify raw s.1 ≡ ok claims
        → claims.user_id ≢ []
        → Passed ctx req s (for_user claims.user_id ctx req s)

  pub rate_limit-for_user :
      (user_id : Text) (ctx : Context) (req : Req) (s : UserRateLimiter rate × W)
      → user_id ≢ []
      → recovery_interceptor
          (λ c q v. rate_limit_interceptor rate now handler (with_user c user_id) q v)
          ctx
          req
          s
        ≡ for_user user_id ctx req s
  unfolding rate_limit_interceptor recovery_interceptor user_from_context user_of recovered
      to_grpc_status or_status
  rate_limit-for_user user_id ctx req (limiter, w) named =
      let named' : is_empty user_id ≡ false = ground (arith, named) in
      elim (Bool-cases (allow rate user_id (now w) limiter).0) [
        | inl granted ↦ rw (named', granted) refl
        | inr denied ↦ rw (named', denied) refl
      ]

  Authorized-Passed :
      (ctx : Context) (req : Req) (s : UserRateLimiter rate × W)
      (out : Outcome Resp × (UserRateLimiter rate × W))
      → Authorized (λ raw v. verify raw v.1) (rate_limit_interceptor rate now handler) ctx req s out
      → Passed ctx req s (returned (recovered out.0), out.1)
  unfolding recovered to_grpc_status or_status recovery_interceptor
  Authorized-Passed ctx req s out (refused t) = turned_away t
  Authorized-Passed ctx req s out (admitted raw claims b v named) =
      rw (rate_limit-for_user claims.user_id ctx req s named) (known raw claims b v named)

  -- A method outside the health service is served only for a token that verifies and names a
  -- user: the handler then runs at most once, with that user in its context and if that user's
  -- limiter allows the call; in all other cases the client gets Unauthenticated or
  -- ResourceExhausted, and the handler's world is as it was.
  pub chain-Passed :
      (full_method : Text) (ctx : Context) (req : Req) (s : UserRateLimiter rate × W)
      → is_exempt full_method ≡ false
      → Passed ctx req s (chain rate now verify full_method handler ctx req s)
  unfolding chain recovery_interceptor
  chain-Passed full_method ctx req s guarded = Authorized-Passed ctx req s _ (
      auth_interceptor-Authorized (λ raw v. verify raw v.1) full_method
        (rate_limit_interceptor rate now handler) ctx req s guarded)
