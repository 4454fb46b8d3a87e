-- ===== src/Middleware/Granted.antt =====
-- What stands behind an answer of the chain that is no error.
use job_stream.Base.{true, ◌≡◌, ◌≢◌, ap, inl, inr, [], Text, Result, ok, err, Bool-cases}
use job_stream.Proto.{Time}
use job_stream.Errors.{Error}
use job_stream.Rpc.{Context, Outcome, returned, panicked, Handler}
use job_stream.Auth.{Claims, bearer_from_metadata, with_user}
use job_stream.RateLimit.{RatePackage, UserRateLimiter, allow}
use job_stream.Middleware.{recovered}
use job_stream.Middleware.Access.{Passed, turned_away, known}

recovered-ok :
    {A : Type 0} → (end : Outcome A) (a : A) → recovered end ≡ ok a → end ≡ returned (ok a)
unfolding recovered
recovered-ok (returned (ok b)) a e = cc
recovered-ok (returned (err x)) a e = cc
recovered-ok (panicked v) a e = cc

module _ (rate : RatePackage) {W Req Resp : Type 0} (now : W → Time)
    (verify : Text → W → Result Error Claims) (handler : Handler W Req Resp) where
  -- A token that verifies and names a user whose limiter allows the call, which the handler has
  -- answered with `resp`.
  pub record Granted (ctx : Context) (req : Req) (s : UserRateLimiter rate × W) (resp : Resp)
      (w' : W) : Type 0 where
    pub raw : Text
    pub claims : Claims
    pub token : bearer_from_metadata ctx ≡ ok raw
    pub verified : verify raw s.1 ≡ ok claims
    pub named : claims.user_id ≢ []
    pub allowed : (allow rate claims.user_id (now s.1) s.0).0 ≡ true
    pub answered : handler (with_user ctx claims.user_id) req s.1 ≡ (returned (ok resp), w')

  pub Passed-Granted :
      (ctx : Context) (req : Req) (s : UserRateLimiter rate × W) (resp : Resp)
      (out : Outcome Resp × (UserRateLimiter rate × W))
      → Passed rate now verify handler ctx req s out
      → out.0 ≡ returned (ok resp)
      → Granted ctx req s resp out.1.1
  Passed-Granted ctx req s resp out (turned_away t) e = cc
  Passed-Granted ctx req s resp out (known raw claims token verified named) e =
      elim (Bool-cases (allow rate claims.user_id (now s.1) s.0).0) [
        | inr denied ↦ cc (rw denied at e)
        | inl granted ↦
            let end = handler (with_user ctx claims.user_id) req s.1 in
            let fine : recovered end.0 ≡ ok resp = cc (rw granted at e) in
            rw granted (record {
              raw = raw;
              claims = claims;
              token = token;
              verified = verified;
              named = named;
              allowed = granted;
              answered = ap (λ o. (o, end.1)) (recovered-ok end.0 resp fine);
            })
      ]
