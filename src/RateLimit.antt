-- ===== src/RateLimit.antt =====
-- services/intake/internal/ratelimit/ratelimit.go: one limiter for each user. The limiters are
-- those of golang.org/x/time/rate, a parameter: `new_limiter` is rate.NewLimiter and `allow_n` is
-- AllowN, which gives the limiter as the call leaves it. The mutex makes each call atomic.
pub mod Users
use job_stream.Base.{
  ℕ, ℤ, Bool, true, false, not, List, [], ◌∷◌, Text, text_eq, Option, none, some, codes, Result,
  err, if◌then◌else◌,
}
use job_stream.Proto.{Time}
use job_stream.Errors
use job_stream.Errors.{Error}
use job_stream.Rpc.{Context, Outcome, returned, Handler}
use job_stream.Auth.{user_from_context}

pub record RatePackage : Type 1 where
  pub Limiter : Type 0
  pub Limit : Type 0
  pub new_limiter : Limit → ℤ → Limiter
  pub allow_n : Limiter → Time → ℕ → Bool × Limiter

module _ (rate : RatePackage) where
  open rate use {Limiter, Limit, new_limiter, allow_n}

  pub record UserRateLimiter : Type 0 where
    pub limiters : List (Text × Limiter)
    pub rps : Limit
    pub burst : ℤ

  -- The map's entry of a user.
  unfoldable pub find : Text → List (Text × Limiter) → Option Limiter
  find user_id [] = none
  find user_id ((u, l) ∷ more) =
      let rest = find user_id more in if text_eq u user_id then some l else rest

  -- The entry of a user is replaced, or added.
  unfoldable pub store : Text → Limiter → List (Text × Limiter) → List (Text × Limiter)
  store user_id l [] = (user_id, l) ∷ []
  store user_id l ((u, l') ∷ more) =
      let rest = store user_id l more in if text_eq u user_id then (u, l) ∷ more else (u, l') ∷ rest

  unfoldable pub new : Limit → ℤ → UserRateLimiter
  new rps burst = record { limiters = []; rps = rps; burst = burst }

  abbrev pub with_limiter : UserRateLimiter → Text → Limiter → UserRateLimiter
  with_limiter s user_id l = record {
    limiters = store user_id l s.limiters;
    rps = s.rps;
    burst = s.burst;
  }

  found_or_new : UserRateLimiter → Text → Option Limiter → Limiter × UserRateLimiter
  found_or_new s user_id (some l) = (l, s)
  found_or_new s user_id none = let l = new_limiter s.rps s.burst in (l, with_limiter s user_id l)

  unfoldable pub limiter_for : Text → UserRateLimiter → Limiter × UserRateLimiter
  unfolding found_or_new
  limiter_for user_id s = found_or_new s user_id (find user_id s.limiters)

  -- The map holds a pointer to the limiter, so that what AllowN changes is in the map.
  unfoldable pub allow : Text → Time → UserRateLimiter → Bool × UserRateLimiter
  allow user_id now s =
      let (l, s') = limiter_for user_id s in
      let (allowed, l') = allow_n l now 1 in (allowed, with_limiter s' user_id l')

  abbrev pub rate_limited : {A : Type 0} → Outcome A
  rate_limited =
      returned (err (Errors.status Errors.resource_exhausted (codes "rate limit exceeded")))

  -- The interceptor, with auth.UserFromContext for `extract`.
  module _ {W Req Resp : Type 0} (now : W → Time) where
    unfoldable pub rate_limit_interceptor :
        Handler W Req Resp → Handler (UserRateLimiter × W) Req Resp
    rate_limit_interceptor handler ctx req (limiter, w) =
        let (user_id, known) = user_from_context ctx in
        let (allowed, limiter') = allow user_id (now w) limiter in
        let (r, w') = handler ctx req w in
        if not known
        then (r, (limiter, w'))
        else if not allowed
        then (rate_limited, (limiter', w))
        else (r, (limiter', w'))
