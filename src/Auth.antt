-- ===== src/Auth.antt =====
-- services/intake/internal/auth/auth.go: the interceptor that asks for a token. `verify` is the
-- interface `Verifier`, whose answer depends on the time and on the secret; an interceptor acts on
-- the world `W` of the handler.
pub mod Bearer
pub mod Jwt
use job_stream.Base.{
  Bool, false, not, Option, none, some, List, [], ◌∷◌, Text, codes, is_empty, Result, ok, err,
  if◌then◌else◌,
}
use job_stream.Strings.{has_prefix, trim_prefix}
use job_stream.Errors
use job_stream.Rpc.{Context, Outcome, returned, Handler}
use job_stream.Errors.{Error, plain, error_text}

pub record Claims : Type 0 where
  pub user_id : Text

unfoldable pub user_of : Option Text → Text × Bool
user_of none = ([], false)
user_of (some v) = (v, not (is_empty v))

unfoldable pub user_from_context : Context → Text × Bool
unfolding user_of
user_from_context ctx = user_of ctx.user_id

unfoldable pub is_exempt : Text → Bool
is_exempt full_method = has_prefix full_method (codes "/grpc.health.v1.Health/")

abbrev pub prefix : Text
prefix = codes "Bearer "

bearer_of : List Text → Result Error Text
bearer_of [] = err (plain (codes "missing authorization header"))
bearer_of (v ∷ _) =
    if not (has_prefix v prefix)
    then err (plain (codes "authorization must use Bearer scheme"))
    else ok (trim_prefix v prefix)

bearer_in : Option (Text → List Text) → Result Error Text
unfolding bearer_of
bearer_in none = err (plain (codes "missing metadata"))
bearer_in (some md) = bearer_of (md (codes "authorization"))

unfoldable pub bearer_from_metadata : Context → Result Error Text
unfolding bearer_in
bearer_from_metadata ctx = bearer_in ctx.metadata

abbrev pub with_user : Context → Text → Context
with_user ctx user_id = record {
  metadata = ctx.metadata;
  peer = ctx.peer;
  user_id = some user_id;
  request_id = ctx.request_id;
}

abbrev pub unauthenticated : {A : Type 0} → Text → Outcome A
unauthenticated t = returned (err (Errors.status Errors.unauthenticated t))

module _ {W Req Resp : Type 0} (verify : Text → W → Result Error Claims) where
  -- After `v.Verify`.
  unfoldable pub after_verify :
      Result Error Claims → Handler W Req Resp → Context → Req → W → Outcome Resp × W
  after_verify (err e) handler ctx req w = (unauthenticated (codes "invalid or expired token"), w)
  after_verify (ok claims) handler ctx req w =
      let served = handler (with_user ctx claims.user_id) req w in
      if is_empty claims.user_id
      then (unauthenticated (codes "token missing user_id claim"), w)
      else served

  unfoldable pub after_bearer :
      Result Error Text → Handler W Req Resp → Context → Req → W → Outcome Resp × W
  unfolding after_verify
  after_bearer (err e) handler ctx req w = (unauthenticated (error_text e), w)
  after_bearer (ok raw) handler ctx req w = after_verify (verify raw w) handler ctx req w

  unfoldable pub auth_interceptor : Text → Handler W Req Resp → Handler W Req Resp
  unfolding after_bearer
  auth_interceptor full_method handler ctx req w =
      let checked = after_bearer (bearer_from_metadata ctx) handler ctx req w in
      if is_exempt full_method then handler ctx req w else checked
