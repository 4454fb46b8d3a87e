-- ===== src/Clients/Tokens.antt =====
-- The minted tokens, at the server.
use job_stream.Base.{true, false, ◌≡◌, ◌≢◌, refl, [], ◌++◌, Text, ok}
use job_stream.Proto.{Time}
use job_stream.Rpc.{Context, returned, Handler}
use job_stream.Auth.{is_exempt, prefix, with_user}
use job_stream.Auth.Bearer.{IsSentWith, bearer_from_metadata-sent}
use job_stream.Auth.Jwt.{JwtPackage, JwtLaws, before, unix, add, key_for, verify}
use job_stream.RateLimit.{RatePackage, UserRateLimiter, allow}
use job_stream.Middleware.{chain, recovered}
use job_stream.Service.Callers.{chain-Admits}
use job_stream.Clients.{hour, claims_at, mint_jwt}

module _ (jwt : JwtPackage) (laws : JwtLaws jwt) where
  -- A token verifies for its user, with the secret that it was minted with, for an hour.
  verify-mint_jwt :
      (minted now : Time) (secret user_id token : Text)
      → mint_jwt jwt minted secret user_id ≡ ok token
      → before (unix now) (unix (add minted hour)) ≡ true
      → verify jwt secret now token ≡ ok (record { user_id = user_id })
  unfolding mint_jwt verify claims_at key_for
  verify-mint_jwt minted now secret user_id token made early =
      laws.accepts (key_for secret) secret token (claims_at minted user_id) now refl made early

  -- A command line client's call is served: with the secret of the server the client mints a token
  -- that, sent as it sends it, the server finds and verifies for an hour, and the handler then
  -- runs for the user that the client named, if the name is not empty and the user's limiter
  -- allows the call. golang-jwt accepts what it signed until it expires.
  pub chain-mint_jwt :
      (rate : RatePackage) {W Req Resp : Type 0} (now : W → Time) (full_method : Text)
      (handler : Handler W Req Resp) (ctx : Context) (req : Req) (limits : UserRateLimiter rate)
      (w : W) (minted : Time) (secret user_id token : Text)
      → is_exempt full_method ≡ false
      → mint_jwt jwt minted secret user_id ≡ ok token
      → IsSentWith (prefix ++ token) ctx
      → before (unix (now w)) (unix (add minted hour)) ≡ true
      → user_id ≢ []
      → (allow rate user_id (now w) limits).0 ≡ true
      → let out =
          chain rate now
            (λ raw v. verify jwt secret (now v) raw)
            full_method
            handler
            ctx
            req
            (limits, w) in
        let end = handler (with_user ctx user_id) req w in
        (out.0 ≡ returned (recovered end.0)) × (out.1.1 ≡ end.1)
  chain-mint_jwt rate now full_method handler ctx req limits w minted secret user_id token guarded
        made sent early named allowed =
      chain-Admits rate now (λ raw v. verify jwt secret (now v) raw) full_method handler ctx req
        (limits, w)
        (record {
          raw = token;
          claims = record { user_id = user_id };
          token = bearer_from_metadata-sent token ctx sent;
          verified = verify-mint_jwt minted (now w) secret user_id token made early;
          named = named;
          allowed = allowed;
        })
        guarded
