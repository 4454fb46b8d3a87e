-- ===== src/Examples/Rig.antt =====
-- The whole service over the stores in memory: limiters that count, tokens that carry their
-- signature, and a connection that calls the server at once.
use job_stream.Base.{
  ℕ, zero, suc, Bool, true, false, ◌&&◌, ◌==◌, ◌≡◌, refl, none, some, [], ◌∷◌, ◌++◌, ℤ, pos, negsuc,
  Text, codes, text_eq, text_eq_refl, Result, ok, err, arith, if◌then◌else◌,
}
use job_stream.Proto.{Time}
use job_stream.Errors
use job_stream.Errors.{Error, Code, plain, error_text}
use job_stream.Rpc.{Context, Outcome, returned, panicked}
use job_stream.Auth.{Claims}
use job_stream.Auth.Jwt
use job_stream.Auth.Jwt.{JwtPackage, JwtLaws, MapClaims, SigningMethod, hs256, before, unix}
use job_stream.RateLimit.{RatePackage, UserRateLimiter, new}
use job_stream.Service.{Serving}
use job_stream.Service.Posts.{Delivers}
use job_stream.Examples.Memory.{sum, Memory}

-- A limiter without refill: the calls that are left.
abbrev allow_once : ℕ → Bool × ℕ
allow_once zero = (false, zero)
allow_once (suc n) = (true, n)

abbrev calls_of : ℤ → ℕ
calls_of (pos n) = n
calls_of (negsuc n) = 0

abbrev pub counters : RatePackage
counters = record {
  Limiter = ℕ;
  Limit = Unit {0};
  new_limiter = λ rps burst. calls_of burst;
  allow_n = λ l now n. allow_once l;
}

abbrev pub limits : UserRateLimiter counters
limits = new counters tt (pos 2)

-- A token is a checksum of the secret, the time at which it expires, and the user.
abbrev stamp : ℤ → Text
stamp (pos n) = 0 ∷ n ∷ []
stamp (negsuc n) = 1 ∷ n ∷ []

abbrev stamped : ℕ → ℕ → ℤ
stamped zero n = pos n
stamped (suc _) n = negsuc n

abbrev token_of : Text → MapClaims → Text
token_of secret claims = sum secret ∷ stamp claims.exp ++ claims.user_id

abbrev opened : Result Error Text → Time → Text → Result Error Claims
opened (ok secret) now (check ∷ sign ∷ n ∷ user_id) =
    if check == sum secret && before (unix now) (stamped sign n)
    then ok (record { user_id = user_id })
    else err (plain (codes "bad token"))
opened _ now _ = err (plain (codes "bad token"))

abbrev pub tokens : JwtPackage
tokens = record {
  signed_string = λ secret claims. ok (token_of secret claims);
  parse_with_claims = λ key_func now token. opened (key_func hs256) now token;
}

stamp-opened :
    (secret user_id : Text) (exp : ℤ) (now : Time)
    → before (unix now) exp ≡ true
    → opened (ok secret) now (sum secret ∷ stamp exp ++ user_id) ≡ ok (record { user_id = user_id })
stamp-opened secret user_id (pos n) now early =
    let same : (sum secret == sum secret) ≡ true = ground arith in rw (same, early) refl
stamp-opened secret user_id (negsuc n) now early =
    let same : (sum secret == sum secret) ≡ true = ground arith in rw (same, early) refl

pub tokens-JwtLaws : JwtLaws tokens
tokens-JwtLaws = record {
  accepts = λ key_func secret token claims now key signed early.
      let it : token_of secret claims ≡ token = cc in
      rw (key, ← it) (stamp-opened secret claims.user_id claims.exp now early);
}

abbrev pub verify : Text → Memory → Result Error Claims
verify raw w = Jwt.verify tokens (codes "s3cret") (pos 7) raw

-- A context with this authorization.
abbrev pub sent : Text → Context
sent authorization = record {
  metadata = some (λ k. if text_eq k (codes "authorization") then authorization ∷ [] else []);
  peer = none;
  user_id = none;
  request_id = none;
}

abbrev answer : {A S : Type 0} → Outcome A × S → Result (Code × Text) A × S
answer (returned (ok a), s) = (ok a, s)
answer (returned (err e), s) = (err (Errors.unknown, error_text e), s)
answer (panicked v, s) = (err (Errors.unknown, v), s)

answer-ok :
    {A S : Type 0} (o : Outcome A × S) (a : A) (s : S)
    → answer o ≡ (ok a, s)
    → o ≡ (returned (ok a), s)
answer-ok (returned (ok b), t) a s e = cc
answer-ok (returned (err x), t) a s e = cc
answer-ok (panicked v, t) a s e = cc

answer-err :
    {A S : Type 0} (o : Outcome A × S) (s : S) (code : Code) (message : Text)
    → answer o ≡ (err (code, message), s)
    → code ≡ Errors.unknown
answer-err (returned (ok b), t) s code message e = cc
answer-err (returned (err x), t) s code message e = cc
answer-err (panicked v, t) s code message e = cc

module _ {S Req Resp : Type 0} (served : Context → Result Error Req → S → Outcome Resp × S) where
  -- The server is called at once.
  abbrev pub direct : Text → Req → S → Result (Code × Text) Resp × S
  direct authorization req s = answer (served (sent authorization) (ok req) s)

  pub direct-Delivers : Delivers served direct
  direct-Delivers = record {
    answers = λ auth req v after resp e. (
      sent auth,
      record {
        md = _;
        metadata = refl;
        authorization = rw (text_eq_refl (codes "authorization")) refl;
      },
      answer-ok (served (sent auth) (ok req) v) resp after e,
    );
    fails = λ auth req v after code message e is_ok.
        cc (answer-err (served (sent auth) (ok req) v) after code message e, is_ok);
  }

abbrev pub now : Memory → Time
now w = pos 7

abbrev pub new_uuid : Memory → Text × Memory
new_uuid w = (codes "u-1", w)

-- The token of this user that expires after an hour.
abbrev pub token_for : Text → Text
token_for user_id = sum (codes "s3cret") ∷ 0 ∷ 3600 ∷ user_id

abbrev pub clock : Serving counters Memory → Time
clock s = pos 7
