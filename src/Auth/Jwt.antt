-- ===== src/Auth/Jwt.antt =====
-- services/intake/internal/auth/auth.go: HS256Verifier. golang-jwt is a parameter: the payload that
-- it signs and reads, in seconds of Unix time, and the two calls that the program makes.
use job_stream.Base.{
  ℕ, ◌+◌, ◌/◌, Bool, true, false, ltb, ℤ, pos, negsuc, sub_ℕ, Text, codes, Result, ok, err, ◌++◌,
  ◌≡◌,
}
use job_stream.Proto.{Time}
use job_stream.Errors.{Error, plain}
use job_stream.Auth.{Claims}

abbrev pub second : ℕ
second = 1000000000

-- `t.Unix()`
unfoldable pub unix : Time → ℤ
unix (pos n) = pos (n / second)
unix (negsuc n) = negsuc (n / second)

-- `t.Add(d)` for a duration that is not negative.
unfoldable pub add : Time → ℕ → Time
add (pos n) d = pos (n + d)
add (negsuc n) d = sub_ℕ d (n + 1)

unfoldable pub before : ℤ → ℤ → Bool
before (pos a) (pos b) = ltb a b
before (pos a) (negsuc b) = false
before (negsuc a) (pos b) = true
before (negsuc a) (negsuc b) = ltb b a

-- The methods that a token's header can name, by the types of the package.
pub data SigningMethod : Type 0 where
  hmac : Text → SigningMethod
  other_method : Text → SigningMethod

-- jwt.MapClaims, with the keys that mintJWT sets.
pub record MapClaims : Type 0 where
  pub user_id : Text
  pub iat : ℤ
  pub exp : ℤ

-- `signed_string` is NewWithClaims with SigningMethodHS256 and SignedString. `parse_with_claims` is
-- ParseWithClaims at a time, with a key function and WithExpirationRequired.
pub record JwtPackage : Type 0 where
  pub signed_string : Text → MapClaims → Result Error Text
  pub parse_with_claims : (SigningMethod → Result Error Text) → Time → Text → Result Error Claims

abbrev pub hs256 : SigningMethod
hs256 = hmac (codes "HS256")

-- The key function of `Verify`.
unfoldable pub key_for : Text → SigningMethod → Result Error Text
key_for secret (hmac alg) = ok secret
key_for secret (other_method alg) = err (plain (codes "unexpected signing method: " ++ alg))

module _ (jwt : JwtPackage) where
  open jwt use {signed_string, parse_with_claims}

  -- `Verify`, at the time `now`.
  unfoldable pub verify : Text → Time → Text → Result Error Claims
  verify secret now token_string = parse_with_claims (key_for secret) now token_string

  -- A token that was signed with HS256 is accepted before it expires, by everyone whose key
  -- function gives the same key for HS256.
  pub record JwtLaws : Type 0 where
    pub accepts :
        (key_func : SigningMethod → Result Error Text) (secret token : Text) (claims : MapClaims)
        (now : Time)
        → key_func hs256 ≡ ok secret
        → signed_string secret claims ≡ ok token
        → before (unix now) claims.exp ≡ true
        → parse_with_claims key_func now token ≡ ok (record { user_id = claims.user_id })
