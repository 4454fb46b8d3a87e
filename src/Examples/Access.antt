-- ===== src/Examples/Access.antt =====
-- The theorems on the interceptors, the limiters and the gateway at concrete inputs.
use job_stream.Base.{
  ℕ, ℤ, negsuc, zero, suc, ◌≡◌, refl, true, false, Bool, Option, none, some, List, [], ◌∷◌, Text,
  codes, text_eq, Result, ok, err, pos, ltb, length, if◌then◌else◌,
}
use job_stream.Strings.{has_prefix}
use job_stream.Proto.{Time, SubmitApplicationRequest, SubmitApplicationResponse}
use job_stream.Errors
use job_stream.Errors.{Error, Code}
use job_stream.Rpc.{Context, returned, Handler}
use job_stream.Auth.{Claims, is_exempt}
use job_stream.RateLimit.{RatePackage, UserRateLimiter, new}
use job_stream.RateLimit.Users.{limiter_of, answers_for, times_of, alone, answers_for-alone}
use job_stream.Middleware.{chain}
use job_stream.Middleware.Access.{Passed, chain-Passed}
use job_stream.Gateway.{SubmitRequest, HttpRequest, handle_submit}
use job_stream.Gateway.Forward.{handle_submit-Outcome, grpc_code_to_http-ok}
use job_stream.Gateway.Forward

-- A limiter without refill: the calls that are left.
abbrev allow_once : ℕ → Bool × ℕ
allow_once zero = (false, zero)
allow_once (suc n) = (true, n)

abbrev calls_of : ℤ → ℕ
calls_of (pos n) = n
calls_of (negsuc n) = 0

abbrev counters : RatePackage
counters = record {
  Limiter = ℕ;
  Limit = Unit;
  new_limiter = λ rps burst. calls_of burst;
  allow_n = λ l now n. allow_once l;
}

abbrev verify : Text → ℕ → Result Error Claims
verify raw w =
    if text_eq raw (codes "t1")
    then ok (record { user_id = codes "ann" })
    else err (Errors.plain (codes "bad token"))

abbrev count_calls : Handler ℕ Text Text
count_calls ctx req w = (returned (ok req), suc w)

abbrev caller : Context
caller = record {
  metadata = some (λ k. codes "Bearer t1" ∷ []);
  peer = none;
  user_id = none;
  request_id = none;
}

abbrev submit_method : Text
submit_method = codes "/jobstream.v1.IntakeService/SubmitApplication"

abbrev limits : UserRateLimiter counters
limits = new counters tt (pos 2)

chain-Passed_example :
    Passed counters
      (λ w. pos w)
      verify
      count_calls
      caller
      (codes "hi")
      (limits, 0)
      (chain counters (λ w. pos w) verify submit_method count_calls caller (codes "hi") (limits, 0))
unfolding is_exempt has_prefix
chain-Passed_example =
    chain-Passed counters (λ w. pos w) verify count_calls submit_method caller (codes "hi")
      (limits, 0) refl

abbrev calls : List (Text × Time)
calls =
    (codes "ann", pos 1)
    ∷ (codes "bob", pos 2)
    ∷ (codes "ann", pos 3)
    ∷ (codes "bob", pos 4)
    ∷ (codes "ann", pos 5)
    ∷ []

answers_for-alone_example :
    answers_for counters (codes "ann") calls limits
    ≡ alone counters
        (limiter_of counters (codes "ann") limits)
        (times_of counters (codes "ann") calls)
answers_for-alone_example = answers_for-alone counters (codes "ann") calls limits

abbrev decode : List ℕ → Option SubmitRequest
decode bytes =
    if ltb (length bytes) 3
    then some (record {
      user_id = codes "ann";
      job_title = codes "Baker";
      company = codes "Bread";
      url = codes "https://jobs.example/8";
      source = [];
      applied_at = [];
    })
    else none

abbrev client :
    Text → SubmitApplicationRequest → ℕ → Result (Code × Text) SubmitApplicationResponse × ℕ
client auth req w = (ok (record { application_id = req.user_id }), suc w)

abbrev post : HttpRequest
post = record {
  method = codes "POST";
  path = codes "/v1/applications";
  authorization = codes "Bearer t1";
  body = ok (1 ∷ 2 ∷ []);
}

handle_submit-Outcome_example :
    Forward.Outcome decode
      (λ t. none)
      (λ w. pos w)
      client
      post
      0
      (handle_submit decode (λ t. none) (λ w. pos w) client post 0)
handle_submit-Outcome_example = handle_submit-Outcome decode (λ t. none) (λ w. pos w) client post 0
