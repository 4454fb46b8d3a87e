-- ===== src/Service/Posts.antt =====
-- A submission on its whole way: over HTTP, through the gateway's connection and the interceptors,
-- to the server.
use job_stream.Base.{
  ℕ, false, ◌≡◌, ◌≢◌, refl, ap, subst, inl, inr, Option, List, ◌++◌, Text, Result, ok, err, arith,
}
use job_stream.Strings.{has_prefix}
use job_stream.Proto.{Time, Application, SubmitApplicationRequest, SubmitApplicationResponse}
use job_stream.Errors
use job_stream.Errors.{Error, Code}
use job_stream.Rpc.{Context, Outcome, returned, panicked}
use job_stream.Auth.{Claims, prefix, is_exempt}
use job_stream.Auth.Bearer.{IsSentWith, bearer_from_metadata_sound}
use job_stream.RateLimit.{RatePackage, UserRateLimiter}
use job_stream.Middleware.{chain}
use job_stream.Middleware.Access.{chain-Passed}
use job_stream.Middleware.Granted.{Granted, Passed-Granted}
use job_stream.Logging.{LogRecord, with_request_id, request_id_for, logging_interceptor, logged}
use job_stream.Canonical.{UrlPackage}
use job_stream.Server.Calls.{Program, Services}
use job_stream.Server.{submit_application}
use job_stream.Gateway.{
  SubmitRequest, HttpRequest, HttpResponse, forwarded, submitted, handle_submit, after_submit,
  write_json, write_error,
}
use job_stream.Gateway.Forward.{Forwarded, handle_submit-Outcome, call, grpc_code_to_http-ok}
use job_stream.Stubs.{unary_handler, submit_application_full_method_name}
use job_stream.Service.{
  Serving, uuid_beside, interceptors, method_of, serve, serve_submit_application,
}

logged-answer :
    {W Resp : Type 0} (now : W → Time) (full_method req_id : Text) (ctx : Context) (start : Time)
    (logs : List LogRecord) (out : Outcome Resp × W) (r : Result Error Resp)
    (after : List LogRecord × W)
    → logged now full_method req_id ctx start logs out ≡ (returned r, after)
    → (out.0 ≡ returned r) × (out.1 ≡ after.1)
unfolding logged
logged-answer now full_method req_id ctx start logs (returned q, w) r after e = (cc, cc)
logged-answer now full_method req_id ctx start logs (panicked v, w) r after e = cc

module _ (rate : RatePackage) {W : Type 0} (now : W → Time) (new_uuid : W → Text × W)
    (verify : Text → W → Result Error Claims) (s : Services W) where
  -- A method that answers a call without an error was run for a token that verifies, of a user
  -- whose limiter allows the call.
  pub serve-Granted :
      {Req Resp : Type 0} (full_method : Text) (method : Req → Program (Result Error Resp))
      (ctx : Context) (req : Req) (logs : List LogRecord) (l : UserRateLimiter rate × W)
      (resp : Resp) (after : Serving rate W)
      → is_exempt full_method ≡ false
      → serve rate now new_uuid verify s full_method method ctx (ok req) (logs, l)
        ≡ (returned (ok resp), after)
      → let id = request_id_for (uuid_beside rate new_uuid) ctx l in
        Granted rate now verify
          (method_of s method)
          (with_request_id ctx id.0)
          req
          id.1
          resp
          after.1.1
  unfolding serve unary_handler interceptors logging_interceptor
  serve-Granted full_method method ctx req logs l resp after guarded e =
      let id = request_id_for (uuid_beside rate new_uuid) ctx l in
      let ctx' = with_request_id ctx id.0 in
      let out = chain rate now verify full_method (method_of s method) ctx' req id.1 in
      let (answer, world) =
        logged-answer (λ v. now v.1) full_method id.0 ctx' (now l.1) logs out (ok resp) after e in
      subst (λ v. Granted rate now verify (method_of s method) ctx' req id.1 resp v)
        (ap (λ v. v.1) world)
        (Passed-Granted rate now verify (method_of s method) ctx' req id.1 resp out
          (chain-Passed rate now verify (method_of s method) full_method ctx' req id.1 guarded)
          answer)

pub IsSentWith-request_id :
    (auth : Text) (ctx : Context) (id : Text)
    → IsSentWith auth ctx
    → IsSentWith auth (with_request_id ctx id)
IsSentWith-request_id auth ctx id sent = record {
  md = sent.md;
  metadata = sent.metadata;
  authorization = sent.authorization;
}

pub submit_application-guarded : is_exempt submit_application_full_method_name ≡ false
unfolding is_exempt has_prefix
submit_application-guarded = refl

-- What a connection to the server does: an answer comes from a call that was sent with the
-- authorization, and a call that fails has not the code OK.
pub record Delivers {S Req Resp : Type 0}
    (served : Context → Result Error Req → S → Outcome Resp × S)
    (conn : Text → Req → S → Result (Code × Text) Resp × S) : Type 0 where
  pub answers :
      (auth : Text) (req : Req) (v after : S) (resp : Resp)
      → conn auth req v ≡ (ok resp, after)
      → (ctx : Context) × IsSentWith auth ctx
        × (served ctx (ok req) v ≡ (returned (ok resp), after))
  pub fails :
      (auth : Text) (req : Req) (v after : S) (code : Code) (message : Text)
      → conn auth req v ≡ (err (code, message), after)
      → code ≢ Errors.ok

module _ (rate : RatePackage) {W : Type 0} (now : W → Time) (new_uuid : W → Text × W)
    (verify : Text → W → Result Error Claims) (s : Services W) (lower : ℕ → ℕ)
    (net_url : UrlPackage) (marshal : Application → Result Error (List ℕ))
    (decode : List ℕ → Option SubmitRequest) (rfc3339 : Text → Option Time)
    (clock : Serving rate W → Time)
    (conn : Text
      → SubmitApplicationRequest
      → Serving rate W
      → Result (Code × Text) SubmitApplicationResponse × Serving rate W) where
  -- A post that was answered with 200: what the server did for it.
  pub record Accepted (r : HttpRequest) (logs : List LogRecord) (l : UserRateLimiter rate × W)
      (out : HttpResponse × Serving rate W) : Type 0 where
    pub forwarding : Forwarded decode rfc3339 clock conn r (logs, l)
    pub ctx : Context
    pub resp : SubmitApplicationResponse
    pub granted :
        let id = request_id_for (uuid_beside rate new_uuid) ctx l in
        Granted rate now verify
          (method_of s (submit_application lower net_url marshal))
          (with_request_id ctx id.0)
          (forwarded forwarding.input forwarding.source forwarding.applied_at)
          id.1
          resp
          out.1.1.1
    pub bearer : r.authorization ≡ prefix ++ granted.raw
    pub body : out.0.body ≡ submitted resp.application_id

  call-Accepted :
      (r : HttpRequest) (logs : List LogRecord) (l : UserRateLimiter rate × W)
      (f : Forwarded decode rfc3339 clock conn r (logs, l))
      (c : Result (Code × Text) SubmitApplicationResponse × Serving rate W)
      → Delivers (serve_submit_application rate now new_uuid verify s lower net_url marshal) conn
      → call decode rfc3339 clock conn r (logs, l) f ≡ c
      → (after_submit decode rfc3339 clock conn c).0.code ≡ 200
      → Accepted r logs l (after_submit decode rfc3339 clock conn c)
  unfolding after_submit write_error write_json serve_submit_application
  call-Accepted r logs l f (err (code, message), after) delivers e accepted =
      absurd (delivers.fails _ _ _ after code message e ((grpc_code_to_http-ok code).0 accepted))
  call-Accepted r logs l f (ok resp, after) delivers e accepted =
      let (ctx, sent, served) = delivers.answers _ _ _ after resp e in
      let granted =
        serve-Granted rate now new_uuid verify s submit_application_full_method_name
          (submit_application lower net_url marshal) ctx _ logs l resp after
          submit_application-guarded served in
      let id = request_id_for (uuid_beside rate new_uuid) ctx l in
      record {
        forwarding = f;
        ctx = ctx;
        resp = resp;
        granted = granted;
        bearer =
            bearer_from_metadata_sound r.authorization granted.raw (with_request_id ctx id.0)
              (IsSentWith-request_id r.authorization ctx id.0 sent) granted.token;
        body = refl;
      }

  -- A post to the gateway is answered with 200 only if the server has submitted the application
  -- that the body describes: the authorization was `Bearer` and a token, the token was verified
  -- and names a user, that user's limiter allowed the call, and the id in the answer is the one
  -- that the server gave. The connection delivers calls as gRPC does.
  pub handle_submit-Accepted :
      (r : HttpRequest) (logs : List LogRecord) (l : UserRateLimiter rate × W)
      → Delivers (serve_submit_application rate now new_uuid verify s lower net_url marshal) conn
      → (handle_submit decode rfc3339 clock conn r (logs, l)).0.code ≡ 200
      → Accepted r logs l (handle_submit decode rfc3339 clock conn r (logs, l))
  unfolding write_error write_json
  handle_submit-Accepted r logs l delivers accepted =
      elim (handle_submit-Outcome decode rfc3339 clock conn r (logs, l)) [
        | inl (f, e) ↦
            rw e (call-Accepted r logs l f _ delivers refl (cc (ap (λ o. o.0.code) e, accepted)))
        | inr refusal ↦
            let known = refusal.known in
            let same : refusal.code ≡ 200 = cc (ap (λ o. o.0.code) refusal.answer, accepted) in
            absurd (ground (arith, known, same))
      ]
