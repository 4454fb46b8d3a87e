-- ===== src/Clients/Dashboard.antt =====
-- What an id that the dashboard client prints stands for.
use job_stream.Base.{
  ℕ, ◌≡◌, refl, ap, ◌∙◌, inl, inr, List, ◌++◌, Text, Result, ok, err, Result-cases,
}
use job_stream.Proto.{Time, Application, SubmitApplicationRequest, SubmitApplicationResponse}
use job_stream.Errors.{Error, Code}
use job_stream.Rpc.{Context}
use job_stream.Auth.{Claims, prefix}
use job_stream.Auth.Bearer.{bearer_from_metadata-sent}
use job_stream.Auth.Jwt.{JwtPackage}
use job_stream.RateLimit.{RatePackage, UserRateLimiter}
use job_stream.Middleware.Granted.{Granted}
use job_stream.Logging.{LogRecord, with_request_id, request_id_for}
use job_stream.Canonical.{UrlPackage}
use job_stream.Server.Calls.{Services}
use job_stream.Server.{submit_application}
use job_stream.Stubs.{Connection, submit_application_client, submit_application_full_method_name}
use job_stream.Service.{Serving, uuid_beside, method_of, serve_submit_application}
use job_stream.Service.Posts.{
  Delivers, serve-Granted, IsSentWith-request_id, submit_application-guarded,
}
use job_stream.DashboardCli.{build_request, run_submit, answered, dispatch}
use job_stream.Clients.{
  DashboardFlags, printed, bearer_token, submit, status_error, after_run, after_dial, after_token,
  dashboard_main,
}

module _ (jwt : JwtPackage) (rfc3339 : Text → Result Error Time) {S : Type 0} (now : S → Time)
    (dial : Text
      → Result Error (Connection S SubmitApplicationRequest SubmitApplicationResponse)) where
  -- The call behind an id that was printed.
  pub record Called (flags : DashboardFlags) (v : S) (id : Text) (after : S) : Type 0 where
    pub bearer : Text
    pub conn : Connection S SubmitApplicationRequest SubmitApplicationResponse
    pub req : SubmitApplicationRequest
    pub resp : SubmitApplicationResponse
    pub token : bearer_token jwt (now v) flags.token flags.jwt_secret flags.args.user_id ≡ ok bearer
    pub dialled : dial flags.addr ≡ ok conn
    pub built : build_request rfc3339 (now v) flags.args ≡ ok req
    pub answer : submit_application_client conn (prefix ++ bearer) req v ≡ (ok resp, after)
    pub same_id : resp.application_id ≡ id

  submit-Called :
      (flags : DashboardFlags) (v after : S) (id bearer : Text)
      (conn : Connection S SubmitApplicationRequest SubmitApplicationResponse)
      (req : SubmitApplicationRequest) (c : Result (Code × Text) SubmitApplicationResponse × S)
      → bearer_token jwt (now v) flags.token flags.jwt_secret flags.args.user_id ≡ ok bearer
      → dial flags.addr ≡ ok conn
      → build_request rfc3339 (now v) flags.args ≡ ok req
      → submit_application_client conn (prefix ++ bearer) req v ≡ c
      → after_run jwt rfc3339 now dial
          (answered rfc3339 (now v) (submit bearer conn) (status_error c))
        ≡ (printed id, after)
      → Called flags v id after
  unfolding after_run answered status_error
  submit-Called flags v after id bearer conn req (err (code, m), w) token dialled built call e = cc
  submit-Called flags v after id bearer conn req (ok resp, w) token dialled built call e = record {
    bearer = bearer;
    conn = conn;
    req = req;
    resp = resp;
    token = token;
    dialled = dialled;
    built = built;
    answer = call ∙ ap (λ x. (ok resp, x)) (cc);
    same_id = cc;
  }

  pub dashboard_main-Called :
      (flags : DashboardFlags) (v after : S) (id : Text)
      → dashboard_main jwt rfc3339 now dial flags v ≡ (printed id, after)
      → Called flags v id after
  unfolding dashboard_main after_token after_dial run_submit dispatch submit
  dashboard_main-Called flags v after id e =
      elim (Result-cases
        (bearer_token jwt (now v) flags.token flags.jwt_secret flags.args.user_id)) [
          | inr (x, bad) ↦ cc (rw bad at e)
          | inl (bearer, token) ↦ elim (Result-cases (dial flags.addr)) [
            | inr (x, bad) ↦ cc (rw (token, bad) at e)
            | inl (conn, dialled) ↦ elim (Result-cases (build_request rfc3339 (now v) flags.args)) [
              | inr (x, bad) ↦ cc (rw (token, dialled, bad) at e)
              | inl (req, built) ↦
                  submit-Called flags v after id bearer conn req _ token dialled built refl
                    (rw (token, dialled, built) at e)
            ]
          ]
        ]

module _ (rate : RatePackage) {W : Type 0} (now : W → Time) (new_uuid : W → Text × W)
    (verify : Text → W → Result Error Claims) (s : Services W) (lower : ℕ → ℕ)
    (net_url : UrlPackage) (marshal : Application → Result Error (List ℕ)) (jwt : JwtPackage)
    (rfc3339 : Text → Result Error Time) (clock : Serving rate W → Time)
    (dial : Text
      → Result Error
          (Connection (Serving rate W) SubmitApplicationRequest SubmitApplicationResponse)) where
  -- The server's part of the call behind an id: what it did for which token.
  pub record Served (flags : DashboardFlags) (logs : List LogRecord) (l : UserRateLimiter rate × W)
      (id : Text) (after : Serving rate W) : Type 0 where
    pub called : Called jwt rfc3339 clock dial flags (logs, l) id after
    pub ctx : Context
    pub granted :
        let req_id = request_id_for (uuid_beside rate new_uuid) ctx l in
        Granted rate now verify
          (method_of s (submit_application lower net_url marshal))
          (with_request_id ctx req_id.0)
          called.req
          req_id.1
          called.resp
          after.1.1
    pub same_token : granted.raw ≡ called.bearer

  -- If the dashboard client prints an id, the server has given it, in answer to the request that
  -- the flags describe: the token that the operator gave, or that was minted from the secret and
  -- the user of the flags, was the one that the server verified, and the limiter of the user that
  -- it names allowed the call. The connection delivers calls as gRPC does.
  pub dashboard_main-Served :
      (flags : DashboardFlags) (logs : List LogRecord) (l : UserRateLimiter rate × W)
      (after : Serving rate W) (id : Text)
      → ((conn : Connection (Serving rate W) SubmitApplicationRequest SubmitApplicationResponse)
          → dial flags.addr ≡ ok conn
          → Delivers
              (serve_submit_application rate now new_uuid verify s lower net_url marshal)
              (submit_application_client conn))
      → dashboard_main jwt rfc3339 clock dial flags (logs, l) ≡ (printed id, after)
      → Served flags logs l id after
  unfolding serve_submit_application
  dashboard_main-Served flags logs l after id delivers e =
      let called = dashboard_main-Called jwt rfc3339 clock dial flags (logs, l) after id e in
      let (ctx, sent, served) =
        (delivers called.conn called.dialled).answers _ _ _ after called.resp called.answer in
      let granted =
        serve-Granted rate now new_uuid verify s submit_application_full_method_name
          (submit_application lower net_url marshal) ctx called.req logs l called.resp after
          submit_application-guarded served in
      let req_id = request_id_for (uuid_beside rate new_uuid) ctx l in
      let found =
        bearer_from_metadata-sent called.bearer (with_request_id ctx req_id.0)
          (IsSentWith-request_id _ ctx req_id.0 sent) in
      record {
        called = called;
        ctx = ctx;
        granted = granted;
        same_token = cc (granted.token, found);
      }
