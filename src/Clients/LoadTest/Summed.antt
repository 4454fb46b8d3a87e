-- ===== src/Clients/LoadTest/Summed.antt =====
-- The summary that the scraper prints of a run against the service.
use job_stream.Base.{
  ℕ, suc, ◌+◌, ◌++◌, ◌≡◌, ◌==◌, refl, ap, sym, ◌∙◌, inl, inr, false, ltb, Bool-cases, Option, none,
  some, List, pos, ℤ, Text, is_empty, length, arith, Result, ok, err,
}
use job_stream.Proto.{
  Time, Application, BatchSubmitApplicationRequest, BatchSubmitApplicationResponse,
}
use job_stream.Errors.{Error, Code}
use job_stream.Auth.{Claims, is_exempt, prefix}
use job_stream.Auth.Jwt.{JwtPackage}
use job_stream.RateLimit.{RatePackage}
use job_stream.Strings.{has_prefix}
use job_stream.Canonical.{UrlPackage}
use job_stream.Server.{max_batch_size, batch_submit_application}
use job_stream.Server.Batch.{batch_submit_application-Handled, batch_submit_application-refuses}
use job_stream.Server.Calls.{Services, run}
use job_stream.Stubs.{
  Connection, batch_submit_application_client, batch_submit_application_full_method_name,
}
use job_stream.Service.{Serving, serve_batch_submit_application}
use job_stream.Service.Posts.{Delivers, serve-Granted}
use job_stream.Service.Stored.{method_of-ok}
use job_stream.Scraper
use job_stream.Scraper.{Stats, FakerPackage, new_stats, burst_of, ended}
use job_stream.Scraper.Totals.{IsConsistent, FakerLaws, run-Ends}
use job_stream.Clients.{bearer_token, batch_submit, status_error}
use job_stream.Clients.LoadTest.{
  ends, summary, ScraperFlags, after_run, outside, after_dial, after_token, scraper_main,
}

module _ (lower : ℕ → ℕ) (net_url : UrlPackage) (marshal : Application → Result Error (List ℕ))
    {W : Type 0} (s : Services W) where
  -- A batch that is answered is answered item by item.
  batch_submit_application-length :
      (req : BatchSubmitApplicationRequest) (w w' : W) (resp : BatchSubmitApplicationResponse)
      → run s (batch_submit_application lower net_url marshal req) w ≡ (ok resp, w')
      → length resp.results ≡ length req.applications
  batch_submit_application-length req w w' resp h =
      elim (Bool-cases (length req.applications == 0)) [
        | inl none_there ↦
            let (t, refused) =
              batch_submit_application-refuses lower net_url marshal s req w
                (inl (ground (arith, none_there))) in
            cc (sym h ∙ refused)
        | inr some_there ↦ elim (Bool-cases (ltb max_batch_size (length req.applications))) [
          | inl large ↦
              let (t, refused) =
                batch_submit_application-refuses lower net_url marshal s req w
                  (inr (ground (arith, large))) in
              cc (sym h ∙ refused)
          | inr small ↦
              let (rs, v, answered, handled, same) =
                batch_submit_application-Handled lower net_url marshal s req w
                  (ground (arith, some_there)) (ground (arith, small)) in
              let it : record { results = rs } ≡ resp = cc (sym answered ∙ h) in
              ap (λ (x : BatchSubmitApplicationResponse). length x.results) (sym it) ∙ same
        ]
      ]

status_error-ok :
    {A S : Type 0} (c : Result (Code × Text) A × S) (a : A)
    → (status_error c).0 ≡ ok a
    → c ≡ (ok a, c.1)
unfolding status_error
status_error-ok (ok b, s) a h = cc
status_error-ok (err (code, message), s) a h = cc

batch_submit_application-guarded : is_exempt batch_submit_application_full_method_name ≡ false
unfolding is_exempt has_prefix
batch_submit_application-guarded = refl

module _ (rate : RatePackage) {W : Type 0} (now : W → Time) (new_uuid : W → Text × W)
    (verify : Text → W → Result Error Claims) (s : Services W) (lower : ℕ → ℕ)
    (net_url : UrlPackage) (marshal : Application → Result Error (List ℕ))
    (conn : Connection
      (Serving rate W)
      BatchSubmitApplicationRequest
      BatchSubmitApplicationResponse)
    (delivers : Delivers
      (serve_batch_submit_application rate now new_uuid verify s lower net_url marshal)
      (batch_submit_application_client conn)) where
  -- What the client gets from the service has one result for each application.
  batch_submit-length :
      (bearer : Text) (req : BatchSubmitApplicationRequest) (v : Serving rate W)
      (resp : BatchSubmitApplicationResponse)
      → (batch_submit bearer conn req v).0 ≡ ok resp
      → length resp.results ≡ length req.applications
  unfolding batch_submit serve_batch_submit_application
  batch_submit-length bearer req (logs, l) resp h =
      let call = batch_submit_application_client conn (prefix ++ bearer) req (logs, l) in
      let (ctx, sent, served) =
        delivers.answers (prefix ++ bearer) req (logs, l) call.1 resp
          (status_error-ok call resp h) in
      let g =
        serve-Granted rate now new_uuid verify s batch_submit_application_full_method_name
          (batch_submit_application lower net_url marshal) ctx req logs l resp call.1
          batch_submit_application-guarded served in
      batch_submit_application-length lower net_url marshal s req _ _ resp
        (method_of-ok s (batch_submit_application lower net_url marshal) _ req _ _ resp g.answered)

  module _ (fake : FakerPackage) (laws : FakerLaws fake) (jwt : JwtPackage)
      (clock : Serving rate W → Time × Serving rate W)
      (new_limiter : fake.Float → ℤ → Serving rate W → Serving rate W) (over : ℕ → ℤ → fake.Float)
      (rounded : ℤ → Text) (one_decimal : fake.Float → Text)
      (wait : Serving rate W → Option Error × Serving rate W)
      (ctx_err : Serving rate W → Option Error)
      (dial : Text
        → Result Error (
            Connection
              (Serving rate W)
              BatchSubmitApplicationRequest
              BatchSubmitApplicationResponse)) where
    -- With a positive batch size and rate, a total that is not negative, a user, a token and a
    -- connection, and if no wait fails, the scraper prints the summary of statistics whose sums add
    -- up and that count as many applications as the total says, and exits without an error. The
    -- connection delivers calls to the service as gRPC does, and random indices keep within their
    -- bounds.
    pub scraper_main-Summed :
        (flags : ScraperFlags fake) (b total : ℕ) (bearer : Text) (v : Serving rate W)
        → flags.cfg.batch_size ≡ pos (suc b)
        → flags.cfg.total ≡ pos total
        → fake.at_most flags.cfg.rps fake.float_zero ≡ false
        → is_empty flags.cfg.user_id ≡ false
        → bearer_token jwt (clock v).0 flags.token flags.jwt_secret flags.cfg.user_id ≡ ok bearer
        → dial flags.addr ≡ ok conn
        → ((u : Serving rate W) → (wait u).0 ≡ none)
        → let out =
            scraper_main fake jwt clock new_limiter over rounded one_decimal wait ctx_err dial flags
              v in
          (st : Stats) × (u : Serving rate W) × (out ≡ (
            ends (some (summary fake over rounded one_decimal st (clock u).0)) none,
            (clock u).1,
          ))
          × IsConsistent st
          × (st.apps_attempted ≡ total)
    unfolding scraper_main after_token after_dial after_run outside
    scraper_main-Summed flags b total bearer v size goal fast named token dialled waits =
        let around =
          outside fake jwt clock new_limiter over rounded one_decimal wait ctx_err dial bearer
            conn in
        let end = Scraper.run fake around flags.cfg (clock v).1 in
        let e = run-Ends fake laws around flags.cfg b total (clock v).1 size goal fast named in
        let finished : end.0 ≡ ended e.stats none = e.is_end ∙ ap (ended e.stats) (e.clean waits) in
        let after =
          after_run fake jwt clock new_limiter over rounded one_decimal wait ctx_err dial in
        let sum : e.stats.apps_attempted ≡ 0 + total =
          unfold new_stats in
          e.total (λ req u resp h. batch_submit-length bearer req u resp h) waits in
        (
          e.stats,
          end.1,
          rw (token, dialled) (ap (λ r. after (r, end.1)) finished),
          e.consistent,
          omega (arith, sum),
        )
