-- ===== src/Service/Stored.antt =====
-- A post to the gateway and the database: what an answer 200 says of the rows.
use job_stream.Base.{
  ℕ, ◌≡◌, sym, subst, inl, inr, Bool-cases, Option, List, [], ◌∷◌, Text, is_empty, Result, ok,
}
use job_stream.Proto.{Time, Application, SubmitApplicationRequest, SubmitApplicationResponse}
use job_stream.Errors.{Error, Code}
use job_stream.Rpc.{Context, Outcome, returned}
use job_stream.Auth.{Claims, with_user}
use job_stream.RateLimit.{RatePackage, UserRateLimiter}
use job_stream.Logging.{LogRecord, with_request_id, request_id_for, request_id_from_metadata}
use job_stream.Canonical.{UrlPackage, ApplicationEvent}
use job_stream.Dedup.Contract.{Entry}
use job_stream.Repo.{ApplicationRecord}
use job_stream.Server.Calls.{Program, Services, run}
use job_stream.Server.{submit_application}
use job_stream.Server.World.{WorldLaws, ids_at}
use job_stream.Server.Interleave.Unique.{Agrees}
use job_stream.Server.Alone.{key_at_event, Becomes, Unchanged}
use job_stream.Server.Alone.Rows.{submit_application-row}
use job_stream.Gateway.{SubmitRequest, HttpRequest, HttpResponse, forwarded, handle_submit}
use job_stream.Service.{Serving, uuid_beside, method_of, serve_submit_application}
use job_stream.Service.Posts.{Delivers, Accepted, handle_submit-Accepted}

returned-ok :
    {W Resp : Type 0} (out : Result Error Resp × W) (resp : Resp) (w' : W)
    → ◌≡◌ {A = Outcome Resp × W} (returned out.0, out.1) (returned (ok resp), w')
    → out ≡ (ok resp, w')
returned-ok (r, v) resp w' e = cc

pub method_of-ok :
    {W Req Resp : Type 0} (s : Services W) (method : Req → Program (Result Error Resp))
    (ctx : Context) (req : Req) (w w' : W) (resp : Resp)
    → method_of s method ctx req w ≡ (returned (ok resp), w')
    → run s (method req) w ≡ (ok resp, w')
unfolding method_of
method_of-ok s method ctx req w w' resp h = returned-ok (run s (method req) w) resp w' h

module _ {W : Type 0} (key_of : Text → Text → Text → Text) (entries : W → Text → Entry)
    (rows : W → List ApplicationRecord) where
  -- The deduper and the rows agree at every key.
  abbrev pub InStep : W → Type 0
  InStep w = (k : Text) → Agrees (entries w k) (ids_at key_of (rows w) k)

  Unchanged-InStep : (w w' : W) → Unchanged key_of entries rows w w' → InStep w → InStep w'
  Unchanged-InStep w w' same h k =
      subst (λ rs. Agrees (entries w' k) (ids_at key_of rs k)) (sym same.same_rows)
        (subst (λ ent. Agrees ent (ids_at key_of (rows w) k)) (sym (same.same_entries k)) (h k))

  -- A new request id leaves the stores alone.
  request_id_for-InStep :
      (rate : RatePackage) (new_uuid : W → Text × W) (ctx : Context) (l : UserRateLimiter rate × W)
      → ((v : W) → Unchanged key_of entries rows v (new_uuid v).1)
      → InStep l.1
      → InStep (request_id_for (uuid_beside rate new_uuid) ctx l).1.1
  unfolding request_id_for
  request_id_for-InStep rate new_uuid ctx (limiter, w) apart h =
      elim (Bool-cases (is_empty (request_id_from_metadata ctx))) [
        | inl missing ↦ rw missing (Unchanged-InStep w (new_uuid w).1 (apart w) h)
        | inr given ↦ rw given h
      ]

module _ (rate : RatePackage) {W : Type 0} (now : W → Time) (new_uuid : W → Text × W)
    (verify : Text → W → Result Error Claims) (s : Services W) (lower : ℕ → ℕ)
    (net_url : UrlPackage) (marshal : Application → Result Error (List ℕ))
    (decode : List ℕ → Option SubmitRequest) (rfc3339 : Text → Option Time)
    (clock : Serving rate W → Time)
    (conn : Text
      → SubmitApplicationRequest
      → Serving rate W
      → Result (Code × Text) SubmitApplicationResponse × Serving rate W)
    (key_of : Text → Text → Text → Text) (entries : W → Text → Entry)
    (rows : W → List ApplicationRecord) where
  -- A post that was accepted, and the row that stands behind its answer.
  pub record Stored (r : HttpRequest) (logs : List LogRecord) (l : UserRateLimiter rate × W)
      (out : HttpResponse × Serving rate W) : Type 0 where
    pub accepted :
        Accepted rate now new_uuid verify s lower net_url marshal decode rfc3339 clock conn r logs l
          out
    pub event : ApplicationEvent
    pub becomes :
        let id = request_id_for (uuid_beside rate new_uuid) accepted.ctx l in
        Becomes lower net_url
          (s.now id.1.1)
          (forwarded accepted.forwarding.input accepted.forwarding.source
            accepted.forwarding.applied_at)
          event
    pub row :
        ids_at key_of (rows out.1.1.1) (key_at_event key_of entries rows event)
        ≡ accepted.resp.application_id ∷ []

  -- A post to the gateway is answered with 200 only if the server has stored the application that
  -- the body describes: the authorization was `Bearer` and a token, the token was verified and
  -- names a user, that user's limiter allowed the call, the request became a valid event, and the
  -- row with the id of the answer is the one row of the event's key. The connection delivers calls
  -- as gRPC does; the deduper and the repository keep their contracts and agree at every key
  -- before; no other request comes in between; and new UUIDs leave the stores alone.
  pub handle_submit-Stored :
      (laws : WorldLaws s key_of entries rows)
      → ((v : W) → Unchanged key_of entries rows v (new_uuid v).1)
      → (r : HttpRequest) (logs : List LogRecord) (l : UserRateLimiter rate × W)
      → Delivers (serve_submit_application rate now new_uuid verify s lower net_url marshal) conn
      → InStep key_of entries rows l.1
      → (handle_submit decode rfc3339 clock conn r (logs, l)).0.code ≡ 200
      → Stored r logs l (handle_submit decode rfc3339 clock conn r (logs, l))
  handle_submit-Stored laws apart r logs l delivers in_step answered =
      let a =
        handle_submit-Accepted rate now new_uuid verify s lower net_url marshal decode rfc3339 clock
          conn r logs l delivers answered in
      let id = request_id_for (uuid_beside rate new_uuid) a.ctx l in
      let (event, becomes, row) =
        submit_application-row lower net_url marshal s key_of entries rows laws
          (forwarded a.forwarding.input a.forwarding.source a.forwarding.applied_at) id.1.1 _ a.resp
          (request_id_for-InStep key_of entries rows rate new_uuid a.ctx l apart in_step)
          (method_of-ok s (submit_application lower net_url marshal)
            (with_user (with_request_id a.ctx id.0) a.granted.claims.user_id) _ id.1.1 _ a.resp
            a.granted.answered) in
      record { accepted = a; event = event; becomes = becomes; row = row }
