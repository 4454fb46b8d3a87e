-- ===== src/Gateway/Forward.antt =====
-- What the gateway forwards, and what its answers say of it.
use job_stream.Base.{
  ℕ, ◌≤◌, ◌≡◌, ◌≢◌, ◌↔◌, refl, ap, leb, ◌⊎◌, sym, ◌∙◌, inl, inr, Option, some, Option-cases,
  Result-cases, List, [], Text, codes, is_empty, text_eq, text_eq_iff, Result, ok, err, arith,
  Bool-cases, length,
}
use job_stream.Proto.{
  Time, Source, source_unspecified, source_value, source_string, SubmitApplicationRequest,
  SubmitApplicationResponse,
}
use job_stream.Errors
use job_stream.Errors.{Error, Code, error_text}
use job_stream.Gateway.{
  SubmitRequest, HttpRequest, HttpResponse, max_body_bytes, read_all, write_error, parse_source,
  parse_applied_at, grpc_code_to_http, after_submit, forwarded, after_time, after_source,
  after_decode, after_body, handle_submit,
}

-- The gateway answers 200 to a gRPC code exactly if the code is OK.
pub grpc_code_to_http-ok : (c : Code) → (grpc_code_to_http c ≡ 200) ↔ (c ≡ Errors.ok)
unfolding grpc_code_to_http
grpc_code_to_http-ok c = ground arith

-- The sources that the gateway can forward.
abbrev pub IsNamed : Source → Type 0
IsNamed s = (source_value (source_string s) ≡ some s) × (s ≢ source_unspecified)

module _ {W : Type 0} (decode : List ℕ → Option SubmitRequest) (rfc3339 : Text → Option Time)
    (now : W → Time)
    (client : Text
      → SubmitApplicationRequest
      → W
      → Result (Code × Text) SubmitApplicationResponse × W) where
  -- The request that the gateway makes of an HTTP request.
  pub record Forwarded (r : HttpRequest) (w : W) : Type 0 where
    pub bytes : List ℕ
    pub input : SubmitRequest
    pub source : Source
    pub applied_at : Time
    pub posted : r.method ≡ codes "POST"
    pub authorized : r.authorization ≢ []
    pub body_read : r.body ≡ ok bytes
    pub body_small : length bytes ≤ max_body_bytes
    pub decoded : decode bytes ≡ some input
    pub source_parsed : parse_source input.source ≡ ok source
    pub time_parsed : parse_applied_at rfc3339 (now w) input.applied_at ≡ ok applied_at

  -- The call of the client for it.
  abbrev pub call :
      (r : HttpRequest) (w : W) → Forwarded r w → Result (Code × Text) SubmitApplicationResponse × W
  call r w f = client r.authorization (forwarded f.input f.source f.applied_at) w

  -- The gateway's own refusal, which leaves the world as it was.
  pub record Refusal (r : HttpRequest) (w : W) (out : HttpResponse × W) : Type 0 where
    pub code : ℕ
    pub message : Text
    pub known : (code ≡ 400) ⊎ (code ≡ 401) ⊎ (code ≡ 405) ⊎ (code ≡ 413)
    pub answer : out ≡ (write_error code message, w)

  abbrev pub Outcome : HttpRequest → W → HttpResponse × W → Type 0
  Outcome r w out =
      ((f : Forwarded r w) × (out ≡ after_submit decode rfc3339 now client (call r w f)))
      ⊎ Refusal r w out

  refuse :
      (r : HttpRequest) (w : W) (out : HttpResponse × W) (c : ℕ) (t : Text)
      → (c ≡ 400) ⊎ (c ≡ 401) ⊎ (c ≡ 405) ⊎ (c ≡ 413)
      → out ≡ (write_error c t, w)
      → Outcome r w out
  refuse r w out c t known e = inr (record { code = c; message = t; known = known; answer = e })

  read_all_sound :
      (body : Result Error (List ℕ)) (bytes : List ℕ)
      → read_all body ≡ some bytes
      → (body ≡ ok bytes) × (length bytes ≤ max_body_bytes)
  unfolding read_all
  read_all_sound (err e) bytes h = cc
  read_all_sound (ok b) bytes h = elim (Bool-cases (leb (length b) max_body_bytes)) [
    | inl small ↦
        let same : b ≡ bytes = cc (rw small at h) in (ap ok same, rw (← same) (ground arith))
    | inr large ↦ cc (rw large at h)
  ]

  module _ (r : HttpRequest) (w : W) (bytes : List ℕ) (posted : r.method ≡ codes "POST")
      (authorized : r.authorization ≢ []) (read : read_all r.body ≡ some bytes) where
    after_decode-Outcome :
        Outcome r w (after_decode decode rfc3339 now client r.authorization (decode bytes) w)
    unfolding after_decode after_source after_time
    after_decode-Outcome = elim (Option-cases (decode bytes)) [
      | inl garbled ↦ refuse r w _ 400 (codes "invalid JSON body") (inl refl) (rw garbled refl)
      | inr (input, decoded) ↦ elim (Result-cases (parse_source input.source)) [
        | inr (e, unknown) ↦ refuse r w _ 400 (error_text e) (inl refl) (rw (decoded, unknown) refl)
        | inl (source, parsed) ↦
            elim (Result-cases (parse_applied_at rfc3339 (now w) input.applied_at)) [
              | inr (e, wrong) ↦
                  refuse r w _ 400 (error_text e) (inl refl) (rw (decoded, parsed, wrong) refl)
              | inl (t, timed) ↦
                  let (body_read, small) = read_all_sound r.body bytes read in
                  inl (
                    record {
                      bytes = bytes;
                      input = input;
                      source = source;
                      applied_at = t;
                      posted = posted;
                      authorized = authorized;
                      body_read = body_read;
                      body_small = small;
                      decoded = decoded;
                      source_parsed = parsed;
                      time_parsed = timed;
                    },
                    rw (decoded, parsed, timed) refl,
                  )
            ]
      ]
    ]

  -- A submission over HTTP either passes every check, and is then answered with what the client
  -- answers to the request that was made of it, under the caller's own authorization; or it is
  -- refused with 400, 401, 405 or 413, and the world is as it was.
  pub handle_submit-Outcome :
      (r : HttpRequest) (w : W) → Outcome r w (handle_submit decode rfc3339 now client r w)
  unfolding handle_submit after_body
  handle_submit-Outcome r w = elim (Bool-cases (text_eq r.method (codes "POST"))) [
    | inr other ↦
        refuse r w _ 405 (codes "method not allowed") (inr (inr (inl refl))) (rw other refl)
    | inl post ↦ elim (Bool-cases (is_empty r.authorization)) [
      | inl nobody ↦
          refuse r w _ 401 (codes "missing authorization header") (inr (inl refl))
            (rw (post, nobody) refl)
      | inr somebody ↦ elim (Option-cases (read_all r.body)) [
        | inl unread ↦
            refuse r w _ 413 (codes "request body too large") (inr (inr (inr refl)))
              (rw (post, somebody, unread) refl)
        | inr (bytes, read) ↦
            rw (post, somebody, read)
              (after_decode-Outcome r w bytes ((text_eq_iff r.method (codes "POST")).0 post)
                (λ e. cc (sym somebody ∙ ap is_empty e)) read)
      ]
    ]
  ]
