-- ===== src/Logging/Records.antt =====
-- The records of the logging interceptor around the recovery interceptor.
use job_stream.Base.{
  ◌≡◌, ◌≢◌, ◌↔◌, refl, ap, sym, ◌∙◌, subst, arith, inl, inr, Bool-cases, none, some, Option-cases,
  List, [], ◌∷◌, Text, is_empty, Result, ok, err,
}
use job_stream.Proto.{Time}
use job_stream.Errors
use job_stream.Errors.{Error, Code, code_string, root, status_code, wrapped}
use job_stream.Rpc.{Context, Outcome, returned, panicked, Handler}
use job_stream.Logging.{
  LogRecord, level_info, level_warn, level_for_code, code_or_unknown, code_of, text_of_error,
  with_request_id, request_id_from_metadata, request_id_for, log_record, logged,
  logging_interceptor,
}
use job_stream.Middleware.{
  status_of_root, or_status, to_grpc_status, recovered, recovery_interceptor,
}

-- The codes of calls that fail by their client's fault: bad input, a duplicate or a missing
-- application, a caller who may not call, one who calls too often or has gone.
abbrev pub IsClientFault : Code → Type 0
IsClientFault Errors.invalid_argument = Unit
IsClientFault Errors.already_exists = Unit
IsClientFault Errors.not_found = Unit
IsClientFault Errors.unauthenticated = Unit
IsClientFault Errors.permission_denied = Unit
IsClientFault Errors.resource_exhausted = Unit
IsClientFault Errors.canceled = Unit
IsClientFault _ = ⊥

-- The code that a client sees: OK with a response, and with an error that of the status.
abbrev pub IsAnswerWith : {Resp : Type 0} → Result Error Resp → Code → Type 0
IsAnswerWith (ok resp) c = c ≡ Errors.ok
IsAnswerWith (err e) c = (t : Text) × (root e ≡ Errors.status c t)

-- A record for the answer `r` to a call.
pub record IsRecordOf {Resp : Type 0} (full_method req_id : Text) (r : Result Error Resp)
    (l : LogRecord) : Type 0 where
  pub method : l.method ≡ full_method
  pub request_id : l.request_id ≡ req_id
  pub named : req_id ≢ []
  pub code : Code
  pub answered : IsAnswerWith r code
  pub status : l.status ≡ code_string code
  pub info : (l.level ≡ level_info) ↔ (code ≡ Errors.ok)
  pub warn : (l.level ≡ level_warn) ↔ IsClientFault code
  pub with_error : (l.error ≡ none) ↔ ((resp : Resp) × (r ≡ ok resp))

level_for_code-info : (c : Code) → (level_for_code c ≡ level_info) ↔ (c ≡ Errors.ok)
unfolding level_for_code
level_for_code-info c = ground arith

level_for_code-warn : (c : Code) → (level_for_code c ≡ level_warn) ↔ IsClientFault c
unfolding level_for_code
level_for_code-warn c = ground arith

text_of_error-none :
    {Resp : Type 0} (r : Result Error Resp)
    → (text_of_error r ≡ none) ↔ ((resp : Resp) × (r ≡ ok resp))
unfolding text_of_error
text_of_error-none (ok resp) = (λ h. (resp, refl), λ h. refl)
text_of_error-none (err e) = (λ h. cc, λ (resp, h). cc)

request_id_for-named :
    {W : Type 0}
    → (new_uuid : W → Text × W) (ctx : Context) (w : W) → ((v : W) → (new_uuid v).0 ≢ [])
    → (request_id_for new_uuid ctx w).0 ≢ []
unfolding request_id_for
request_id_for-named new_uuid ctx w fresh =
    elim (Bool-cases (is_empty (request_id_from_metadata ctx))) [
      | inl missing ↦ rw missing (fresh w)
      | inr given ↦ rw given (λ e. cc (sym given ∙ ap is_empty e))
    ]

-- An error that is a status has the code of the status.
abbrev IsStatus : Error → Type 0
IsStatus e = (c : Code) × (t : Text) × (status_code e ≡ some c) × (root e ≡ Errors.status c t)

status_code-IsStatus : (e : Error) (c : Code) → status_code e ≡ some c → IsStatus e
status_code-IsStatus (wrapped before e after) c h = status_code-IsStatus e c h
status_code-IsStatus (Errors.status c' t) c h = (c', t, refl, refl)
status_code-IsStatus _ c h = cc

status_of_root-IsStatus : (e : Error) → IsStatus (status_of_root e)
unfolding status_of_root
status_of_root-IsStatus Errors.context_canceled = (_, _, refl, refl)
status_of_root-IsStatus Errors.context_deadline_exceeded = (_, _, refl, refl)
status_of_root-IsStatus _ = (_, _, refl, refl)

to_grpc_status-IsStatus : (e : Error) → IsStatus (to_grpc_status e)
unfolding to_grpc_status or_status
to_grpc_status-IsStatus e = elim (Option-cases (status_code e)) [
  | inl other ↦ subst IsStatus (sym (ap (or_status e) other)) (status_of_root-IsStatus (root e))
  | inr (c, h) ↦ subst IsStatus (sym (ap (or_status e) h)) (status_code-IsStatus e c h)
]

recovered-IsAnswerWith :
    {Resp : Type 0} (end : Outcome Resp) → IsAnswerWith (recovered end) (code_of (recovered end))
unfolding recovered code_of code_or_unknown
recovered-IsAnswerWith (returned (ok resp)) = refl
recovered-IsAnswerWith (returned (err e)) =
    let (c, t, coded, rooted) = to_grpc_status-IsStatus e in
    (t, rooted ∙ ap (λ x. Errors.status (code_or_unknown x) t) (sym coded))
recovered-IsAnswerWith (panicked v) = (_, refl)

module _ {W Req Resp : Type 0} (now : W → Time) (new_uuid : W → Text × W) where
  -- Around the recovery interceptor, each call writes exactly one record, whatever the handler
  -- does. It names the method and the code that the client sees, and has a request id that is not
  -- empty and that the handler finds in its context. It is at the level Info exactly for the code
  -- OK, at Warn exactly for a fault of the client, and it has no error exactly if there is a
  -- response. The answer is the one of the handler below. UUIDs are not empty texts.
  pub logging_interceptor-IsRecordOf :
      (full_method : Text) (handler : Handler W Req Resp) (ctx : Context) (req : Req)
      (logs : List LogRecord) (w : W)
      → ((v : W) → (new_uuid v).0 ≢ [])
      → let id = request_id_for new_uuid ctx w in
        let inner = handler (with_request_id ctx id.0) req id.1 in
        let out =
          logging_interceptor now new_uuid full_method
            (recovery_interceptor handler)
            ctx
            req
            (logs, w) in
        (l : LogRecord) × (out ≡ (returned (recovered inner.0), (l ∷ logs, inner.1)))
        × IsRecordOf full_method id.0 (recovered inner.0) l
  unfolding logging_interceptor recovery_interceptor logged log_record
  logging_interceptor-IsRecordOf full_method handler ctx req logs w fresh =
      let id = request_id_for new_uuid ctx w in
      let inner = handler (with_request_id ctx id.0) req id.1 in
      (
        _,
        refl,
        record {
          method = refl;
          request_id = refl;
          named = request_id_for-named new_uuid ctx w fresh;
          code = code_of (recovered inner.0);
          answered = recovered-IsAnswerWith inner.0;
          status = refl;
          info = level_for_code-info _;
          warn = level_for_code-warn _;
          with_error = text_of_error-none _;
        },
      )
