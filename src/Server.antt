-- ===== src/Server.antt =====
-- services/intake/internal/server/server.go: the handlers, over the interfaces of the deduper and
-- of the repository.
pub mod Calls
pub mod World
pub mod Submit
pub mod Batch
pub mod Lookup
pub mod Alone
pub mod Interleave
use job_stream.Base.{
  ℕ, zero, suc, Bool, true, false, not, ◌&&◌, ◌==◌, ltb, Option, none, some, List, [], ◌∷◌, ◌++◌, ℤ,
  pos, Text, codes, is_empty, length, decimal, Result, ok, err, if◌then◌else◌,
}
use job_stream.Proto.{
  Time, Application, SubmitApplicationRequest, SubmitApplicationResponse,
  BatchSubmitApplicationRequest, BatchSubmitApplicationResponse, BatchSubmitResult, application_id,
  error_message, GetApplicationStatusRequest, GetApplicationStatusResponse, source_of, status_of,
  status_to_int32, status_applied,
}
use job_stream.Errors
use job_stream.Errors.{
  Error, err_user_id_required, err_job_title_required, err_company_required, err_url_required,
  err_invalid_url, err_source_required, err_schema_required, err_unsupported_source,
  err_pending_duplicate, err_not_found, wrapped, error_text, root,
}
use job_stream.Canonical.{UrlPackage, ApplicationEvent, validate}
use job_stream.Transform.{Transformer, transformer_for}
use job_stream.Repo.{ApplicationRecord, InsertParams, PayloadBuilder}
use Calls.{
  Program, done, time_now, context_err, dedup_check, dedup_claim, dedup_set, dedup_release, insert,
  select, and_then,
}

unfoldable pub topic_jobs_submitted : Text
topic_jobs_submitted = codes "jobs.submitted"

abbrev pub max_batch_size : ℕ
max_batch_size = 500

-- `err == nil`
abbrev pub is_nil : Option Error → Bool
is_nil none = true
is_nil (some _) = false

-- The message that the payload and the status response are made of.
unfoldable pub to_application : ApplicationRecord → Application
to_application rec = record {
  id = rec.id;
  user_id = rec.user_id;
  job_title = rec.job_title;
  company = rec.company;
  url = rec.url;
  source = source_of rec.source;
  status = status_of rec.status;
  applied_at = some rec.applied_at;
  created_at = some rec.created_at;
  schema_version = rec.schema_version;
}

abbrev pub is_sentinel : Error → Bool
is_sentinel err_user_id_required = true
is_sentinel err_job_title_required = true
is_sentinel err_company_required = true
is_sentinel err_url_required = true
is_sentinel err_invalid_url = true
is_sentinel err_source_required = true
is_sentinel err_schema_required = true
is_sentinel err_unsupported_source = true
is_sentinel _ = false

-- `isValidationErr`: `errors.Is` against each of the sentinels.
unfoldable pub is_validation_err : Error → Bool
is_validation_err e = is_sentinel (root e)

abbrev pub is_pending_duplicate : Error → Bool
is_pending_duplicate err_pending_duplicate = true
is_pending_duplicate _ = false

abbrev pub is_not_found : Error → Bool
is_not_found err_not_found = true
is_not_found _ = false

-- `toGRPCError`; every result is a status error.
unfoldable pub to_grpc_error : Error → Error
unfolding is_validation_err
to_grpc_error e =
    if is_pending_duplicate (root e)
    then Errors.status Errors.already_exists
        (codes "duplicate submission in progress, retry shortly")
    else if is_validation_err e
    then Errors.status Errors.invalid_argument (error_text e)
    else Errors.status Errors.internal (error_text e)

unfoldable pub err_result : Error → BatchSubmitResult
err_result e = error_message (error_text e)

unfoldable pub insert_params : ApplicationEvent → InsertParams
insert_params event = record {
  user_id = event.user_id;
  job_title = event.job_title;
  company = event.company;
  url = event.url;
  source = event.source;
  status = status_to_int32 status_applied;
  applied_at = event.applied_at;
  schema_version = event.schema_version;
}

-- The stages of `submitOne`, from the last to the first. After the insert: commit the id to the
-- deduper, or free the claim. The errors of `Set` and `Release` are dropped.
unfoldable pub after_insert :
    ApplicationEvent → Result Error ApplicationRecord → Program (Result Error Text)
after_insert event (err e) =
    dedup_release event.user_id event.company event.job_title
      λ _. done (err (wrapped (codes "insert: ") e []))
after_insert event (ok rec) =
    dedup_set event.user_id event.company event.job_title rec.id λ _. done (ok rec.id)

-- The second `Check`, whose error is dropped.
unfoldable pub after_recheck : Text × Bool × Option Error → Program (Result Error Text)
after_recheck (id, hit, e) = if hit then done (ok id) else done (err err_pending_duplicate)

unfoldable pub submit_response : Result Error Text → Result Error SubmitApplicationResponse
submit_response (err e) = err (to_grpc_error e)
submit_response (ok id) = ok (record { application_id = id })

unfoldable pub item_result : Result Error Text → BatchSubmitResult
item_result (err e) = err_result e
item_result (ok id) = application_id id

unfoldable pub too_large : ℕ → Text
too_large n =
    codes "batch size " ++ decimal n ++ codes " exceeds maximum of " ++ decimal max_batch_size

-- `marshal` is proto.Marshal.
module _ (marshal : Application → Result Error (List ℕ)) where
  unfoldable pub build_jobs_submitted_payload : PayloadBuilder
  build_jobs_submitted_payload rec = marshal (to_application rec)

  unfoldable pub insert_event : ApplicationEvent → Program (Result Error Text)
  insert_event event =
      insert (insert_params event) topic_jobs_submitted build_jobs_submitted_payload
        (after_insert event)

  unfoldable pub after_claim : ApplicationEvent → Bool × Option Error → Program (Result Error Text)
  after_claim event (claimed, e) =
      if is_nil e && not claimed
      then dedup_check event.user_id event.company event.job_title after_recheck
      else insert_event event

  unfoldable pub after_check :
      ApplicationEvent → Text × Bool × Option Error → Program (Result Error Text)
  after_check event (id, hit, e) =
      if is_nil e && hit
      then done (ok id)
      else dedup_claim event.user_id event.company event.job_title (after_claim event)

  unfoldable pub after_validate : ApplicationEvent → Option Error → Program (Result Error Text)
  after_validate event (some e) = done (err e)
  after_validate event none =
      dedup_check event.user_id event.company event.job_title (after_check event)

-- `lower` is unicode.ToLower, `net_url` the package net/url.
module _ (lower : ℕ → ℕ) (net_url : UrlPackage)
    (marshal : Application → Result Error (List ℕ)) where
  unfoldable pub after_for :
      SubmitApplicationRequest → Result Error Transformer → Program (Result Error Text)
  after_for req (err e) = done (err e)
  after_for req (ok tf) = after_validate marshal (tf req) (validate lower net_url (tf req))

  -- `submitOne`. Reading the clock before the transformer is chosen is not seen by any caller.
  unfoldable pub submit_one : SubmitApplicationRequest → Program (Result Error Text)
  submit_one req = time_now λ now. after_for req (transformer_for lower net_url now req.source)

  unfoldable pub submit_application :
      SubmitApplicationRequest → Program (Result Error SubmitApplicationResponse)
  unfolding submit_response
  submit_application req = and_then (submit_one req) λ r. done (submit_response r)

  -- One round of the batch's loop.
  unfoldable pub batch_item : SubmitApplicationRequest → Option Error → Program BatchSubmitResult
  batch_item item (some e) = done (err_result e)
  batch_item item none = and_then (submit_one item) λ r. done (item_result r)

  -- The loop, in the order of the input.
  unfoldable pub batch_loop : List SubmitApplicationRequest → Program (List BatchSubmitResult)
  batch_loop [] = done []
  batch_loop (item ∷ apps) =
      context_err
        λ e. and_then (batch_item item e) λ r. and_then (batch_loop apps) λ rs. done (r ∷ rs)

  unfoldable pub batch_submit_application :
      BatchSubmitApplicationRequest → Program (Result Error BatchSubmitApplicationResponse)
  batch_submit_application req =
      if length req.applications == 0
      then done
          (err (Errors.status Errors.invalid_argument (codes "applications must not be empty")))
      else if ltb max_batch_size (length req.applications)
      then done (err (Errors.status Errors.invalid_argument (too_large (length req.applications))))
      else and_then (batch_loop req.applications) λ rs. done (ok (record { results = rs }))

unfoldable pub status_response :
    Result Error ApplicationRecord → Result Error GetApplicationStatusResponse
status_response (err e) =
    if is_not_found (root e)
    then err (Errors.status Errors.not_found (codes "application not found"))
    else err (Errors.status Errors.internal (codes "get application: " ++ error_text e))
status_response (ok rec) = ok (record { application = to_application rec })

unfoldable pub get_application_status :
    GetApplicationStatusRequest → Program (Result Error GetApplicationStatusResponse)
get_application_status req =
    if is_empty req.application_id
    then done (err (Errors.status Errors.invalid_argument (codes "application_id is required")))
    else if is_empty req.user_id
    then done (err (Errors.status Errors.invalid_argument (codes "user_id is required")))
    else select req.application_id req.user_id λ r. done (status_response r)
