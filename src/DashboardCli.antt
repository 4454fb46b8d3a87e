-- ===== src/DashboardCli.antt =====
-- sources/dashboard-cli/internal/submit/submit.go: one submission from the command line. time.Parse
-- with RFC 3339 is a parameter, and so is the gRPC client, which acts on a world.
pub mod Requests
use job_stream.Base.{Option, some, List, [], Text, codes, is_empty, Result, ok, err, if◌then◌else◌}
use job_stream.Proto.{Time, source_dashboard, SubmitApplicationRequest, SubmitApplicationResponse}
use job_stream.Errors.{Error, plain, wrapped}

pub record Args : Type 0 where
  pub user_id : Text
  pub job_title : Text
  pub company : Text
  pub url : Text
  pub applied_at : Text

module _ (rfc3339 : Text → Result Error Time) (now : Time) where
  unfoldable pub request_at : Args → Time → SubmitApplicationRequest
  request_at a t = record {
    user_id = a.user_id;
    job_title = a.job_title;
    company = a.company;
    url = a.url;
    source = source_dashboard;
    applied_at = some t;
  }

  unfoldable pub after_parse : Args → Result Error Time → Result Error SubmitApplicationRequest
  after_parse a (err e) = err (wrapped (codes "--applied-at: ") e [])
  after_parse a (ok t) = ok (request_at a t)

  unfoldable pub build_request : Args → Result Error SubmitApplicationRequest
  build_request a =
      if is_empty a.user_id
      then err (plain (codes "--user-id is required"))
      else if is_empty a.job_title
      then err (plain (codes "--job-title is required"))
      else if is_empty a.company
      then err (plain (codes "--company is required"))
      else if is_empty a.url
      then err (plain (codes "--url is required"))
      else if is_empty a.applied_at
      then ok (request_at a now)
      else after_parse a (rfc3339 a.applied_at)

  module _ {W : Type 0}
      (submit : SubmitApplicationRequest → W → Result Error SubmitApplicationResponse × W) where
    unfoldable pub answered : Result Error SubmitApplicationResponse × W → Result Error Text × W
    answered (err e, w) = (err e, w)
    answered (ok resp, w) = (ok resp.application_id, w)

    unfoldable pub dispatch : Result Error SubmitApplicationRequest → W → Result Error Text × W
    dispatch (err e) w = (err e, w)
    dispatch (ok req) w = answered (submit req w)

    -- `Run`
    unfoldable pub run_submit : Args → W → Result Error Text × W
    unfolding answered dispatch
    run_submit a w = dispatch (build_request a) w
