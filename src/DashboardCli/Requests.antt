-- ===== src/DashboardCli/Requests.antt =====
-- What the requests hold that the command line client builds.
use job_stream.Base.{
  ◌≡◌, ◌≢◌, refl, ap, sym, ◌∙◌, false, inl, inr, [], Text, is_empty, Result, ok, err, arith,
  Bool-cases,
}
use job_stream.Proto.{Time, SubmitApplicationRequest}
use job_stream.Errors.{Error}
use job_stream.DashboardCli.{Args, request_at, after_parse, build_request}

module _ (rfc3339 : Text → Result Error Time) (now : Time) where
  -- What a request that is sent holds.
  pub record IsComplete (a : Args) (req : SubmitApplicationRequest) : Type 0 where
    pub has_user_id : a.user_id ≢ []
    pub has_job_title : a.job_title ≢ []
    pub has_company : a.company ≢ []
    pub has_url : a.url ≢ []
    pub time : Time
    pub copied : req ≡ request_at rfc3339 now a time
    pub time_default : a.applied_at ≡ [] → time ≡ now
    pub time_parsed : a.applied_at ≢ [] → rfc3339 a.applied_at ≡ ok time

  -- A time for the request, with the way in which it was found.
  record IsTimed (a : Args) (req : SubmitApplicationRequest) : Type 0 where
    time : Time
    copied : req ≡ request_at rfc3339 now a time
    time_default : a.applied_at ≡ [] → time ≡ now
    time_parsed : a.applied_at ≢ [] → rfc3339 a.applied_at ≡ ok time

  after_parse-IsTimed :
      (a : Args) (req : SubmitApplicationRequest) (r : Result Error Time)
      → rfc3339 a.applied_at ≡ r
      → a.applied_at ≢ []
      → after_parse rfc3339 now a r ≡ ok req
      → IsTimed a req
  unfolding after_parse
  after_parse-IsTimed a req (err e) asked given h = cc
  after_parse-IsTimed a req (ok t) asked given h = record {
    time = t;
    copied = cc;
    time_default = λ e. absurd (given e);
    time_parsed = λ _. asked;
  }

  nonempty : (s : Text) → is_empty s ≡ false → s ≢ []
  nonempty s h e = cc (sym h ∙ ap is_empty e)

  -- A request is built only of arguments that are all given, and holds them as they are, the
  -- dashboard as its source, and the time that `applied_at` stands for, or the present time if
  -- there is none.
  build_request-IsComplete :
      (a : Args) (req : SubmitApplicationRequest)
      → build_request rfc3339 now a ≡ ok req
      → IsComplete a req
  unfolding build_request
  build_request-IsComplete a req h =
      let user : is_empty a.user_id ≡ false = ground (arith, h) in
      let title : is_empty a.job_title ≡ false = ground (arith, h) in
      let company : is_empty a.company ≡ false = ground (arith, h) in
      let url : is_empty a.url ≡ false = ground (arith, h) in
      let found : IsTimed a req = elim (Bool-cases (is_empty a.applied_at)) [
        | inl missing ↦
            let here : a.applied_at ≡ [] = ground (arith, missing) in
            record {
              time = now;
              copied = cc (rw (user, title, company, url, missing) at h);
              time_default = λ _. refl;
              time_parsed = λ given. absurd (given here);
            }
        | inr given ↦
            after_parse-IsTimed a req (rfc3339 a.applied_at) refl (nonempty a.applied_at given)
              (rw (user, title, company, url, given) at h)
      ] in
      record {
        has_user_id = nonempty a.user_id user;
        has_job_title = nonempty a.job_title title;
        has_company = nonempty a.company company;
        has_url = nonempty a.url url;
        time = found.time;
        copied = found.copied;
        time_default = found.time_default;
        time_parsed = found.time_parsed;
      }
