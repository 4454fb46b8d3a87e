-- ===== src/Canonical/Validation.antt =====
-- What `validate` accepts.
use job_stream.Base.{
  ℕ, ◌≡◌, ◌≢◌, ◌↔◌, ◌⊎◌, inl, inr, refl, ap, sym, ◌∙◌, true, none, some, [], pos, ℤ, Text, codes,
  is_empty, text_eq_iff, arith, Option-cases,
}
use job_stream.Strings.{to_lower}
use job_stream.Proto.{Time}
use job_stream.Canonical.{
  UrlPackage, ApplicationEvent, is_http_url, parsed_is_http, validate, is_zero,
}

is_empty_iff : (s : Text) → (is_empty s ≡ true) ↔ (s ≡ [])
is_empty_iff s = ground arith

is_zero_iff : (n : ℤ) → (is_zero n ≡ true) ↔ (n ≡ pos 0)
is_zero_iff n = ground arith

module _ (lower : ℕ → ℕ) (net_url : UrlPackage) where
  open net_url use {Url, parse, scheme, host}

  -- An absolute http(s) URL: it parses, its scheme is http or https in any case, and it has a host.
  pub record IsHttpUrl (s : Text) : Type 0 where
    pub parsed : Url
    pub parses : parse s ≡ some parsed
    pub http :
        (to_lower lower (scheme parsed) ≡ codes "http")
        ⊎ (to_lower lower (scheme parsed) ≡ codes "https")
    pub has_host : host parsed ≢ []

  -- The rules that the code has for an event. There is none for its time.
  pub record IsAcceptable (e : ApplicationEvent) : Type 0 where
    pub has_user_id : e.user_id ≢ []
    pub has_job_title : e.job_title ≢ []
    pub has_company : e.company ≢ []
    pub has_url : e.url ≢ []
    pub has_http_url : IsHttpUrl e.url
    pub has_source : e.source ≢ pos 0
    pub has_schema_version : e.schema_version ≢ []

  is_http_url_sound : (s : Text) → is_http_url lower net_url s ≡ true → IsHttpUrl s
  unfolding is_http_url
  is_http_url_sound s h = elim (Option-cases (parse s)) [
    | inl failed ↦ cc (ap (parsed_is_http lower net_url) failed)
    | inr (u, parses) ↦
        let answer : parsed_is_http lower net_url (some u) ≡ true =
          sym (ap (parsed_is_http lower net_url) parses) ∙ h in
        record {
          parsed = u;
          parses = parses;
          http = ground (
            arith,
            answer,
            text_eq_iff (to_lower lower (scheme u)) (codes "http"),
            text_eq_iff (to_lower lower (scheme u)) (codes "https"),
          );
          has_host = λ empty. ground (arith, answer, empty);
        }
  ]

  is_http_url_complete : (s : Text) → IsHttpUrl s → is_http_url lower net_url s ≡ true
  unfolding is_http_url
  is_http_url_complete s h = rw h.parses (
      ground (
        arith,
        h.http,
        h.has_host,
        is_empty_iff (host h.parsed),
        text_eq_iff (to_lower lower (scheme h.parsed)) (codes "http"),
        text_eq_iff (to_lower lower (scheme h.parsed)) (codes "https"),
      ))

  pub validate-IsAcceptable :
      (e : ApplicationEvent) → (validate lower net_url e ≡ none) ↔ IsAcceptable e
  unfolding validate
  validate-IsAcceptable e = (
    λ h. record {
      has_user_id = ground (arith, is_empty_iff e.user_id);
      has_job_title = ground (arith, is_empty_iff e.job_title);
      has_company = ground (arith, is_empty_iff e.company);
      has_url = ground (arith, is_empty_iff e.url);
      has_http_url = is_http_url_sound e.url (ground arith);
      has_source = ground (arith, is_zero_iff e.source);
      has_schema_version = ground (arith, is_empty_iff e.schema_version);
    },
    λ a. ground (
      arith,
      is_empty_iff e.user_id,
      is_empty_iff e.job_title,
      is_empty_iff e.company,
      is_empty_iff e.url,
      is_http_url_complete e.url a.has_http_url,
      is_zero_iff e.source,
      is_empty_iff e.schema_version,
      a.has_user_id,
      a.has_job_title,
      a.has_company,
      a.has_url,
      a.has_source,
      a.has_schema_version,
    ),
  )

  -- `validate` returns no error exactly for the events that have a user, a title, a company, an
  -- absolute http(s) URL, a source and a schema version; and its answer is the same whatever the
  -- time of the event is.
  pub validate_iff :
      (e : ApplicationEvent)
      → ((validate lower net_url e ≡ none) ↔ IsAcceptable e)
        × ((t : Time)
            → validate lower net_url (record e { applied_at = t }) ≡ validate lower net_url e)
  unfolding validate
  validate_iff e = (validate-IsAcceptable e, λ t. refl)
