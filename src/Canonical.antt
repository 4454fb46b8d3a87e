-- ===== src/Canonical.antt =====
-- services/intake/internal/canonical/event.go: the canonical event and its validation.
-- `net/url` is a parameter: what the code reads of a parsed URL, and what it builds from one.
pub mod Validation
use job_stream.Base.{
  ℕ, zero, Bool, true, false, not, ◌&&◌, ◌||◌, Option, none, some, List, ℤ, pos, negsuc, Text,
  codes, is_empty, text_eq, if◌then◌else◌,
}
use job_stream.Strings.{to_lower}
use job_stream.Proto.{Time}
use job_stream.Errors.{
  Error, err_user_id_required, err_job_title_required, err_company_required, err_url_required,
  err_invalid_url, err_source_required, err_schema_required,
}

-- The package net/url, as far as the service calls it.
pub record UrlPackage : Type 1 where
  pub Url : Type 0
  pub parse : Text → Option Url
  pub scheme : Url → Text
  pub host : Url → Text
  -- `u.Query()`, `u.RawQuery = q.Encode()` and `u.String()`.
  pub query : Url → List (Text × List Text)
  pub encode : List (Text × List Text) → Text
  pub with_raw_query : Text → Url → Url
  pub url_string : Url → Text

unfoldable pub schema_version : Text
schema_version = codes "1.0"

pub record ApplicationEvent : Type 0 where
  pub user_id : Text
  pub job_title : Text
  pub company : Text
  pub url : Text
  pub source : ℤ
  pub applied_at : Time
  pub schema_version : Text

-- `e.Source == 0`
abbrev pub is_zero : ℤ → Bool
is_zero (pos zero) = true
is_zero _ = false

module _ (lower : ℕ → ℕ) (net_url : UrlPackage) where
  open net_url use {Url, parse, scheme, host}

  parsed_is_http : Option Url → Bool
  parsed_is_http none = false
  parsed_is_http (some u) =
      let s = to_lower lower (scheme u) in
      if not (text_eq s (codes "http")) && not (text_eq s (codes "https"))
      then false
      else not (is_empty (host u))

  unfoldable pub is_http_url : Text → Bool
  unfolding parsed_is_http
  is_http_url s = parsed_is_http (parse s)

  -- `none` is a nil error.
  unfoldable pub validate : ApplicationEvent → Option Error
  validate e =
      if is_empty e.user_id
      then some err_user_id_required
      else if is_empty e.job_title
      then some err_job_title_required
      else if is_empty e.company
      then some err_company_required
      else if is_empty e.url
      then some err_url_required
      else if not (is_http_url e.url)
      then some err_invalid_url
      else if is_zero e.source
      then some err_source_required
      else if is_empty e.schema_version
      then some err_schema_required
      else none
