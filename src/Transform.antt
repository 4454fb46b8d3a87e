-- ===== src/Transform.antt =====
-- services/intake/internal/transform/transform.go: from a wire request to the canonical event,
-- one transformer for each source. `now` is the answer of `time.Now().UTC()`.
pub mod Whitespace
pub mod Board
pub mod Tracking
pub mod Sources
use mathlib.Core.List.{flat_map}
use job_stream.Base.{
  ℕ, ◌-◌, Bool, true, false, ◌&&◌, ◌||◌, ◌==◌, Option, none, some, List, [], ◌∷◌, ◌++◌, Text, codes,
  text_eq, any, Result, ok, err, if◌then◌else◌,
}
use job_stream.Strings.{trim_space, trim_right, to_lower, has_suffix, byte_len, slice_to}
use job_stream.Proto.{
  Time, Source, source_unspecified, source_dashboard, source_chrome_ext, source_scraper,
  source_number, source_string, source_to_int32, SubmitApplicationRequest,
}
use job_stream.Errors.{Error, err_unsupported_source, wrapped}
use job_stream.Canonical.{UrlPackage, ApplicationEvent, schema_version}

unfoldable pub applied_at_or_now : Time → Option Time → Time
applied_at_or_now now none = now
applied_at_or_now now (some t) = t

-- `invisibleReplacer`: what it writes for one rune. Each of its old texts is a single rune.
unfoldable pub visible : ℕ → Text
visible r =
    if r == 0xa0
    then 0x20 ∷ []
    else if r == 0x200b || r == 0x200c || r == 0x200d || r == 0xfeff
    then []
    else r ∷ []

unfoldable pub replace_invisible : Text → Text
replace_invisible [] = []
replace_invisible (r ∷ s) = visible r ++ replace_invisible s

-- The runes that the loop of `collapseWhitespace` takes for white space.
unfoldable pub is_blank : ℕ → Bool
is_blank r = r == b' ' || r == 0x09 || r == 0x0a || r == 0x0d

-- The loop: what it writes for the runes that are left, with `prevSpace` as it stands.
unfoldable pub collapse_from : Bool → Text → Text
collapse_from prev_space [] = []
collapse_from prev_space (r ∷ s) =
    let spaced = collapse_from true s in
    let written = collapse_from false s in
    if is_blank r then (if prev_space then spaced else b' ' ∷ spaced) else r ∷ written

unfoldable pub is_ascii_space : ℕ → Bool
is_ascii_space r = r == b' '

unfoldable pub collapse_whitespace : Text → Text
collapse_whitespace s = trim_right is_ascii_space (collapse_from true (replace_invisible s))

abbrev pub board_suffixes : List Text
board_suffixes =
    codes " | LinkedIn"
    ∷ codes " - LinkedIn"
    ∷ codes " | Indeed.com"
    ∷ codes " | Indeed"
    ∷ codes " - Indeed.com"
    ∷ codes " - Indeed"
    ∷ codes " | Glassdoor"
    ∷ codes " - Glassdoor"
    ∷ []

abbrev pub tracking_params : List Text
tracking_params =
    codes "utm_source"
    ∷ codes "utm_medium"
    ∷ codes "utm_campaign"
    ∷ codes "utm_content"
    ∷ codes "utm_term"
    ∷ codes "gclid"
    ∷ codes "fbclid"
    ∷ codes "refId"
    ∷ codes "ref"
    ∷ codes "trk"
    ∷ codes "trackingId"
    ∷ []

unfoldable pub is_tracking : Text → Bool
is_tracking k = any (text_eq k) tracking_params

abbrev pub Values : Type 0
Values = List (Text × List Text)

-- `q.Del(k)`
unfoldable pub del : Text → Values → Values
del k [] = []
del k ((j, v) ∷ q) = let rest = del k q in if text_eq j k then rest else (j, v) ∷ rest

abbrev pub keys : Values → List Text
keys [] = []
keys ((k, _) ∷ q) = k ∷ keys q

-- The loop `for k := range q` with its two variables. The list holds the keys in the order of the
-- iteration, which Go leaves open.
unfoldable pub drop_tracking : List Text → Values → Bool → Values × Bool
drop_tracking [] q dirty = (q, dirty)
drop_tracking (k ∷ ks) q dirty =
    let dropped = drop_tracking ks (del k q) true in
    let kept = drop_tracking ks q dirty in if is_tracking k then dropped else kept

module _ (lower : ℕ → ℕ) where
  -- The loop over the suffixes, for the text `s` and its lower-case form.
  unfoldable pub strip_suffix_in : Text → Text → List Text → Text
  strip_suffix_in s lowered [] = s
  strip_suffix_in s lowered (suf ∷ more) =
      let rest = strip_suffix_in s lowered more in
      if has_suffix lowered (to_lower lower suf)
      then trim_space (slice_to (byte_len s - byte_len suf) s)
      else rest

  unfoldable pub strip_board_suffix : Text → Text
  strip_board_suffix s = strip_suffix_in s (to_lower lower s) board_suffixes

module _ (net_url : UrlPackage) where
  open net_url use {Url, parse, query, encode, with_raw_query, url_string}

  -- The rest of `stripTrackingParams`, after `url.Parse`.
  strip_parsed : Text → Option Url → Text
  strip_parsed raw none = raw
  strip_parsed raw (some u) =
      let (q, dirty) = drop_tracking (keys (query u)) (query u) false in
      if dirty then url_string (with_raw_query (encode q) u) else raw

  unfoldable pub strip_tracking_params : Text → Text
  unfolding strip_parsed
  strip_tracking_params raw = strip_parsed raw (parse raw)

abbrev pub Transformer : Type 0
Transformer = SubmitApplicationRequest → ApplicationEvent

module _ (lower : ℕ → ℕ) (net_url : UrlPackage) (now : Time) where
  unfoldable pub from_dashboard : Transformer
  from_dashboard req = record {
    user_id = trim_space req.user_id;
    job_title = trim_space req.job_title;
    company = trim_space req.company;
    url = trim_space req.url;
    source = source_to_int32 source_dashboard;
    applied_at = applied_at_or_now now req.applied_at;
    schema_version = schema_version;
  }

  unfoldable pub from_chrome_ext : Transformer
  from_chrome_ext req = record {
    user_id = trim_space req.user_id;
    job_title = strip_board_suffix lower (collapse_whitespace req.job_title);
    company = collapse_whitespace req.company;
    url = strip_tracking_params net_url (trim_space req.url);
    source = source_to_int32 source_chrome_ext;
    applied_at = applied_at_or_now now req.applied_at;
    schema_version = schema_version;
  }

  unfoldable pub from_scraper : Transformer
  from_scraper req = record {
    user_id = trim_space req.user_id;
    job_title = collapse_whitespace req.job_title;
    company = collapse_whitespace req.company;
    url = trim_space req.url;
    source = source_to_int32 source_scraper;
    applied_at = applied_at_or_now now req.applied_at;
    schema_version = schema_version;
  }

  -- `For`: the transformer of a source.
  unfoldable pub transformer_for : Source → Result Error Transformer
  transformer_for source_dashboard = ok from_dashboard
  transformer_for source_chrome_ext = ok from_chrome_ext
  transformer_for source_scraper = ok from_scraper
  transformer_for source_unspecified =
      err (wrapped [] err_unsupported_source (codes ": " ++ source_string source_unspecified))
  transformer_for (source_number n) =
      err (wrapped [] err_unsupported_source (codes ": " ++ source_string (source_number n)))
