-- ===== src/Examples/Inputs.antt =====
-- The theorems on validation, transformation and dedup keys at concrete inputs.
use job_stream.Base.{
  ℕ, ◌==◌, if◌then◌else◌, false, ◌≡◌, ◌≢◌, ◌↔◌, ◌⊎◌, refl, none, [], ◌∷◌, ◌++◌, Text, codes, arith,
  ok, pos, All,
}
use job_stream.Strings.{is_space, trim_left, trim_right, trim_space, byte_len}
use job_stream.Proto.{Time, source_scraper}
use job_stream.Canonical.{ApplicationEvent, validate}
use job_stream.Canonical.Validation.{IsAcceptable, validate_iff}
use job_stream.Transform.{
  collapse_whitespace, replace_invisible, board_suffixes, drop_tracking, keys, Values,
  strip_board_suffix, transformer_for, from_scraper,
}
use job_stream.Transform.Whitespace.{words_from, join, collapse_whitespace-join}
use job_stream.Transform.Board.{Unmarked, IsMarked, strip_board_suffix_cases, strip-first_marker}
use job_stream.Transform.Tracking.{Visits, untracked, drop_tracking-untracked}
use job_stream.Transform.Sources.{IsSupported, IsStamped, transformer_for-IsStamped}
use job_stream.Dedup.{normalize, payload, key}
use job_stream.Dedup.Keys.{payload_inj, key_parts, key-moves_bar}
use job_stream.Examples.Memory.{ascii_lower, links, checksum}
use job_stream.Examples.Laws.{checksum-IsDigest}
use job_stream.Examples.Requests.{other_job}

abbrev event : ApplicationEvent
event = from_scraper ascii_lower links (pos 5) other_job

validate_iff_example :
    ((validate ascii_lower links event ≡ none) ↔ IsAcceptable ascii_lower links event)
    × ((t : Time)
        → validate ascii_lower links (record event { applied_at = t })
          ≡ validate ascii_lower links event)
validate_iff_example = validate_iff ascii_lower links event

abbrev padded : Text
padded = codes "  Go \t Developer\n"

collapse_whitespace-join_example :
    collapse_whitespace padded ≡ join (words_from [] (replace_invisible padded))
collapse_whitespace-join_example = collapse_whitespace-join padded

abbrev titled : Text
titled = codes "Baker | LinkedIn"

strip_board_suffix_cases_example :
    (Unmarked ascii_lower board_suffixes titled × (strip_board_suffix ascii_lower titled ≡ titled))
    ⊎ ((m : IsMarked ascii_lower board_suffixes titled) × (byte_len m.tail ≡ byte_len m.marker
          → strip_board_suffix ascii_lower titled ≡ trim_space m.before))
strip_board_suffix_cases_example = strip_board_suffix_cases ascii_lower titled

-- Lower-casing that knows the Kelvin sign, which has three bytes where `k` has one.
abbrev kelvin_lower : ℕ → ℕ
kelvin_lower c = if c == 0x212a then b'k' else ascii_lower c

-- Two bytes of the marker stay behind.
strip-first_marker_example :
    strip_board_suffix kelvin_lower
      (codes "Baker" ++ (codes " |" ++ (codes " Lin" ++ 0x212a ∷ codes "edIn")))
    ≡ trim_space (codes "Baker" ++ codes " |")
unfolding byte_len
strip-first_marker_example =
    strip-first_marker kelvin_lower (codes "Baker") (codes " |")
      (codes " Lin" ++ 0x212a ∷ codes "edIn") refl refl

abbrev query : Values
query = (codes "q", codes "go" ∷ []) ∷ (codes "ref", codes "mail" ∷ []) ∷ []

query-Visits : Visits (keys query) query
query-Visits k tracked there = there

drop_tracking-untracked_example : (drop_tracking (keys query) query false).0 ≡ untracked query
drop_tracking-untracked_example = drop_tracking-untracked (keys query) query false query-Visits

scraper_chosen :
    transformer_for ascii_lower links (pos 5) source_scraper
    ≡ ok (from_scraper ascii_lower links (pos 5))
unfolding transformer_for
scraper_chosen = refl

transformer_for-IsStamped_example :
    IsSupported ascii_lower links (pos 5) source_scraper
    × IsStamped ascii_lower links (pos 5) source_scraper other_job event
transformer_for-IsStamped_example =
    transformer_for-IsStamped ascii_lower links (pos 5) source_scraper
      (from_scraper ascii_lower links (pos 5)) other_job scraper_chosen

no_bar : All (λ c. c ≢ b'|') (codes "acme")
no_bar = (omega arith, (omega arith, (omega arith, (omega arith, tt))))

payload_inj_example :
    (normalize ascii_lower (codes "Acme ") ≡ normalize ascii_lower (codes "ACME"))
    × (normalize ascii_lower (codes "Baker") ≡ normalize ascii_lower (codes "baker"))
unfolding normalize payload trim_space trim_left trim_right is_space
payload_inj_example =
    payload_inj ascii_lower (codes "Acme ") (codes "Baker") (codes "ACME") (codes "baker") no_bar
      no_bar refl

key_parts_example :
    (codes "ann" ≡ codes "ann")
    × (checksum (payload ascii_lower (codes "Acme") (codes "Baker"))
        ≡ checksum (payload ascii_lower (codes " ACME") (codes "baker")))
unfolding key payload normalize trim_space trim_left trim_right is_space
key_parts_example =
    key_parts ascii_lower checksum checksum-IsDigest (codes "ann") (codes "Acme") (codes "Baker")
      (codes "ann") (codes " ACME") (codes "baker") refl

key-moves_bar_example :
    key ascii_lower checksum (codes "ann") (codes "a" ++ b'|' ∷ codes "b") (codes "c")
    ≡ key ascii_lower checksum (codes "ann") (codes "a") (codes "b" ++ b'|' ∷ codes "c")
unfolding normalize trim_space trim_left trim_right is_space
key-moves_bar_example =
    key-moves_bar ascii_lower checksum (codes "ann") (codes "a") (codes "b") (codes "c") refl refl
      refl refl
