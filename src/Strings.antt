-- ===== src/Strings.antt =====
-- What the program uses of Go's `strings`, `unicode` and `utf8` packages, over lists of runes.
-- `unicode.ToLower` of one rune is a parameter, `lower`, of what needs it.
pub mod Trim
pub mod Suffix
pub mod Prefix
use mathlib.Core.List.{List, [], ◌∷◌, map}
use job_stream.Base.{
  ℕ, ◌+◌, ◌-◌, Bool, true, false, ◌&&◌, ◌||◌, ◌==◌, leb, ltb, Text, text_eq, drop, length,
  if◌then◌else◌,
}

-- unicode.IsSpace
unfoldable pub is_space : ℕ → Bool
is_space c =
    leb 0x09 c && leb c 0x0d
    || c == 0x20
    || c == 0x85
    || c == 0xa0
    || c == 0x1680
    || leb 0x2000 c && leb c 0x200a
    || c == 0x2028
    || c == 0x2029
    || c == 0x202f
    || c == 0x205f
    || c == 0x3000

module _ (p : ℕ → Bool) where
  -- strings.TrimLeftFunc
  unfoldable pub trim_left : Text → Text
  trim_left [] = []
  trim_left (c ∷ s) = let rest = trim_left s in if p c then rest else c ∷ s

  -- One more rune in front of a text that is trimmed on the right.
  abbrev pub keep : ℕ → Text → Text
  keep c [] = if p c then [] else c ∷ []
  keep c (d ∷ s) = c ∷ d ∷ s

  -- strings.TrimRightFunc
  unfoldable pub trim_right : Text → Text
  trim_right [] = []
  trim_right (c ∷ s) = keep c (trim_right s)

-- strings.TrimSpace
unfoldable pub trim_space : Text → Text
trim_space s = trim_right is_space (trim_left is_space s)

-- strings.ToLower, rune by rune.
abbrev pub to_lower : (ℕ → ℕ) → Text → Text
to_lower lower s = map lower s

unfoldable pub has_prefix : Text → Text → Bool
has_prefix s [] = true
has_prefix [] (d ∷ t) = false
has_prefix (c ∷ s) (d ∷ t) = c == d && has_prefix s t

unfoldable pub has_suffix : Text → Text → Bool
has_suffix [] t = text_eq [] t
has_suffix (c ∷ s) t = text_eq (c ∷ s) t || has_suffix s t

-- `s` without the prefix `t`, and `s` itself where it has no such prefix.
unfoldable pub trim_prefix : Text → Text → Text
trim_prefix s t = if has_prefix s t then drop (length t) s else s

-- The bytes of a rune, and of a text: Go's `len`.
abbrev pub rune_len : ℕ → ℕ
rune_len c = if ltb c 0x80 then 1 else if ltb c 0x800 then 2 else if ltb c 0x10000 then 3 else 4

unfoldable pub byte_len : Text → ℕ
byte_len [] = 0
byte_len (c ∷ s) = rune_len c + byte_len s

-- `s[:n]`, for `n` at the beginning of a rune or at the end of the text. Where Go cuts a rune in
-- two, or panics, the whole runes before the cut are the answer here.
unfoldable pub slice_to : ℕ → Text → Text
slice_to n [] = []
slice_to n (c ∷ s) =
    let rest = slice_to (n - rune_len c) s in if leb (rune_len c) n then c ∷ rest else []
