-- ===== src/Strings/Suffix.antt =====
-- Prefixes, suffixes and byte positions.
use job_stream.Base.{
  ℕ, ◌+◌, ◌≤◌, true, ◌≡◌, refl, ap, [], ◌∷◌, ◌++◌, map, Text, arith, inl, inr, Bool-cases, text_eq,
  text_eq_iff, length,
}
use job_stream.Strings.{has_suffix, byte_len, slice_to}

pub has_suffix_sound : (s t : Text) → has_suffix s t ≡ true → (before : Text) × (s ≡ before ++ t)
unfolding has_suffix
has_suffix_sound [] t h = ([], (text_eq_iff [] t).0 h)
has_suffix_sound (c ∷ s) t h = elim (Bool-cases (text_eq (c ∷ s) t)) [
  | inl same ↦ ([], (text_eq_iff (c ∷ s) t).0 same)
  | inr other ↦ let (before, e) = has_suffix_sound s t (ground arith) in (c ∷ before, ap (◌∷◌ c) e)
]

pub has_suffix-append : (before t : Text) → has_suffix (before ++ t) t ≡ true
unfolding has_suffix
has_suffix-append [] [] = (text_eq_iff [] []).1 refl
has_suffix-append [] (d ∷ t) = rw ((text_eq_iff (d ∷ t) (d ∷ t)).1 refl)
has_suffix-append (c ∷ before) t = ground (arith, has_suffix-append before t)

pub byte_len-append : (s t : Text) → byte_len (s ++ t) ≡ byte_len s + byte_len t
unfolding byte_len
byte_len-append [] t = omega arith
byte_len-append (c ∷ s) t = omega (arith, byte_len-append s t)

-- Every rune takes a byte at least.
pub length-le-byte_len : (s : Text) → length s ≤ byte_len s
unfolding byte_len
length-le-byte_len [] = omega arith
length-le-byte_len (c ∷ s) = ground (arith, length-le-byte_len s)

slice_to-zero : (s : Text) → slice_to 0 s ≡ []
unfolding slice_to
slice_to-zero [] = refl
slice_to-zero (c ∷ s) = ground arith

-- A slice that ends where `s` ends is `s`.
pub slice_to-append : (s t : Text) → slice_to (byte_len s) (s ++ t) ≡ s
unfolding slice_to byte_len
slice_to-append [] t = slice_to-zero t
slice_to-append (c ∷ s) t = ground (arith, slice_to-append s t)

-- What is sent to `before ++ t` by a map is cut where `before` ends.
pub map-eq-append :
    (f : ℕ → ℕ) (s before t : Text)
    → map f s ≡ before ++ t
    → (x : Text) × (y : Text) × (s ≡ x ++ y) × (map f x ≡ before) × (map f y ≡ t)
map-eq-append f s [] t e = ([], s, refl, refl, e)
map-eq-append f [] (b ∷ before) t e = cc
map-eq-append f (c ∷ s) (b ∷ before) t e =
    let (x, y, cut, front, back) = map-eq-append f s before t (cc) in
    (c ∷ x, y, ap (◌∷◌ c) cut, cc, back)
