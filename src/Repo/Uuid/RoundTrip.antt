-- ===== src/Repo/Uuid/RoundTrip.antt =====
-- Reading a canonical UUID back.
use job_stream.Base.{
  ℕ, zero, suc, ◌+◌, ◌-◌, ◌*◌, ◌/◌, ◌%◌, ◌≤◌, ◌<◌, ◌≡◌, ◌≢◌, refl, ap, ◌∙◌, List, [], ◌∷◌, ◌++◌,
  Text, arith, All, ltb, ◌==◌, length, take, drop, if◌then◌else◌,
}
use job_stream.Dedup.{hex_digit, hex}
use job_stream.Dedup.Keys.{IsByte, length-hex}
use job_stream.Repo.Uuid.{slice, uuid_to_string}

-- A text without its hyphens.
unfoldable pub undash : Text → Text
undash [] = []
undash (c ∷ s) = let rest = undash s in if c == b'-' then rest else c ∷ rest

-- The value of a lower-case hexadecimal digit.
abbrev pub digit_value : ℕ → ℕ
digit_value c = if ltb c b'a' then c - b'0' else 10 + (c - b'a')

-- The bytes that pairs of digits spell.
unfoldable pub unhex : Text → List ℕ
unhex [] = []
unhex (a ∷ []) = []
unhex (a ∷ b ∷ s) = (16 * digit_value a + digit_value b) ∷ unhex s

abbrev NoDash : Text → Type 0
NoDash = All (λ c. c ≢ b'-')

undash-append : (s t : Text) → undash (s ++ t) ≡ undash s ++ undash t
unfolding undash
undash-append [] t = refl
undash-append (c ∷ s) t = ground (arith, undash-append s t)

undash_of_NoDash : (s : Text) → NoDash s → undash s ≡ s
unfolding undash
undash_of_NoDash [] h = refl
undash_of_NoDash (c ∷ s) (h, hs) = ground (arith, undash_of_NoDash s hs, h)

take-NoDash : (n : ℕ) (s : Text) → NoDash s → NoDash (take n s)
take-NoDash zero s h = tt
take-NoDash (suc n) [] h = tt
take-NoDash (suc n) (c ∷ s) (h, hs) = (h, take-NoDash n s hs)

drop-NoDash : (n : ℕ) (s : Text) → NoDash s → NoDash (drop n s)
drop-NoDash zero s h = h
drop-NoDash (suc n) [] h = tt
drop-NoDash (suc n) (c ∷ s) (h, hs) = drop-NoDash n s hs

hex_digit-ne-dash : (n : ℕ) → hex_digit n ≢ b'-'
unfolding hex_digit
hex_digit-ne-dash n e = ground arith

hex-NoDash : (b : List ℕ) → NoDash (hex b)
unfolding hex
hex-NoDash [] = tt
hex-NoDash (x ∷ b) = (hex_digit-ne-dash (x / 16), (hex_digit-ne-dash (x % 16), hex-NoDash b))

digit_value-hex_digit : (n : ℕ) → n < 16 → digit_value (hex_digit n) ≡ n
unfolding hex_digit
digit_value-hex_digit n h = ground arith

pub unhex-hex : (b : List ℕ) → All IsByte b → unhex (hex b) ≡ b
unfolding unhex hex
unhex-hex [] h = refl
unhex-hex (x ∷ b) (h, hs) =
    let high = digit_value-hex_digit (x / 16) (omega arith) in
    let low = digit_value-hex_digit (x % 16) (omega arith) in
    let same : 16 * digit_value (hex_digit (x / 16)) + digit_value (hex_digit (x % 16)) ≡ x =
      rw (high, low) (omega arith) in
    ap (λ y. y ∷ unhex (hex b)) same ∙ ap (◌∷◌ x) (unhex-hex b hs)

take-take : (n lo hi : ℕ) (s : Text) → hi ≡ lo + n → take lo s ++ take n (drop lo s) ≡ take hi s
take-take n zero hi s h = ap (λ m. take m s) (omega (arith, h))
take-take n (suc lo) zero s h = absurd (omega (arith, h))
take-take zero (suc lo) (suc hi) [] h = refl
take-take (suc n) (suc lo) (suc hi) [] h = refl
take-take n (suc lo) (suc hi) (c ∷ s) h = ap (◌∷◌ c) (take-take n lo hi s (omega (arith, h)))

take_of_length : (n : ℕ) (s : Text) → length s ≤ n → take n s ≡ s
take_of_length zero [] h = refl
take_of_length zero (c ∷ s) h = absurd (omega (arith, h))
take_of_length (suc n) [] h = refl
take_of_length (suc n) (c ∷ s) h = ap (◌∷◌ c) (take_of_length n s (omega (arith, h)))

slice-NoDash : (h : Text) (lo hi : ℕ) → NoDash h → NoDash (slice h lo hi)
slice-NoDash h lo hi none_there = take-NoDash (hi - lo) (drop lo h) (drop-NoDash lo h none_there)

-- A group of digits behind a hyphen, once what stands before it spells `take lo h`.
undash-group :
    (h front : Text) (lo hi : ℕ)
    → NoDash h
    → lo ≤ hi
    → undash front ≡ take lo h
    → undash (front ++ (b'-' ∷ slice h lo hi)) ≡ take hi h
unfolding undash
undash-group h front lo hi clean p before =
    undash-append front (b'-' ∷ slice h lo hi)
    ∙ ap (λ s. s ++ undash (slice h lo hi)) before
    ∙ ap (λ s. take lo h ++ s) (undash_of_NoDash _ (slice-NoDash h lo hi clean))
    ∙ take-take (hi - lo) lo hi h (omega (arith, p))

undash-uuid_to_string : (b : List ℕ) → length b ≡ 16 → undash (uuid_to_string b) ≡ hex b
unfolding uuid_to_string
undash-uuid_to_string b e =
    let h = hex b in
    let clean = hex-NoDash b in
    undash-group h _ 20 32 clean (omega arith) (
      undash-group h _ 16 20 clean (omega arith) (
        undash-group h _ 12 16 clean (omega arith) (
          undash-group h _ 8 12 clean (omega arith)
            (undash_of_NoDash (slice h 0 8) (slice-NoDash h 0 8 clean)))))
    ∙ take_of_length 32 h (omega (arith, length-hex b, e))

-- The sixteen bytes of an id are read back from its canonical text: drop the hyphens, and read
-- pairs of hexadecimal digits. So different ids have different texts.
pub unhex-uuid_to_string :
    (b : List ℕ) → length b ≡ 16 → All IsByte b → unhex (undash (uuid_to_string b)) ≡ b
unhex-uuid_to_string b e bytes = ap unhex (undash-uuid_to_string b e) ∙ unhex-hex b bytes
