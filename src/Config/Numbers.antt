-- ===== src/Config/Numbers.antt =====
-- The numbers of the environment: what is written in decimal is read back.
use job_stream.Base.{
  ℕ, zero, suc, ◌+◌, ◌-◌, ◌*◌, ◌/◌, ◌%◌, ◌≤◌, true, false, ◌≡◌, refl, ap, sym, ◌∙◌, inl, inr,
  Bool-cases, ==_iff, some, [], ◌∷◌, ℤ, pos, negsuc, Text, is_empty, arith, ◌==◌, leb, digits_from,
  decimal, decimal_ℤ,
}
use job_stream.Config.{
  digits_value, max_int64, in_range, minus, unsigned, bounded, atoi, or_int, env_int,
}

-- The numbers of an int.
pub data IsInt64 : ℤ → Type 0 where
  upper : {n : ℕ} → n ≤ max_int64 → IsInt64 (pos n)
  lower : {n : ℕ} → n ≤ max_int64 → IsInt64 (negsuc n)

digits_value-digit :
    (n : ℕ) (s : Text) → digits_value (n / 10) ((b'0' + n % 10) ∷ s) ≡ digits_value n s
unfolding digits_value
digits_value-digit n s =
    let low : leb b'0' (b'0' + n % 10) ≡ true = ground arith in
    let high : leb (b'0' + n % 10) b'9' ≡ true = ground arith in
    let whole : n / 10 * 10 + (b'0' + n % 10 - b'0') ≡ n = omega arith in rw (low, high, whole) refl

-- Reading what `digits_from` has put before a text is going on from the number.
digits_value-digits_from :
    (fuel n : ℕ) (acc : Text)
    → n ≤ fuel
    → digits_value 0 (digits_from fuel n acc) ≡ digits_value n acc
unfolding digits_from
digits_value-digits_from zero n acc enough = ap (λ m. digits_value m acc) (omega (arith, enough))
digits_value-digits_from (suc fuel) n acc enough = elim (Bool-cases (n == 0)) [
  | inl over ↦ rw over (ap (λ m. digits_value m acc) (ground (arith, over)))
  | inr more ↦
      let fewer : n / 10 ≤ fuel = ground (arith, more, enough) in
      rw more (
        digits_value-digits_from fuel (n / 10) ((b'0' + n % 10) ∷ acc) fewer
        ∙ digits_value-digit n acc)
]

-- A text with a digit, or a character after the digits, at its beginning.
abbrev StartsDigit : Text → Type 0
StartsDigit t = (c : ℕ) × (s : Text) × (t ≡ c ∷ s) × (b'0' ≤ c)

digits_from-StartsDigit :
    (fuel n : ℕ) (acc : Text) → StartsDigit acc → StartsDigit (digits_from fuel n acc)
unfolding digits_from
digits_from-StartsDigit zero n acc start = start
digits_from-StartsDigit (suc fuel) n acc start = elim (Bool-cases (n == 0)) [
  | inl over ↦ rw over start
  | inr more ↦ rw more (
      digits_from-StartsDigit fuel (n / 10) ((b'0' + n % 10) ∷ acc)
        (b'0' + n % 10, acc, refl, omega arith))
]

decimal-StartsDigit : (n : ℕ) → StartsDigit (decimal n)
unfolding decimal digits_from
decimal-StartsDigit zero = (b'0', [], refl, omega arith)
decimal-StartsDigit (suc n) =
    let some_left : (suc n == 0) ≡ false = ground arith in
    rw some_left (
      digits_from-StartsDigit n (suc n / 10) ((b'0' + suc n % 10) ∷ [])
        (b'0' + suc n % 10, [], refl, omega arith))

digits_value-decimal : (n : ℕ) → digits_value 0 (decimal n) ≡ some n
unfolding decimal digits_value
digits_value-decimal n = elim (Bool-cases (n == 0)) [
  | inl none_left ↦ rw none_left (ap some (sym ((==_iff n 0).0 none_left)))
  | inr some_left ↦ rw some_left (digits_value-digits_from n n [] (omega arith))
]

unsigned-decimal : (n : ℕ) → unsigned (decimal n) ≡ some n
unfolding unsigned
unsigned-decimal n =
    let (c, s, e, low) = decimal-StartsDigit n in
    rw e (sym (ap (digits_value 0) e) ∙ digits_value-decimal n)

-- Atoi gives back every int from its decimal text.
pub atoi-decimal_ℤ : (n : ℤ) → IsInt64 n → atoi (decimal_ℤ n) ≡ some n
unfolding atoi bounded in_range minus
atoi-decimal_ℤ (pos n) (upper small) =
    let (c, s, e, low) = decimal-StartsDigit n in
    let value : unsigned (c ∷ s) ≡ some n = sym (ap unsigned e) ∙ unsigned-decimal n in
    let plain : (c == b'-') ≡ false = ground (arith, low) in
    let no_plus : (c == b'+') ≡ false = ground (arith, low) in
    let fits : leb n max_int64 ≡ true = ground (arith, small) in
    rw (e, plain, no_plus, value, fits) refl
atoi-decimal_ℤ (negsuc n) (lower small) =
    let fits : leb n max_int64 ≡ true = ground (arith, small) in
    rw (unsigned-decimal (suc n), fits) refl

module _ (getenv : Text → Text) where
  -- An int that stands in decimal in the environment is the one that the service uses, whatever
  -- the default is.
  pub env_int-decimal_ℤ :
      (key : Text) (def n : ℤ) → IsInt64 n → getenv key ≡ decimal_ℤ n → env_int getenv key def ≡ n
  unfolding env_int or_int
  env_int-decimal_ℤ key def n fits set = rw (set, filled n, atoi-decimal_ℤ n fits) refl
    where
      filled : (n : ℤ) → is_empty (decimal_ℤ n) ≡ false
      filled (pos n) = let (c, s, e, low) = decimal-StartsDigit n in rw e refl
      filled (negsuc n) = refl
