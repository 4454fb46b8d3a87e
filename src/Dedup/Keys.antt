-- ===== src/Dedup/Keys.antt =====
-- Which submissions share a dedup key.
use job_stream.Base.{
  ℕ, ◌*◌, ◌<◌, ◌/◌, ◌%◌, ◌≡◌, ◌≢◌, refl, ap, sym, ◌∙◌, List, [], ◌∷◌, ◌++◌, Text, codes, arith, All,
  length, append_inj, append_assoc,
}
use job_stream.Strings.{trim_space, to_lower}
use job_stream.Strings.Trim.{trim_space_idempotent}
use job_stream.Dedup.{hex_digit, hex, normalize, payload, key}

pub length-hex : (bs : List ℕ) → length (hex bs) ≡ 2 * length bs
unfolding hex
length-hex [] = omega arith
length-hex (b ∷ bs) = omega (arith, length-hex bs)

hex_digit_inj : (m n : ℕ) → m < 16 → n < 16 → hex_digit m ≡ hex_digit n → m ≡ n
unfolding hex_digit
hex_digit_inj m n h k e = ground arith

byte_of_digits : (a b : ℕ) → a / 16 ≡ b / 16 → a % 16 ≡ b % 16 → a ≡ b
byte_of_digits a b h k = omega arith

abbrev pub IsByte : ℕ → Type 0
IsByte b = b < 256

hex_inj : (xs ys : List ℕ) → All IsByte xs → All IsByte ys → hex xs ≡ hex ys → xs ≡ ys
unfolding hex
hex_inj [] [] h k e = refl
hex_inj [] (y ∷ ys) h k e = cc
hex_inj (x ∷ xs) [] h k e = cc
hex_inj (x ∷ xs) (y ∷ ys) h k e =
    let high : hex_digit (x / 16) ≡ hex_digit (y / 16) = cc in
    let low : hex_digit (x % 16) ≡ hex_digit (y % 16) = cc in
    let rest : hex xs ≡ hex ys = cc in
    let same : x ≡ y =
      byte_of_digits x y (hex_digit_inj _ _ (omega arith) (omega arith) high)
        (hex_digit_inj _ _ (omega arith) (omega arith) low) in
    let tails = hex_inj xs ys h.1 k.1 rest in cc

-- SHA-256 gives 32 bytes.
pub record IsDigest (sha256 : Text → List ℕ) : Type 0 where
  pub width : (t : Text) → length (sha256 t) ≡ 32
  pub bytes : (t : Text) → All IsByte (sha256 t)

module _ (lower : ℕ → ℕ) where
  normalize-trim_space : (s : Text) → normalize lower (trim_space s) ≡ normalize lower s
  unfolding normalize
  normalize-trim_space s = ap (to_lower lower) (trim_space_idempotent s)

  abbrev NoBar : Text → Type 0
  NoBar s = All (λ c. c ≢ b'|') s

  bar_inj :
      (xs xs' ys ys' : Text)
      → NoBar xs
      → NoBar xs'
      → xs ++ b'|' ∷ ys ≡ xs' ++ b'|' ∷ ys'
      → (xs ≡ xs') × (ys ≡ ys')
  bar_inj [] [] ys ys' h h' e = (refl, cc)
  bar_inj [] (x' ∷ xs') ys ys' h h' e = absurd (h'.0 (cc))
  bar_inj (x ∷ xs) [] ys ys' h h' e = absurd (h.0 (cc))
  bar_inj (x ∷ xs) (x' ∷ xs') ys ys' h h' e =
      let rest : xs ++ b'|' ∷ ys ≡ xs' ++ b'|' ∷ ys' = cc in
      let (front, back) = bar_inj xs xs' ys ys' h.1 h'.1 rest in (cc, back)

  payload_bar : (c t : Text) → payload lower c t ≡ normalize lower c ++ b'|' ∷ normalize lower t
  unfolding payload
  payload_bar c t = append_assoc (normalize lower c) (b'|' ∷ []) (normalize lower t)

  -- Without a bar in the companies' names the payload tells the pairs apart, up to case and
  -- surrounding white space.
  pub payload_inj :
      (c t c' t' : Text)
      → NoBar (normalize lower c)
      → NoBar (normalize lower c')
      → payload lower c t ≡ payload lower c' t'
      → (normalize lower c ≡ normalize lower c') × (normalize lower t ≡ normalize lower t')
  payload_inj c t c' t' h h' e =
      bar_inj _ _ _ _ h h' (sym (payload_bar c t) ∙ e ∙ payload_bar c' t')

  abbrev pub IsNormal : Text → Type 0
  IsNormal s = normalize lower s ≡ s

module _ (lower : ℕ → ℕ) (sha256 : Text → List ℕ) where
  -- White space around the company and the title does not matter.
  key-trim_space :
      (user_id company job_title : Text)
      → key lower sha256 user_id (trim_space company) (trim_space job_title)
        ≡ key lower sha256 user_id company job_title
  unfolding key payload
  key-trim_space user_id company job_title =
      rw (normalize-trim_space lower company, normalize-trim_space lower job_title)

  -- For a digest of 32 bytes: keys are equal only for the same user and for payloads with one
  -- digest.
  pub key_parts :
      (digest : IsDigest sha256) (u c t u' c' t' : Text)
      → key lower sha256 u c t ≡ key lower sha256 u' c' t'
      → (u ≡ u') × (sha256 (payload lower c t) ≡ sha256 (payload lower c' t'))
  unfolding key
  key_parts digest u c t u' c' t' e =
      let sum = sha256 (payload lower c t) in
      let sum' = sha256 (payload lower c' t') in
      let widths : length (hex sum) ≡ length (hex sum') = omega (
        arith,
        length-hex sum,
        length-hex sum',
        digest.width (payload lower c t),
        digest.width (payload lower c' t'),
      ) in
      let (front, back) = append_inj _ _ (hex sum) (hex sum') e widths in
      let (prefix, colon) =
        append_inj (codes "dedup:v1:" ++ u) (codes "dedup:v1:" ++ u') (b':' ∷ []) (b':' ∷ []) front
          refl in
      (
        cc,
        hex_inj sum sum' (digest.bytes (payload lower c t)) (digest.bytes (payload lower c' t'))
            back,
      )

  -- A bar moves between the company and the title without changing the key, if all four names
  -- are trimmed and in lower case.
  pub key-moves_bar :
      (u a b c : Text)
      → IsNormal lower a
      → IsNormal lower (a ++ b'|' ∷ b)
      → IsNormal lower c
      → IsNormal lower (b ++ b'|' ∷ c)
      → key lower sha256 u (a ++ b'|' ∷ b) c ≡ key lower sha256 u a (b ++ b'|' ∷ c)
  unfolding key
  key-moves_bar u a b c ha hab hc hbc =
      let left : payload lower (a ++ b'|' ∷ b) c ≡ (a ++ b'|' ∷ b) ++ b'|' ∷ c =
        rw (payload_bar lower (a ++ b'|' ∷ b) c, hab, hc) in
      let right : payload lower a (b ++ b'|' ∷ c) ≡ a ++ b'|' ∷ (b ++ b'|' ∷ c) =
        rw (payload_bar lower a (b ++ b'|' ∷ c), ha, hbc) in
      let same : payload lower (a ++ b'|' ∷ b) c ≡ payload lower a (b ++ b'|' ∷ c) =
        left ∙ append_assoc a (b'|' ∷ b) (b'|' ∷ c) ∙ sym right in
      ap (λ p. codes "dedup:v1:" ++ u ++ codes ":" ++ hex (sha256 p)) same
