-- ===== src/Strings/Trim.antt =====
-- Trimming: how what is left begins and ends.
use job_stream.Base.{ℕ, Bool, false, ◌≡◌, refl, ap, ◌∙◌, [], ◌∷◌, Text, arith}
use job_stream.Strings.{trim_left, keep, trim_right, trim_space, is_space}

module _ (p : ℕ → Bool) where
  abbrev pub StartsSolid : Text → Type 0
  StartsSolid [] = Unit
  StartsSolid (c ∷ _) = p c ≡ false

  abbrev pub EndsSolid : Text → Type 0
  EndsSolid [] = Unit
  EndsSolid (c ∷ []) = p c ≡ false
  EndsSolid (_ ∷ d ∷ s) = EndsSolid (d ∷ s)

  pub trim_left-StartsSolid : (s : Text) → StartsSolid (trim_left p s)
  unfolding trim_left
  trim_left-StartsSolid [] = tt
  trim_left-StartsSolid (c ∷ s) = ground (arith, trim_left-StartsSolid s)

  pub trim_left_of_StartsSolid : (s : Text) → StartsSolid s → trim_left p s ≡ s
  unfolding trim_left
  trim_left_of_StartsSolid [] h = refl
  trim_left_of_StartsSolid (c ∷ s) h = ground arith

  keep-StartsSolid : (c : ℕ) (s : Text) → p c ≡ false → StartsSolid (keep p c s)
  keep-StartsSolid c [] h = ground arith
  keep-StartsSolid c (d ∷ s) h = h

  pub trim_right-StartsSolid : (s : Text) → StartsSolid s → StartsSolid (trim_right p s)
  unfolding trim_right
  trim_right-StartsSolid [] h = tt
  trim_right-StartsSolid (c ∷ s) h = keep-StartsSolid c (trim_right p s) h

  keep-EndsSolid : (c : ℕ) (s : Text) → EndsSolid s → EndsSolid (keep p c s)
  keep-EndsSolid c [] h = ground arith
  keep-EndsSolid c (d ∷ s) h = h

  pub trim_right-EndsSolid : (s : Text) → EndsSolid (trim_right p s)
  unfolding trim_right
  trim_right-EndsSolid [] = tt
  trim_right-EndsSolid (c ∷ s) = keep-EndsSolid c (trim_right p s) (trim_right-EndsSolid s)

  pub trim_right_of_EndsSolid : (s : Text) → EndsSolid s → trim_right p s ≡ s
  unfolding trim_right
  trim_right_of_EndsSolid [] h = refl
  trim_right_of_EndsSolid (c ∷ []) h = ground arith
  trim_right_of_EndsSolid (c ∷ d ∷ s) h = rw (trim_right_of_EndsSolid (d ∷ s) h)

-- A text that neither begins nor ends with white space.
abbrev pub IsTrimmed : Text → Type 0
IsTrimmed s = StartsSolid is_space s × EndsSolid is_space s

pub trim_space-IsTrimmed : (s : Text) → IsTrimmed (trim_space s)
unfolding trim_space
trim_space-IsTrimmed s = (
  trim_right-StartsSolid is_space _ (trim_left-StartsSolid is_space s),
  trim_right-EndsSolid is_space _,
)

pub trim_space_of_IsTrimmed : (s : Text) → IsTrimmed s → trim_space s ≡ s
unfolding trim_space
trim_space_of_IsTrimmed s (h, k) =
    ap (trim_right is_space) (trim_left_of_StartsSolid is_space s h)
    ∙ trim_right_of_EndsSolid is_space s k

pub trim_space_idempotent : (s : Text) → trim_space (trim_space s) ≡ trim_space s
trim_space_idempotent s = trim_space_of_IsTrimmed _ (trim_space-IsTrimmed s)
