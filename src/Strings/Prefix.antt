-- ===== src/Strings/Prefix.antt =====
-- Prefixes: what `strings.HasPrefix` and `strings.TrimPrefix` make of one.
use job_stream.Base.{true, ◌≡◌, refl, [], ◌∷◌, ◌++◌, Text, arith, length, drop}
use job_stream.Strings.{has_prefix, trim_prefix}

drop-append : (t s : Text) → drop (length t) (t ++ s) ≡ s
drop-append [] s = refl
drop-append (d ∷ t) s = drop-append t s

pub has_prefix-append : (t s : Text) → has_prefix (t ++ s) t ≡ true
unfolding has_prefix
has_prefix-append [] [] = refl
has_prefix-append [] (c ∷ s) = refl
has_prefix-append (d ∷ t) s = ground (arith, has_prefix-append t s)

pub trim_prefix-append : (t s : Text) → trim_prefix (t ++ s) t ≡ s
unfolding trim_prefix
trim_prefix-append t s = rw (has_prefix-append t s) (drop-append t s)

has_prefix-cut : (s t : Text) → has_prefix s t ≡ true → s ≡ t ++ drop (length t) s
unfolding has_prefix
has_prefix-cut s [] h = refl
has_prefix-cut [] (d ∷ t) h = cc
has_prefix-cut (c ∷ s) (d ∷ t) h =
    let same : c ≡ d = ground arith in
    let rest : s ≡ t ++ drop (length t) s = has_prefix-cut s t (ground arith) in cc

-- A text with the prefix `t` is `t` followed by the rest.
pub has_prefix_sound : (s t : Text) → has_prefix s t ≡ true → s ≡ t ++ trim_prefix s t
unfolding trim_prefix
has_prefix_sound s t h = rw h (has_prefix-cut s t h)
