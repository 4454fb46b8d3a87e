-- ===== src/Transform/Whitespace.antt =====
-- `collapse_whitespace`: its words, the shape of its results, and texts of that shape.
use job_stream.Base.{
  ℕ, Bool, true, false, ◌≡◌, ◌≢◌, refl, ap, sym, ◌∙◌, List, [], ◌∷◌, ◌++◌, Text, arith, All, inl,
  inr, Bool-cases, append_assoc, append-nil, if◌then◌else◌,
}
use job_stream.Strings.{trim_right, keep}
use job_stream.Strings.Trim.{EndsSolid, trim_right-EndsSolid, trim_right_of_EndsSolid}
use job_stream.Transform.{
  visible, replace_invisible, is_blank, collapse_from, is_ascii_space, collapse_whitespace,
}

-- A word that ends; nothing if it is empty.
abbrev close : Text → List Text
close [] = []
close (c ∷ w) = (c ∷ w) ∷ []

-- The words of a text, in order, where `word` has been read of the first.
pub words_from : Text → Text → List Text
words_from word [] = close word
words_from word (r ∷ s) =
    let next = words_from [] s in
    let longer = words_from (word ++ r ∷ []) s in if is_blank r then close word ++ next else longer

-- Words, with one space between each two.
pub join : List Text → Text
join [] = []
join (w ∷ []) = w
join (w ∷ v ∷ ws) = w ++ b' ' ∷ join (v ∷ ws)

close-nonempty :
    (word : Text) (ws : List Text) → All (λ w. w ≢ []) ws → All (λ w. w ≢ []) (close word ++ ws)
close-nonempty [] ws h = h
close-nonempty (c ∷ word) ws h = ((λ e. cc), h)

words_from-nonempty : (word s : Text) → All (λ w. w ≢ []) (words_from word s)
unfolding words_from
words_from-nonempty [] [] = tt
words_from-nonempty (c ∷ word) [] = ((λ e. cc), tt)
words_from-nonempty word (r ∷ s) = ground (
  arith,
  close-nonempty word (words_from [] s) (words_from-nonempty [] s),
  words_from-nonempty (word ++ r ∷ []) s,
)

-- A space in front of the joined rest disappears where there is no rest.
join-cons :
    (word : Text) (ws : List Text)
    → All (λ w. w ≢ []) ws
    → word ++ keep is_ascii_space b' ' (join ws) ≡ join (word ∷ ws)
unfolding join is_ascii_space
join-cons word [] h = append-nil word
join-cons word ([] ∷ ws) h = absurd (h.0 refl)
join-cons word ((c ∷ w) ∷ []) h = refl
join-cons word ((c ∷ w) ∷ v ∷ ws) h = refl

keep_of_not-blank : (r : ℕ) (s : Text) → is_blank r ≡ false → keep is_ascii_space r s ≡ r ∷ s
unfolding is_blank is_ascii_space
keep_of_not-blank r [] h = ground arith
keep_of_not-blank r (c ∷ s) h = refl

mutual
  unfolding collapse_from words_from trim_right join

  trim-collapse_spaced :
      (s : Text) → trim_right is_ascii_space (collapse_from true s) ≡ join (words_from [] s)
  trim-collapse_spaced [] = refl
  trim-collapse_spaced (r ∷ s) = elim (Bool-cases (is_blank r)) [
    | inl blank ↦ rw blank (trim-collapse_spaced s)
    | inr solid ↦ rw solid (
        keep_of_not-blank r (trim_right is_ascii_space (collapse_from false s)) solid
        ∙ trim-collapse_written s r [])
  ]

  trim-collapse_written :
      (s : Text) (c : ℕ) (word : Text)
      → (c ∷ word) ++ trim_right is_ascii_space (collapse_from false s)
        ≡ join (words_from (c ∷ word) s)
  trim-collapse_written [] c word = append-nil (c ∷ word)
  trim-collapse_written (r ∷ s) c word = elim (Bool-cases (is_blank r)) [
    | inl blank ↦ rw blank (
        ap (λ t. (c ∷ word) ++ keep is_ascii_space b' ' t) (trim-collapse_spaced s)
        ∙ join-cons (c ∷ word) (words_from [] s) (words_from-nonempty [] s))
    | inr solid ↦ rw solid (
        ap (λ t. (c ∷ word) ++ t) (keep_of_not-blank r _ solid)
        ∙ sym (append_assoc (c ∷ word) (r ∷ []) _)
        ∙ trim-collapse_written s c (word ++ r ∷ []))
  ]

-- The loop and the trimming write the words of the text, one space between each two.
pub collapse_whitespace-join :
    (s : Text) → collapse_whitespace s ≡ join (words_from [] (replace_invisible s))
unfolding collapse_whitespace
collapse_whitespace-join s = trim-collapse_spaced (replace_invisible s)

-- No tab, line end, non-breaking space or zero-width rune, and no space behind another space, nor
-- at the beginning if `after_space` is `true`.
abbrev pub HasSingleSpaces : Bool → Text → Type 0
HasSingleSpaces after_space [] = Unit
HasSingleSpaces after_space (r ∷ s) =
    (visible r ≡ r ∷ [])
    × (is_blank r ≡ true → (r ≡ b' ') × (after_space ≡ false))
    × HasSingleSpaces (is_blank r) s

-- The shape that the loop and the final trimming promise.
abbrev pub IsCollapsed : Text → Type 0
IsCollapsed s = HasSingleSpaces true s × EndsSolid is_ascii_space s

abbrev AllVisible : Text → Type 0
AllVisible [] = Unit
AllVisible (r ∷ s) = (visible r ≡ r ∷ []) × AllVisible s

visible-AllVisible : (r : ℕ) (s : Text) → AllVisible s → AllVisible (visible r ++ s)
unfolding visible
visible-AllVisible r s h = ground arith

replace_invisible-AllVisible : (s : Text) → AllVisible (replace_invisible s)
unfolding replace_invisible
replace_invisible-AllVisible [] = tt
replace_invisible-AllVisible (r ∷ s) = visible-AllVisible r _ (replace_invisible-AllVisible s)

space-visible : visible b' ' ≡ b' ' ∷ []
unfolding visible
space-visible = refl

space-is_blank : is_blank b' ' ≡ true
unfolding is_blank
space-is_blank = refl

collapse_from-HasSingleSpaces :
    (after : Bool) (s : Text) → AllVisible s → HasSingleSpaces after (collapse_from after s)
unfolding collapse_from
collapse_from-HasSingleSpaces after [] h = tt
collapse_from-HasSingleSpaces after (r ∷ s) h = ground (
  arith,
  space-visible,
  space-is_blank,
  collapse_from-HasSingleSpaces true s h.1,
  collapse_from-HasSingleSpaces false s h.1,
)

keep-HasSingleSpaces :
    (after : Bool) (r : ℕ) (s : Text)
    → HasSingleSpaces after (r ∷ s)
    → HasSingleSpaces after (keep is_ascii_space r s)
keep-HasSingleSpaces after r [] h = ground arith
keep-HasSingleSpaces after r (d ∷ s) h = h

trim_right-HasSingleSpaces :
    (after : Bool) (s : Text)
    → HasSingleSpaces after s
    → HasSingleSpaces after (trim_right is_ascii_space s)
unfolding trim_right
trim_right-HasSingleSpaces after [] h = tt
trim_right-HasSingleSpaces after (r ∷ s) h =
    keep-HasSingleSpaces after r _ (h.0, h.1, trim_right-HasSingleSpaces (is_blank r) s h.2)

-- The result has no tab, no line end, no invisible rune, no double space, and no space at either end.
collapse_whitespace-IsCollapsed : (s : Text) → IsCollapsed (collapse_whitespace s)
unfolding collapse_whitespace
collapse_whitespace-IsCollapsed s = (
  trim_right-HasSingleSpaces true _
      (collapse_from-HasSingleSpaces true _ (replace_invisible-AllVisible s)),
  trim_right-EndsSolid is_ascii_space _,
)

replace_invisible_of_HasSingleSpaces :
    (after : Bool) (s : Text) → HasSingleSpaces after s → replace_invisible s ≡ s
unfolding replace_invisible
replace_invisible_of_HasSingleSpaces after [] h = refl
replace_invisible_of_HasSingleSpaces after (r ∷ s) h =
    rw (h.0, replace_invisible_of_HasSingleSpaces (is_blank r) s h.2)

collapse_from_of_HasSingleSpaces :
    (after : Bool) (s : Text) → HasSingleSpaces after s → collapse_from after s ≡ s
unfolding collapse_from
collapse_from_of_HasSingleSpaces after [] h = refl
collapse_from_of_HasSingleSpaces after (r ∷ s) h =
    ground (arith, h.1, collapse_from_of_HasSingleSpaces (is_blank r) s h.2)

-- A text that is collapsed already is returned as it is.
collapse_whitespace_of_IsCollapsed : (s : Text) → IsCollapsed s → collapse_whitespace s ≡ s
unfolding collapse_whitespace
collapse_whitespace_of_IsCollapsed s (spaces, solid) =
    ap (λ t. trim_right is_ascii_space (collapse_from true t))
      (replace_invisible_of_HasSingleSpaces true s spaces)
    ∙ ap (trim_right is_ascii_space) (collapse_from_of_HasSingleSpaces true s spaces)
    ∙ trim_right_of_EndsSolid is_ascii_space s solid
