-- ===== src/Transform/Board.antt =====
-- `strip_board_suffix`: which titles it shortens, and by how much.
use job_stream.Base.{
  ℕ, suc, ◌-◌, true, false, ◌≡◌, refl, ap, sym, ◌∙◌, ◌⊎◌, inl, inr, some, List, [], ◌∷◌, ◌++◌, Text,
  arith, All, Bool-cases, get_elem?, append_assoc, codes,
}
use job_stream.Strings.{trim_space, to_lower, has_suffix, byte_len, slice_to}
use job_stream.Strings.Suffix.{
  has_suffix_sound, has_suffix-append, byte_len-append, slice_to-append, map-eq-append,
}
use job_stream.Transform.{board_suffixes, strip_suffix_in, strip_board_suffix}
use mathlib.Core.List.{map-append}

module _ (lower : ℕ → ℕ) where
  -- `s` ends in a marker of the list, in upper or lower case.
  pub record IsMarked (sufs : List Text) (s : Text) : Type 0 where
    pub index : ℕ
    pub marker : Text
    pub listed : get_elem? sufs index ≡ some marker
    pub before : Text
    pub tail : Text
    pub parts : s ≡ before ++ tail
    pub same : to_lower lower tail ≡ to_lower lower marker

  abbrev pub Unmarked : List Text → Text → Type 0
  Unmarked sufs s = All (λ m. has_suffix (to_lower lower s) (to_lower lower m) ≡ false) sufs

  -- What the loop returns: `s` if no marker matches, and else `s` cut by as many bytes as the
  -- first marker that matches has, then trimmed.
  abbrev Outcome : List Text → Text → Text → Type 0
  Outcome sufs s result =
      (Unmarked sufs s × (result ≡ s))
      ⊎ ((m : IsMarked sufs s) × (result
            ≡ trim_space (slice_to (byte_len s - byte_len m.marker) s)))

  IsMarked-cons : {m : Text} {sufs : List Text} {s : Text} → IsMarked sufs s → IsMarked (m ∷ sufs) s
  IsMarked-cons i = record {
    index = suc i.index;
    marker = i.marker;
    listed = i.listed;
    before = i.before;
    tail = i.tail;
    parts = i.parts;
    same = i.same;
  }

  IsMarked-head :
      (m : Text) (sufs : List Text) (s : Text)
      → has_suffix (to_lower lower s) (to_lower lower m) ≡ true
      → (i : IsMarked (m ∷ sufs) s) × (i.marker ≡ m)
  IsMarked-head m sufs s h =
      let (before', split) = has_suffix_sound (to_lower lower s) (to_lower lower m) h in
      let (x, y, parts, front, back) = map-eq-append lower s before' (to_lower lower m) split in
      (
        record {
          index = 0;
          marker = m;
          listed = refl;
          before = x;
          tail = y;
          parts = parts;
          same = back;
        },
        refl,
      )

  strip_suffix_in-Outcome :
      (s : Text) (sufs : List Text)
      → Outcome sufs s (strip_suffix_in lower s (to_lower lower s) sufs)
  unfolding strip_suffix_in IsMarked-cons
  strip_suffix_in-Outcome s [] = inl (tt, refl)
  strip_suffix_in-Outcome s (m ∷ sufs) =
      elim (Bool-cases (has_suffix (to_lower lower s) (to_lower lower m))) [
        | inl found ↦ let (i, e) = IsMarked-head m sufs s found in inr (i, rw (found, e))
        | inr other ↦ elim (strip_suffix_in-Outcome s sufs) [
          | inl (unmarked, e) ↦ inl ((other, unmarked), rw other e)
          | inr (i, e) ↦ inr (IsMarked-cons i, rw other e)
        ]
      ]

  -- With a title whose ending has as many bytes as the marker, the ending goes, and only that.
  cut_at_marker :
      (s before tail marker : Text)
      → s ≡ before ++ tail
      → byte_len tail ≡ byte_len marker
      → slice_to (byte_len s - byte_len marker) s ≡ before
  cut_at_marker s before tail marker parts same =
      let bytes : byte_len s - byte_len marker ≡ byte_len before =
        omega (arith, ap byte_len parts, byte_len-append before tail, same) in
      rw (bytes, parts) (slice_to-append before tail)

  -- A title with no marker at its end is returned as it is; any other ends in a listed marker up
  -- to case, and if that ending has the marker's length in bytes, the result is the text before
  -- it, trimmed.
  pub strip_board_suffix_cases :
      (s : Text)
      → (Unmarked board_suffixes s × (strip_board_suffix lower s ≡ s))
        ⊎ ((m : IsMarked board_suffixes s) × (byte_len m.tail ≡ byte_len m.marker
              → strip_board_suffix lower s ≡ trim_space m.before))
  unfolding strip_board_suffix
  strip_board_suffix_cases s = elim (strip_suffix_in-Outcome s board_suffixes) [
    | inl plain ↦ inl plain
    | inr (m, e) ↦
        inr (m, λ same. e ∙ ap trim_space (cut_at_marker s m.before m.tail m.marker m.parts same))
  ]

  -- If a title ends in `front ++ back`, which lower-cases as the marker " | LinkedIn" does, and
  -- `back` alone has as many bytes as the marker, then only `back` is cut off: `front` stays,
  -- and the result is trimmed.
  pub strip-first_marker :
      (before front back : Text)
      → to_lower lower (front ++ back) ≡ to_lower lower (codes " | LinkedIn")
      → byte_len back ≡ byte_len (codes " | LinkedIn")
      → strip_board_suffix lower (before ++ (front ++ back)) ≡ trim_space (before ++ front)
  unfolding strip_board_suffix strip_suffix_in
  strip-first_marker before front back same bytes =
      let marker = codes " | LinkedIn" in
      let lowered : to_lower lower (before ++ (front ++ back))
          ≡ to_lower lower before ++ to_lower lower marker =
        map-append lower before (front ++ back) ∙ ap (λ t. to_lower lower before ++ t) same in
      let found : has_suffix (to_lower lower (before ++ (front ++ back))) (to_lower lower marker)
          ≡ true =
        rw lowered (has_suffix-append (to_lower lower before) (to_lower lower marker)) in
      let cut =
        cut_at_marker (before ++ (front ++ back)) (before ++ front) back marker
          (sym (append_assoc before front back)) bytes in
      rw found (ap trim_space cut)
