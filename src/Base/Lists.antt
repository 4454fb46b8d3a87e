-- ===== src/Base/Lists.antt =====
-- Lists measured by native numbers, under the library's names, and predicates over them.
use Prim.Native.Nat.{ℕ, zero, suc, ◌+◌, ◌-◌, min}
use mathlib.Core.Path.{◌≡◌, refl, ap}
use mathlib.Core.Bool.{Bool, true, false, ◌&&◌, ◌||◌}
use mathlib.Core.Option.{Option, none, some}
use mathlib.Core.List.{List, [], ◌∷◌, ◌++◌, map}
use native.Mathlib.Omega.{arith}

module _ {ℓ} {A : Type ℓ} where
  abbrev pub length : List A → ℕ
  length [] = 0
  length (x ∷ xs) = suc (length xs)

  abbrev pub take : ℕ → List A → List A
  take zero xs = []
  take (suc n) [] = []
  take (suc n) (x ∷ xs) = x ∷ take n xs

  abbrev pub drop : ℕ → List A → List A
  drop zero xs = xs
  drop (suc n) [] = []
  drop (suc n) (x ∷ xs) = drop n xs

  abbrev pub get_elem? : List A → ℕ → Option A
  get_elem? [] i = none
  get_elem? (x ∷ xs) zero = some x
  get_elem? (x ∷ xs) (suc i) = get_elem? xs i

  -- `x` is an element of `xs`.
  abbrev pub Contains : List A → A → Type ℓ
  Contains xs x = (i : ℕ) × (get_elem? xs i ≡ some x)

  abbrev pub any : (A → Bool) → List A → Bool
  any p [] = false
  any p (x ∷ xs) = p x || any p xs

  abbrev pub all : (A → Bool) → List A → Bool
  all p [] = true
  all p (x ∷ xs) = p x && all p xs

  pub length-append : (xs ys : List A) → length (xs ++ ys) ≡ length xs + length ys
  length-append [] ys = omega arith
  length-append (x ∷ xs) ys = omega (arith, length-append xs ys)

  pub length-take : (n : ℕ) (xs : List A) → length (take n xs) ≡ min n (length xs)
  length-take zero xs = omega arith
  length-take (suc n) [] = omega arith
  length-take (suc n) (x ∷ xs) = omega (arith, length-take n xs)

  pub length-drop : (n : ℕ) (xs : List A) → length (drop n xs) ≡ length xs - n
  length-drop zero xs = omega arith
  length-drop (suc n) [] = omega arith
  length-drop (suc n) (x ∷ xs) = omega (arith, length-drop n xs)

module _ {ℓ κ} {A : Type ℓ} (P : A → Type κ) where
  abbrev pub All : List A → Type κ
  All [] = Unit
  All (x ∷ xs) = P x × All xs

  pub All-append : (xs ys : List A) → All xs → All ys → All (xs ++ ys)
  All-append [] ys hx hy = hy
  All-append (x ∷ xs) ys (p, hx) hy = (p, All-append xs ys hx hy)

-- Lists that end in parts of one length are equal only part by part.
pub append_inj {ℓ} :
    {A : Type ℓ} (xs xs' ys ys' : List A)
    → xs ++ ys ≡ xs' ++ ys'
    → length ys ≡ length ys'
    → (xs ≡ xs') × (ys ≡ ys')
append_inj [] [] ys ys' e h = (refl, e)
append_inj [] (x' ∷ xs') ys ys' e h = absurd (omega (arith, ap length e, length-append xs' ys', h))
append_inj (x ∷ xs) [] ys ys' e h = absurd (omega (arith, ap length e, length-append xs ys, h))
append_inj (x ∷ xs) (x' ∷ xs') ys ys' e h =
    let rest : xs ++ ys ≡ xs' ++ ys' = cc in
    let (front, back) = append_inj xs xs' ys ys' rest h in (cc, back)

pub length-map {ℓ κ} :
    {A : Type ℓ} {B : Type κ} (f : A → B) (xs : List A) → length (map f xs) ≡ length xs
length-map f [] = refl
length-map f (x ∷ xs) = ap suc (length-map f xs)

pub Contains-map {ℓ κ} :
    {A : Type ℓ} {B : Type κ} (f : A → B) (xs : List A) (y : B)
    → Contains (map f xs) y
    → (x : A) × Contains xs x × (f x ≡ y)
Contains-map f [] y (i, e) = cc
Contains-map f (x ∷ xs) y (zero, e) = (x, (0, refl), cc)
Contains-map f (x ∷ xs) y (suc i, e) =
    let (z, (j, at), same) = Contains-map f xs y (i, e) in (z, (suc j, at), same)
