-- ===== src/RateLimit/Users.antt =====
-- What the calls of one user do to the limiters of the others.
use job_stream.Base.{
  ◌≡◌, ◌≢◌, refl, ap, sym, ◌∙◌, inl, inr, Bool, Option, none, some, List, [], ◌∷◌, Text, text_eq,
  text_eq_iff, text_eq_refl, Bool-cases, arith, if◌then◌else◌,
}
use job_stream.Proto.{Time}
use job_stream.RateLimit.{
  RatePackage, UserRateLimiter, find, store, found_or_new, limiter_for, allow, with_limiter,
}

module _ (rate : RatePackage) where
  open rate use {Limiter, Limit, new_limiter, allow_n}

  find-store_self :
      (u : Text) (l : Limiter) (more : List (Text × Limiter))
      → find rate u (store rate u l more) ≡ some l
  unfolding find store
  find-store_self u l [] = rw (text_eq_refl u) refl
  find-store_self u l ((v, l') ∷ more) = elim (Bool-cases (text_eq v u)) [
    | inl same ↦ rw same (rw same refl)
    | inr other ↦ rw other (rw other (find-store_self u l more))
  ]

  find-store_other :
      (u v : Text) (l : Limiter) (more : List (Text × Limiter))
      → v ≢ u
      → find rate v (store rate u l more) ≡ find rate v more
  unfolding find store
  find-store_other u v l [] ne = ground (arith, text_eq_iff u v)
  find-store_other u v l ((x, l') ∷ more) ne =
      ground (arith, text_eq_iff x u, text_eq_iff x v, find-store_other u v l more ne)

  -- The limiter that decides on a user's next call: the one of the map, or a new one.
  abbrev pub limiter_of : Text → UserRateLimiter rate → Limiter
  limiter_of u s = (limiter_for rate u s).0

  found_or_new-settings :
      (s : UserRateLimiter rate) (v u : Text) (l : Limiter) (o : Option Limiter)
      → (found_or_new rate (with_limiter rate s u l) v o).0 ≡ (found_or_new rate s v o).0
  unfolding found_or_new
  found_or_new-settings s v u l (some l') = refl
  found_or_new-settings s v u l none = refl

  limiter_of-with_limiter_self :
      (s : UserRateLimiter rate) (u : Text) (l : Limiter)
      → limiter_of u (with_limiter rate s u l) ≡ l
  unfolding limiter_for found_or_new
  limiter_of-with_limiter_self s u l =
      ap (λ o. (found_or_new rate (with_limiter rate s u l) u o).0) (find-store_self u l s.limiters)

  limiter_of-with_limiter_other :
      (s : UserRateLimiter rate) (u v : Text) (l : Limiter)
      → v ≢ u
      → limiter_of v (with_limiter rate s u l) ≡ limiter_of v s
  unfolding limiter_for
  limiter_of-with_limiter_other s u v l ne =
      ap (λ o. (found_or_new rate (with_limiter rate s u l) v o).0)
        (find-store_other u v l s.limiters ne)
      ∙ found_or_new-settings s v u l (find rate v s.limiters)

  limiter_of-limiter_for :
      (s : UserRateLimiter rate) (u v : Text) (o : Option Limiter)
      → v ≢ u
      → limiter_of v (found_or_new rate s u o).1 ≡ limiter_of v s
  unfolding found_or_new
  limiter_of-limiter_for s u v (some l) ne = refl
  limiter_of-limiter_for s u v none ne = limiter_of-with_limiter_other s u v _ ne

  -- A call of a user moves that user's limiter on and no other.
  pub allow-limiter_of :
      (s : UserRateLimiter rate) (u v : Text) (now : Time)
      → limiter_of v (allow rate u now s).1
        ≡ (if text_eq v u then (allow_n (limiter_of u s) now 1).1 else limiter_of v s)
  unfolding allow limiter_for
  allow-limiter_of s u v now = elim (Bool-cases (text_eq v u)) [
    | inl same ↦
        let e : v ≡ u = (text_eq_iff v u).0 same in
        rw same (rw e (limiter_of-with_limiter_self _ u _))
    | inr other ↦
        let ne : v ≢ u = ground (arith, other, text_eq_iff v u) in
        rw other (
          limiter_of-with_limiter_other _ u v _ ne
          ∙ limiter_of-limiter_for s u v (find rate u s.limiters) ne)
  ]

  -- The calls of several users, in the order in which they take the mutex, with the answers that
  -- one of the users gets.
  unfoldable pub answers_for : Text → List (Text × Time) → UserRateLimiter rate → List Bool
  answers_for v [] s = []
  answers_for v ((u, now) ∷ calls) s =
      let (allowed, s') = allow rate u now s in
      let rest = answers_for v calls s' in if text_eq v u then allowed ∷ rest else rest

  -- The times of one user's calls.
  unfoldable pub times_of : Text → List (Text × Time) → List Time
  times_of v [] = []
  times_of v ((u, now) ∷ calls) =
      let rest = times_of v calls in if text_eq v u then now ∷ rest else rest

  -- The answers of a single limiter.
  unfoldable pub alone : Limiter → List Time → List Bool
  alone l [] = []
  alone l (now ∷ times) = let (allowed, l') = allow_n l now 1 in allowed ∷ alone l' times

  -- Whatever the other users call in between, a user gets the answers of one limiter of their own
  -- on their own calls.
  pub answers_for-alone :
      (v : Text) (calls : List (Text × Time)) (s : UserRateLimiter rate)
      → answers_for v calls s ≡ alone (limiter_of v s) (times_of v calls)
  unfolding answers_for times_of alone allow
  answers_for-alone v [] s = refl
  answers_for-alone v ((u, now) ∷ calls) s = elim (Bool-cases (text_eq v u)) [
    | inl same ↦
        let rest = answers_for-alone v calls (allow rate u now s).1 in
        let next = allow-limiter_of s u v now in
        let own : limiter_of u s ≡ limiter_of v s =
          ap (λ x. limiter_of x s) (sym ((text_eq_iff v u).0 same)) in
        rw same (
          ap (λ l. (allow_n l now 1).0 ∷ answers_for v calls (allow rate u now s).1) own
          ∙ ap (λ bs. (allow_n (limiter_of v s) now 1).0 ∷ bs)
              (rest
                ∙ ap (λ l. alone l (times_of v calls)) (rw same at next)
                ∙ ap (λ l. alone (allow_n l now 1).1 (times_of v calls)) own))
    | inr other ↦
        let rest = answers_for-alone v calls (allow rate u now s).1 in
        let next = allow-limiter_of s u v now in
        rw other (rest ∙ ap (λ l. alone l (times_of v calls)) (rw other at next))
  ]
