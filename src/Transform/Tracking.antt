-- ===== src/Transform/Tracking.antt =====
-- `strip_tracking_params` and its loop over the query's keys, which Go visits in any order.
use job_stream.Base.{
  Bool, true, false, ◌||◌, ◌≡◌, refl, sym, ◌∙◌, inl, inr, some, List, [], ◌∷◌, Text, arith,
  Bool-cases, any, text_eq, text_eq_iff, if◌then◌else◌,
}
use job_stream.Canonical.{UrlPackage}
use job_stream.Transform.{is_tracking, Values, del, keys, drop_tracking, strip_tracking_params}

-- The values whose keys are no tracking parameters, in their order.
unfoldable pub untracked : Values → Values
untracked [] = []
untracked ((k, v) ∷ q) = let rest = untracked q in if is_tracking k then rest else (k, v) ∷ rest

abbrev has_key : Text → List Text → Bool
has_key k ks = any (text_eq k) ks

-- The iteration `ks` visits every tracking parameter among the keys of `q`.
abbrev pub Visits : List Text → Values → Type 0
Visits ks q = (k : Text) → is_tracking k ≡ true → has_key k (keys q) ≡ true → has_key k ks ≡ true

untracked-del : (k : Text) (q : Values) → is_tracking k ≡ true → untracked (del k q) ≡ untracked q
unfolding untracked del
untracked-del k [] h = refl
untracked-del k ((j, v) ∷ q) h = ground (arith, text_eq_iff j k, untracked-del k q h)

has_key-del :
    (k j : Text) (q : Values)
    → has_key j (keys (del k q)) ≡ true
    → (has_key j (keys q) ≡ true) × (text_eq j k ≡ false)
unfolding del
has_key-del k j [] h = cc
has_key-del k j ((i, v) ∷ q) h =
    ground (arith, text_eq_iff j k, text_eq_iff i k, text_eq_iff j i, has_key-del k j q)

untracked_of_none :
    (q : Values)
    → ((k : Text) → is_tracking k ≡ true → has_key k (keys q) ≡ true → false ≡ true)
    → untracked q ≡ q
unfolding untracked
untracked_of_none [] h = refl
untracked_of_none ((k, v) ∷ q) h = elim (Bool-cases (is_tracking k)) [
  | inl tracked ↦ cc (h k tracked (ground (arith, text_eq_iff k k)))
  | inr other ↦ rw (other, untracked_of_none q (λ j t m. h j t (ground (arith, m))))
]

-- If every tracking parameter of the query is visited, in whatever order, the loop leaves exactly
-- the values that are not tracked.
pub drop_tracking-untracked :
    (ks : List Text) (q : Values) (dirty : Bool)
    → Visits ks q
    → (drop_tracking ks q dirty).0 ≡ untracked q
unfolding drop_tracking
drop_tracking-untracked [] q dirty h = sym (untracked_of_none q h)
drop_tracking-untracked (k ∷ ks) q dirty h = elim (Bool-cases (is_tracking k)) [
  | inl tracked ↦ rw tracked (
      drop_tracking-untracked ks (del k q) true
        (λ j t m. let (old, other) = has_key-del k j q m in ground (arith, h j t old, other))
      ∙ untracked-del k q tracked)
  | inr plain ↦ rw plain (
      drop_tracking-untracked ks q dirty
        (λ j t m. ground (arith, h j t m, text_eq_iff j k, plain, t)))
]

pub drop_tracking-dirty :
    (ks : List Text) (q : Values) (dirty : Bool)
    → (drop_tracking ks q dirty).1 ≡ (dirty || any is_tracking ks)
unfolding drop_tracking
drop_tracking-dirty [] q dirty = ground arith
drop_tracking-dirty (k ∷ ks) q dirty =
    ground (arith, drop_tracking-dirty ks (del k q) true, drop_tracking-dirty ks q dirty)

keys-Visits : (q : Values) → Visits (keys q) q
keys-Visits q k t m = m

-- A URL that parses is rebuilt from its untracked values if it has a tracking parameter, and is
-- returned as it is if it has none.
strip_tracking_params_lem :
    (net_url : UrlPackage) (raw : Text) (u : net_url.Url)
    → net_url.parse raw ≡ some u
    → strip_tracking_params net_url raw ≡ (
        if any is_tracking (keys (net_url.query u))
        then net_url.url_string
            (net_url.with_raw_query (net_url.encode (untracked (net_url.query u))) u)
        else raw)
unfolding strip_tracking_params
strip_tracking_params_lem net_url raw u h =
    let q = net_url.query u in
    rw (
      h,
      drop_tracking-dirty (keys q) q false,
      drop_tracking-untracked (keys q) q false (keys-Visits q),
    )
