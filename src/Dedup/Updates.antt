-- ===== src/Dedup/Updates.antt =====
-- The replacement of one entry, at the key and at the others.
use job_stream.Base.{
  ◌≡◌, ◌≢◌, refl, ap, sym, ◌∙◌, inl, inr, Text, arith, text_eq, text_eq_iff, Bool-cases,
}
use job_stream.Dedup.Contract.{Entry, update}

pub update_same : (f : Text → Entry) (k : Text) (e : Entry) → update f k e k ≡ e
update_same f k e = rw ((text_eq_iff k k).1 refl)

pub update_other :
    (f : Text → Entry) (k : Text) (e : Entry) (j : Text) → j ≢ k → update f k e j ≡ f j
update_other f k e j h = ground (arith, text_eq_iff j k)

pub update_kept :
    (f : Text → Entry) (k : Text) (e : Entry) → e ≡ f k → (j : Text) → update f k e j ≡ f j
update_kept f k e h j = elim (Bool-cases (text_eq j k)) [
  | inl same ↦ rw same (h ∙ ap f (sym ((text_eq_iff j k).0 same)))
  | inr other ↦ rw other
]

pub update_again :
    (f g : Text → Entry) (k : Text) (a b : Entry)
    → ((i : Text) → g i ≡ update f k a i)
    → (j : Text) → update g k b j ≡ update f k b j
update_again f g k a b h j = elim (Bool-cases (text_eq j k)) [
  | inl same ↦ rw same refl
  | inr other ↦ rw other (rw other at (h j))
]

pub update_back :
    (f g : Text → Entry) (k : Text) (a b : Entry)
    → ((i : Text) → g i ≡ update f k a i)
    → f k ≡ b
    → (j : Text) → update g k b j ≡ f j
update_back f g k a b h e j = elim (Bool-cases (text_eq j k)) [
  | inl same ↦ rw same (sym e ∙ ap f (sym ((text_eq_iff j k).0 same)))
  | inr other ↦ rw other (rw other at (h j))
]

pub update_congr :
    (f g : Text → Entry) (k : Text) (a b : Entry)
    → ((i : Text) → f i ≡ g i)
    → a ≡ b
    → (j : Text) → update f k a j ≡ update g k b j
update_congr f g k a b h e j = elim (Bool-cases (text_eq j k)) [
  | inl same ↦ rw same e
  | inr other ↦ rw other (h j)
]
