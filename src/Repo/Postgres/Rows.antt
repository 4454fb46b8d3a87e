-- ===== src/Repo/Postgres/Rows.antt =====
-- Reading a row back, and the conversion of the enums to SMALLINT.
use job_stream.Base.{
  ℕ, ◌-◌, ◌%◌, ◌≡◌, ◌↔◌, subst, refl, ap, sym, ◌∙◌, inl, inr, Result-cases, List, ℤ, pos, negsuc,
  Text, Result, ok, err, arith,
}
use job_stream.Errors.{Error}
use job_stream.Repo.Int16.{IsInt16}
use job_stream.Repo.{ApplicationRecord}
use job_stream.Repo.Uuid.{uuid_to_string}
use job_stream.Repo.Postgres.{
  Row, Pool, to_int16, from_row, after_scan, after_get, get_by_id_and_user_id,
}

pub to_int16-IsInt16 : (n : ℤ) → IsInt16 (to_int16 n)
unfolding to_int16
to_int16-IsInt16 (pos n) = ground arith
to_int16-IsInt16 (negsuc n) = ground arith

-- The conversion to int16 keeps every value that an int16 can hold.
pub to_int16_of_IsInt16 : (n : ℤ) → IsInt16 n → to_int16 n ≡ n
unfolding to_int16
to_int16_of_IsInt16 (pos n) h = ground arith
to_int16_of_IsInt16 (negsuc n) h = ground arith

-- The lowest sixteen bits, in two's complement.
abbrev pub low_bits : ℤ → ℕ
low_bits (pos n) = n % 65536
low_bits (negsuc n) = 65535 - n % 65536

low_bits-to_int16 : (n : ℤ) → low_bits (to_int16 n) ≡ low_bits n
unfolding to_int16
low_bits-to_int16 (pos n) = ground arith
low_bits-to_int16 (negsuc n) = ground arith

low_bits_inj : (m n : ℤ) → IsInt16 m → IsInt16 n → low_bits m ≡ low_bits n → m ≡ n
low_bits_inj (pos m) (pos n) h h' e = ap pos (omega (arith, e, h, h'))
low_bits_inj (pos m) (negsuc n) h h' e = absurd (omega (arith, e, h, h'))
low_bits_inj (negsuc m) (pos n) h h' e = absurd (omega (arith, e, h, h'))
low_bits_inj (negsuc m) (negsuc n) h h' e = ap negsuc (omega (arith, e, h, h'))

-- The conversion to int16 wraps around: it gives the one int16 that has the lowest sixteen bits of
-- the value, and the value itself exactly if that is an int16.
pub to_int16_bounds :
    (n : ℤ)
    → IsInt16 (to_int16 n)
      × (low_bits (to_int16 n) ≡ low_bits n)
      × ((m : ℤ) → IsInt16 m → low_bits m ≡ low_bits n → m ≡ to_int16 n)
      × ((to_int16 n ≡ n) ↔ IsInt16 n)
to_int16_bounds n = (
  to_int16-IsInt16 n,
  low_bits-to_int16 n,
  λ m small same.
      low_bits_inj m (to_int16 n) small (to_int16-IsInt16 n) (same ∙ sym (low_bits-to_int16 n)),
  (λ same. subst IsInt16 same (to_int16-IsInt16 n), to_int16_of_IsInt16 n),
)

-- The answer of `SELECT … WHERE id = $1 AND user_id = $2`: a row that it returns has both.
pub record SelectLaws {W Tx : Type 0} (pool : Pool W Tx) : Type 0 where
  pub matches :
      (uid : List ℕ) (user_id : Text) (w : W) (row : Row)
      → (pool.get_application uid user_id w).0 ≡ ok row
      → (row.id ≡ uid) × (row.user_id ≡ user_id)

module _ {W Tx : Type 0} (quoted : Text → Text) (pool : Pool W Tx) where
  after_get-owned :
      (uid : List ℕ) (user_id : Text) (rec : ApplicationRecord) (answer : Result Error Row × W)
      → ((row : Row) → answer.0 ≡ ok row → (row.id ≡ uid) × (row.user_id ≡ user_id))
      → (after_get quoted pool answer).0 ≡ ok rec
      → (rec.id ≡ uuid_to_string uid) × (rec.user_id ≡ user_id)
  unfolding after_get from_row
  after_get-owned uid user_id rec (err e, w) found h = ground arith
  after_get-owned uid user_id rec (ok row, w) found h =
      let (same_id, same_user) = found row refl in
      let same : from_row row ≡ rec = cc in
      (
        sym (ap (λ (r : ApplicationRecord). r.id) same) ∙ ap uuid_to_string same_id,
        sym (ap (λ (r : ApplicationRecord). r.user_id) same) ∙ same_user,
      )

  -- A record that is found belongs to the user who was asked for, and has the id that was asked
  -- for, in canonical form.
  pub get_by_id_and_user_id-owned :
      (laws : SelectLaws pool) (id user_id : Text) (w : W) (rec : ApplicationRecord)
      → (get_by_id_and_user_id quoted pool id user_id w).0 ≡ ok rec
      → (uid : List ℕ) × (pool.scan_uuid id ≡ ok uid)
        × (rec.id ≡ uuid_to_string uid)
        × (rec.user_id ≡ user_id)
  unfolding get_by_id_and_user_id after_scan
  get_by_id_and_user_id-owned laws id user_id w rec h = elim (Result-cases (pool.scan_uuid id)) [
    | inl (uid, scanned) ↦
        let (same_id, same_user) =
          after_get-owned uid user_id rec (pool.get_application uid user_id w)
            (laws.matches uid user_id w) (rw scanned at h) in
        (uid, scanned, same_id, same_user)
    | inr (e, failed) ↦ absurd (cc (rw failed at h))
  ]
