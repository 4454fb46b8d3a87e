-- ===== src/Repo/Postgres/Lookup.antt =====
-- Finding a stored application again.
use job_stream.Base.{
  ℕ, ◌≡◌, ◌≢◌, ◌⊎◌, inl, inr, refl, ap, sym, ◌∙◌, subst, false, List, [], Text, Result, ok, err,
  codes, length, All, Contains, Contains-map, arith,
}
use job_stream.Errors.{Error, err_not_found, err_no_rows, wrapped, root}
use job_stream.Dedup.Keys.{IsByte}
use job_stream.Repo.{ApplicationRecord}
use job_stream.Repo.Uuid.{uuid_to_string, length-uuid_to_string}
use job_stream.Repo.Postgres.{
  Row, Pool, from_row, is_no_rows, after_get, after_scan, get_by_id_and_user_id, postgres_repo,
}
use job_stream.Repo.Postgres.Atomic.{Tables}
use job_stream.Repo.Postgres.Contract.{records}
use job_stream.Server.World.{LookupContract}

-- What the schema guarantees of `applications`: the id is the primary key, and is a UUID.
pub record IsKeyed (t : Tables) : Type 0 where
  pub unique :
      (r r' : Row) → Contains t.applications r → Contains t.applications r' → r.id ≡ r'.id → r ≡ r'
  pub width : (r : Row) → Contains t.applications r → length r.id ≡ 16
  pub bytes : (r : Row) → Contains t.applications r → All IsByte r.id

-- Documented behaviour: the SELECT by primary key and user returns the row that is there, or
-- fails with an error of the driver; and the driver reads the canonical form of a UUID.
pub record QueryLaws {W Tx : Type 0} (pool : Pool W Tx) (tables : W → Tables) : Type 0 where
  pub finds :
      (row : Row) (w : W)
      → IsKeyed (tables w)
      → Contains (tables w).applications row
      → ((pool.get_application row.id row.user_id w).0 ≡ ok row)
        ⊎ ((e : Error) × ((pool.get_application row.id row.user_id w).0 ≡ err e)
            × (root e ≢ err_no_rows)
            × (root e ≢ err_not_found))
  pub scans : (b : List ℕ) → length b ≡ 16 → All IsByte b → pool.scan_uuid (uuid_to_string b) ≡ ok b

is_no_rows-ne : (e : Error) → e ≢ err_no_rows → is_no_rows e ≡ false
is_no_rows-ne e h = ground (arith, h)

module _ {W Tx : Type 0} (quoted : Text → Text) (pool : Pool W Tx) (tables : W → Tables)
    (laws : QueryLaws pool tables) where
  -- The record of the row, or a fault.
  abbrev IsFound : Row → Result Error ApplicationRecord → Type 0
  IsFound row r = (r ≡ ok (from_row row)) ⊎ ((e : Error) × (r ≡ err e) × (root e ≢ err_not_found))

  after_get-IsFound :
      (row : Row) (answer : Result Error Row × W)
      → (answer.0 ≡ ok row)
        ⊎ ((e : Error) × (answer.0 ≡ err e) × (root e ≢ err_no_rows) × (root e ≢ err_not_found))
      → IsFound row (after_get quoted pool answer).0
  unfolding after_get
  after_get-IsFound row (ok row', w) (inl h) =
      let same : row' ≡ row = cc in inl (ap (λ r. ok (from_row r)) same)
  after_get-IsFound row (ok row', w) (inr (e, h, no_rows, other)) = cc
  after_get-IsFound row (err e', w) (inl h) = cc
  after_get-IsFound row (err e', w) (inr (e, h, no_rows, other)) =
      let same : e ≡ e' = cc in
      let some_rows : is_no_rows (root e') ≡ false =
        ap (λ x. is_no_rows (root x)) (sym same) ∙ is_no_rows-ne (root e) no_rows in
      rw some_rows (
        inr (
          wrapped (codes "get application: ") e' [],
          refl,
          subst (λ x. root x ≢ err_not_found) same other,
        ))

  get_by_id_and_user_id-IsFound :
      (row : Row) (w : W)
      → IsKeyed (tables w)
      → Contains (tables w).applications row
      → IsFound row (get_by_id_and_user_id quoted pool (from_row row).id (from_row row).user_id w).0
  unfolding get_by_id_and_user_id after_scan from_row
  get_by_id_and_user_id-IsFound row w keyed there =
      subst (λ r. IsFound row (after_scan quoted pool (uuid_to_string row.id) row.user_id r w).0)
        (sym (laws.scans row.id (keyed.width row there) (keyed.bytes row there)))
        (after_get-IsFound row (pool.get_application row.id row.user_id w)
          (laws.finds row w keyed there))

  -- Over a database that answers SELECT as documented and whose ids are a primary key: a record
  -- that is stored is found under its id and its user, or the lookup fails with a fault other
  -- than "not found"; and no id is empty.
  pub postgres_repo-LookupContract :
      LookupContract (postgres_repo quoted pool) (λ w. records (tables w)) (λ w. IsKeyed (tables w))
  unfolding postgres_repo
  postgres_repo-LookupContract = record {
    found = λ rec w keyed there.
        let (row, at, same) = Contains-map from_row (tables w).applications rec there in
        subst
          (λ (x : ApplicationRecord).
            let got = get_by_id_and_user_id quoted pool x.id x.user_id w in
            (got.0 ≡ ok x) ⊎ ((e : Error) × (got.0 ≡ err e) × (root e ≢ err_not_found)))
          same (get_by_id_and_user_id-IsFound row w keyed at);
    named = λ rec w keyed there.
        let (row, at, same) = Contains-map from_row (tables w).applications rec there in
        subst (λ (x : ApplicationRecord). x.id ≢ []) same
          λ e.
            absurd (omega (arith, length-uuid_to_string row.id (keyed.width row at), ap length e));
  }
