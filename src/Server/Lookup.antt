-- ===== src/Server/Lookup.antt =====
-- `GetApplicationStatus`: whose applications it shows, and how its errors are reported.
use job_stream.Base.{
  ℕ, true, false, ◌≡◌, ◌≢◌, refl, ap, sym, ◌∙◌, ◌⊎◌, inl, inr, Option, List, [], ◌++◌, Text, Result,
  ok, err, arith, codes, is_empty, Bool-cases,
}
use job_stream.Proto.{Application, Time, GetApplicationStatusRequest, GetApplicationStatusResponse}
use job_stream.Errors
use job_stream.Errors.{Error, root, wrapped, error_text}
use job_stream.Dedup.{Deduper}
use job_stream.Repo.{ApplicationRecord}
use job_stream.Repo.Uuid.{uuid_to_string}
use job_stream.Repo.Postgres.{Pool, after_scan, postgres_repo}
use job_stream.Repo.Postgres.Rows.{SelectLaws, get_by_id_and_user_id-owned}
use job_stream.Server.{to_application, is_not_found, status_response, get_application_status}
use job_stream.Server.Calls.{Services, run}

status_response-ok :
    (r : Result Error ApplicationRecord) (resp : GetApplicationStatusResponse)
    → status_response r ≡ ok resp
    → (rec : ApplicationRecord) × (r ≡ ok rec) × (resp.application ≡ to_application rec)
unfolding status_response
status_response-ok (ok rec) resp h =
    (rec, refl, sym (ap (λ (x : GetApplicationStatusResponse). x.application) (cc)))
status_response-ok (err e) resp h = ground arith

module _ {W : Type 0} (s : Services W) where
  get_application_status-ok :
      (req : GetApplicationStatusRequest) (w : W) (resp : GetApplicationStatusResponse)
      → (run s (get_application_status req) w).0 ≡ ok resp
      → (rec : ApplicationRecord) × ((s.repo.get_by_id_and_user_id req.application_id req.user_id
            w).0
          ≡ ok rec)
        × (resp.application ≡ to_application rec)
  unfolding get_application_status run
  get_application_status-ok req w resp h = elim (Bool-cases (is_empty req.application_id)) [
    | inl no_id ↦ absurd (cc (rw no_id at h))
    | inr id ↦ elim (Bool-cases (is_empty req.user_id)) [
      | inl no_user ↦ absurd (cc (rw (id, no_user) at h))
      | inr user ↦ status_response-ok _ resp (rw (id, user) at h)
    ]
  ]

  -- A request that names no application, or no user, is refused with InvalidArgument, and the
  -- world is as it was.
  pub get_application_status-refuses :
      (req : GetApplicationStatusRequest) (w : W)
      → (req.application_id ≡ []) ⊎ (req.user_id ≡ [])
      → (t : Text) × (run s (get_application_status req) w
          ≡ (err (Errors.status Errors.invalid_argument t), w))
  unfolding get_application_status run
  get_application_status-refuses req w (inl no_id) =
      let empty : is_empty req.application_id ≡ true = ap is_empty no_id in
      (codes "application_id is required", rw empty)
  get_application_status-refuses req w (inr no_user) =
      let empty : is_empty req.user_id ≡ true = ap is_empty no_user in
      elim (Bool-cases (is_empty req.application_id)) [
        | inl no_id ↦ (codes "application_id is required", rw no_id)
        | inr id ↦ (codes "user_id is required", rw (id, empty))
      ]

module _ {W Tx : Type 0} (quoted : Text → Text) (pool : Pool W Tx) (now : W → Time)
    (ctx_err : W → Option Error × W) (deduper : Deduper W) where
  -- The server's dependencies with Postgres as the repository.
  abbrev pub over_postgres : Services W
  over_postgres = record {
    now = now;
    ctx_err = ctx_err;
    deduper = deduper;
    repo = postgres_repo quoted pool;
  }

  -- Over a database whose SELECT returns only rows that match: an application that is shown
  -- belongs to the user that the request names, and is the one that the request asks for.
  pub get_application_status-owned :
      (laws : SelectLaws pool) (req : GetApplicationStatusRequest) (w : W)
      (resp : GetApplicationStatusResponse)
      → (run over_postgres (get_application_status req) w).0 ≡ ok resp
      → (uid : List ℕ) × (pool.scan_uuid req.application_id ≡ ok uid)
        × (resp.application.id ≡ uuid_to_string uid)
        × (resp.application.user_id ≡ req.user_id)
  unfolding postgres_repo to_application
  get_application_status-owned laws req w resp h =
      let (rec, found, shown) = get_application_status-ok over_postgres req w resp h in
      let (uid, scanned, same_id, same_user) =
        get_by_id_and_user_id-owned quoted pool laws req.application_id req.user_id w rec found in
      (
        uid,
        scanned,
        ap (λ (a : Application). a.id) shown ∙ same_id,
        ap (λ (a : Application). a.user_id) shown ∙ same_user,
      )

  -- A request with both fields, whose id the driver cannot read as a UUID, is answered with
  -- Internal, unless the driver's own error says that nothing was found; the world is as it was.
  get_application_status-malformed :
      (req : GetApplicationStatusRequest) (w : W) (e : Error)
      → req.application_id ≢ []
      → req.user_id ≢ []
      → pool.scan_uuid req.application_id ≡ err e
      → is_not_found (root e) ≡ false
      → (t : Text) × (run over_postgres (get_application_status req) w
          ≡ (err (Errors.status Errors.internal t), w))
  unfolding get_application_status run postgres_repo status_response after_scan
  get_application_status-malformed req w e id user bad other =
      let id' : is_empty req.application_id ≡ false = ground (arith, id) in
      let user' : is_empty req.user_id ≡ false = ground (arith, user) in
      (
        codes "get application: "
            ++ error_text
                (wrapped (codes "invalid uuid " ++ quoted req.application_id ++ codes ": ") e []),
        rw (id', user', bad) (rw other),
      )
