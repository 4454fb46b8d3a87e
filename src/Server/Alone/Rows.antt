-- ===== src/Server/Alone/Rows.antt =====
-- The row behind an answer, for a submission that runs without others.
use job_stream.Base.{
  ℕ, ◌≡◌, refl, ap, sym, ◌∙◌, subst, inl, inr, Option-cases, Result-cases, List, [], ◌∷◌, Text,
  Result, ok, err,
}
use job_stream.Proto.{Application, SubmitApplicationRequest, SubmitApplicationResponse}
use job_stream.Errors.{Error}
use job_stream.Canonical.{UrlPackage, ApplicationEvent, validate}
use job_stream.Transform.{transformer_for}
use job_stream.Dedup.Contract.{Entry, free, pending, committed}
use job_stream.Repo.{ApplicationRecord}
use job_stream.Server.{insert_params, submit_one, submit_response, submit_application}
use job_stream.Server.Calls.{Services, done, run}
use job_stream.Server.Submit.{run-and_then, submit_one_of_IsBadInput}
use job_stream.Server.World.{WorldLaws, ids_at, ids_at-cons_self}
use job_stream.Server.Interleave.Unique.{Agrees}
use job_stream.Server.Alone.{
  key_at_event, Submitted, repeated, in_progress, stored, failed, Becomes, submit_one-Submitted,
}

Agrees-committed :
    (ent : Entry) (ids : List Text) (id : Text)
    → Agrees ent ids
    → ent ≡ committed id
    → ids ≡ id ∷ []
Agrees-committed free ids id h e = cc
Agrees-committed pending ids id h e = cc
Agrees-committed (committed id') ids id h e = cc

Agrees-free : (ent : Entry) (ids : List Text) → Agrees ent ids → ent ≡ free → ids ≡ []
Agrees-free free ids h e = h
Agrees-free pending ids h e = cc
Agrees-free (committed id) ids h e = cc

module _ {W : Type 0} (key_of : Text → Text → Text → Text) (entries : W → Text → Entry)
    (rows : W → List ApplicationRecord) (e : ApplicationEvent) where
  abbrev k : Text
  k = key_at_event key_of entries rows e

  Submitted-row :
      (w w' : W) (r : Result Error Text) (id : Text)
      → Agrees (entries w k) (ids_at key_of (rows w) k)
      → Submitted key_of entries rows e w w' r
      → r ≡ ok id
      → ids_at key_of (rows w') k ≡ id ∷ []
  unfolding insert_params
  Submitted-row w w' r id agrees (repeated id' is kept) h =
      ap (λ rs. ids_at key_of rs k) kept.same_rows
      ∙ Agrees-committed (entries w k) _ id agrees (is ∙ ap committed (cc))
  Submitted-row w w' r id agrees (in_progress is kept) h = cc
  Submitted-row w w' r id agrees (stored rec is holds grown after) h =
      let same : key_of rec.user_id rec.company rec.job_title ≡ k =
        cc (holds.user_id, holds.company, holds.job_title) in
      ap (λ rs. ids_at key_of rs k) grown
      ∙ ids_at-cons_self key_of rec (rows w) k same
      ∙ ap (λ ids. rec.id ∷ ids) (Agrees-free (entries w k) _ agrees is)
      ∙ ap (λ i. i ∷ []) (cc)
  Submitted-row w w' r id agrees (failed x is kept) h = cc

response-ok :
    (r : Result Error Text) (resp : SubmitApplicationResponse)
    → submit_response r ≡ ok resp
    → r ≡ ok resp.application_id
unfolding submit_response
response-ok (ok id) resp h = cc
response-ok (err x) resp h = cc

module _ (lower : ℕ → ℕ) (net_url : UrlPackage) (marshal : Application → Result Error (List ℕ))
    {W : Type 0} (s : Services W) where
  submit_application-ok :
      (req : SubmitApplicationRequest) (w w' : W) (resp : SubmitApplicationResponse)
      → run s (submit_application lower net_url marshal req) w ≡ (ok resp, w')
      → let one = run s (submit_one lower net_url marshal req) w in
        (one.0 ≡ ok resp.application_id) × (one.1 ≡ w')
  unfolding submit_application run
  submit_application-ok req w w' resp h =
      let one = run s (submit_one lower net_url marshal req) w in
      let whole =
        sym
          (run-and_then s (submit_one lower net_url marshal req) (λ r. done (submit_response r)) w)
        ∙ h in
      (
        response-ok one.0 resp (ap (λ (o : Result Error SubmitApplicationResponse × W). o.0) whole),
        ap (λ (o : Result Error SubmitApplicationResponse × W). o.1) whole,
      )

  -- Only a valid submission is answered with an id.
  submit_one-Becomes :
      (req : SubmitApplicationRequest) (w : W) (id : Text)
      → (run s (submit_one lower net_url marshal req) w).0 ≡ ok id
      → (e : ApplicationEvent) × Becomes lower net_url (s.now w) req e
  submit_one-Becomes req w id h =
      elim (Result-cases (transformer_for lower net_url (s.now w) req.source)) [
        | inr (x, unknown) ↦
            cc (rw (submit_one_of_IsBadInput lower net_url marshal s req x w (inl unknown)) at h)
        | inl (tf, chosen) ↦ elim (Option-cases (validate lower net_url (tf req))) [
          | inr (x, invalid) ↦ cc (
              rw
                (submit_one_of_IsBadInput lower net_url marshal s req x w
                  (inr (tf, chosen, invalid)))
                at h)
          | inl valid ↦
              (tf req, record { transformer = tf; chosen = chosen; event = refl; valid = valid })
        ]
      ]

  -- Let the deduper and the repository keep their contracts and agree at every key. A submission
  -- that is answered with an id, and that no other one interrupts, is valid, and the row with that
  -- id is the one row of its key.
  pub submit_application-row :
      (key_of : Text → Text → Text → Text) (entries : W → Text → Entry)
      (rows : W → List ApplicationRecord) (laws : WorldLaws s key_of entries rows)
      (req : SubmitApplicationRequest) (w w' : W) (resp : SubmitApplicationResponse)
      → ((j : Text) → Agrees (entries w j) (ids_at key_of (rows w) j))
      → run s (submit_application lower net_url marshal req) w ≡ (ok resp, w')
      → (e : ApplicationEvent) × Becomes lower net_url (s.now w) req e
        × (ids_at key_of (rows w') (key_at_event key_of entries rows e) ≡ resp.application_id ∷ [])
  submit_application-row key_of entries rows laws req w w' resp agrees h =
      let (answer, after) = submit_application-ok req w w' resp h in
      let (e, b) = submit_one-Becomes req w resp.application_id answer in
      (
        e,
        b,
        subst
            (λ v.
              ids_at key_of (rows v) (key_at_event key_of entries rows e)
              ≡ resp.application_id ∷ [])
            after
            (Submitted-row key_of entries rows e w _ _ resp.application_id (agrees _)
              (submit_one-Submitted lower net_url marshal s key_of entries rows laws req e w b)
              answer),
      )
