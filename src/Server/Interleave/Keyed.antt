-- ===== src/Server/Interleave/Keyed.antt =====
-- The dedup key of a request, and the key that its run works on.
use job_stream.Base.{
  ℕ, Bool, true, false, not, ◌&&◌, ◌≡◌, refl, sym, subst, Option, none, some, List, Text, Result,
  ok, err, pos, Bool-cases, inl, inr,
}
use job_stream.Proto.{
  Application, Time, Source, source_unspecified, source_dashboard, source_chrome_ext,
  source_scraper, source_number, SubmitApplicationRequest,
}
use job_stream.Errors.{Error}
use job_stream.Canonical.{UrlPackage, ApplicationEvent, validate}
use job_stream.Transform.{
  Transformer, transformer_for, from_dashboard, from_chrome_ext, from_scraper,
}
use job_stream.Repo.{ApplicationRecord}
use job_stream.Server.{is_nil}
use job_stream.Server.Calls.{Services}
use job_stream.Server.Interleave.Stages
use job_stream.Server.Interleave.Stages.{
  Stage, fresh, checking, claiming, rechecking, inserting, committing, releasing, finished, gave_up,
  validated, checked, rechecked, inserted, transformed, advance,
}
use job_stream.Server.Interleave.Phases.{event_key}

module _ (lower : ℕ → ℕ) (net_url : UrlPackage) (key_of : Text → Text → Text → Text) where
  unfoldable pub key_at : SubmitApplicationRequest → Result Error Transformer → Option Text
  key_at req (err x) = none
  key_at req (ok tf) = some (event_key key_of (tf req))

  -- The key of a request's canonical event; none if its source is not supported. The time of the
  -- transformation plays no part in it.
  unfoldable pub request_key : SubmitApplicationRequest → Option Text
  unfolding key_at
  request_key req = key_at req (transformer_for lower net_url (pos 0) req.source)

  key_at-now :
      (req : SubmitApplicationRequest) (src : Source) (now : Time)
      → key_at req (transformer_for lower net_url now src)
        ≡ key_at req (transformer_for lower net_url (pos 0) src)
  unfolding key_at transformer_for from_dashboard from_chrome_ext from_scraper
  key_at-now req source_unspecified now = refl
  key_at-now req source_dashboard now = refl
  key_at-now req source_chrome_ext now = refl
  key_at-now req source_scraper now = refl
  key_at-now req (source_number n) now = refl

  -- A run of `req` that stands at this stage works on the key of `req`.
  abbrev pub Keyed : SubmitApplicationRequest → Stage → Type 0
  Keyed req (fresh r) = r ≡ req
  Keyed req (checking e) = request_key req ≡ some (event_key key_of e)
  Keyed req (claiming e) = request_key req ≡ some (event_key key_of e)
  Keyed req (rechecking e) = request_key req ≡ some (event_key key_of e)
  Keyed req (inserting e) = request_key req ≡ some (event_key key_of e)
  Keyed req (committing e rec) = request_key req ≡ some (event_key key_of e)
  Keyed req (releasing e x) = request_key req ≡ some (event_key key_of e)
  Keyed req (finished e id) = request_key req ≡ some (event_key key_of e)
  Keyed req (gave_up x) = Unit

  validated-Keyed :
      (req : SubmitApplicationRequest) (e : ApplicationEvent) (o : Option Error)
      → request_key req ≡ some (event_key key_of e)
      → Keyed req (validated e o)
  unfolding validated
  validated-Keyed req e none h = h
  validated-Keyed req e (some x) h = tt

  transformed-Keyed :
      (marshal : Application → Result Error (List ℕ)) (req : SubmitApplicationRequest)
      (r : Result Error Transformer)
      → key_at req r ≡ request_key req
      → Keyed req (transformed lower net_url marshal req r)
  unfolding transformed key_at
  transformed-Keyed marshal req (err x) h = tt
  transformed-Keyed marshal req (ok tf) h =
      validated-Keyed req (tf req) (validate lower net_url (tf req)) (sym h)

  module _ (req : SubmitApplicationRequest) (e : ApplicationEvent)
      (h : request_key req ≡ some (event_key key_of e)) where
    checked-Keyed : (r : Text × Bool × Option Error) → Keyed req (checked e r)
    unfolding checked
    checked-Keyed (id, hit, x) = elim (Bool-cases (is_nil x && hit)) [
      | inl b ↦ rw b h
      | inr b ↦ rw b h
    ]

    rechecked-Keyed : (r : Text × Bool × Option Error) → Keyed req (rechecked e r)
    unfolding rechecked
    rechecked-Keyed (id, true, x) = h
    rechecked-Keyed (id, false, x) = tt

    claimed-Keyed : (r : Bool × Option Error) → Keyed req (Stages.claimed e r)
    unfolding Stages.claimed
    claimed-Keyed (won, x) = elim (Bool-cases (is_nil x && not won)) [
      | inl b ↦ rw b h
      | inr b ↦ rw b h
    ]

    inserted-Keyed : (r : Result Error ApplicationRecord) → Keyed req (inserted e r)
    unfolding inserted
    inserted-Keyed (ok rec) = h
    inserted-Keyed (err x) = h

  pub advance-Keyed :
      (marshal : Application → Result Error (List ℕ)) {W : Type 0} (s : Services W)
      (req : SubmitApplicationRequest) (st : Stage) (w : W)
      → Keyed req st
      → Keyed req (advance lower net_url marshal s st w).0
  unfolding advance request_key
  advance-Keyed marshal s req (fresh r) w h =
      subst
        (λ q.
          Keyed req (
            transformed lower net_url marshal q (transformer_for lower net_url (s.now w) q.source)))
        (sym h)
        (transformed-Keyed marshal req (transformer_for lower net_url (s.now w) req.source)
          (key_at-now req req.source (s.now w)))
  advance-Keyed marshal s req (checking e) w h = checked-Keyed req e h _
  advance-Keyed marshal s req (claiming e) w h = claimed-Keyed req e h _
  advance-Keyed marshal s req (rechecking e) w h = rechecked-Keyed req e h _
  advance-Keyed marshal s req (inserting e) w h = inserted-Keyed req e h _
  advance-Keyed marshal s req (committing e rec) w h = h
  advance-Keyed marshal s req (releasing e x) w h = tt
  advance-Keyed marshal s req (finished e id) w h = h
  advance-Keyed marshal s req (gave_up x) w h = tt
