-- ===== src/Server/Batch.antt =====
-- `BatchSubmitApplication`: the results of the items, the limits of the size, cancellation.
use job_stream.Base.{
  ℕ, suc, ◌<◌, ◌≤◌, true, false, ◌≡◌, refl, ap, sym, ◌∙◌, subst, ◌⊎◌, inl, inr, Option, none, some,
  List, [], ◌∷◌, Text, Result, ok, err, arith, codes, length, map, ◌==◌, ltb,
}
use job_stream.Proto.{
  Application, SubmitApplicationRequest, BatchSubmitApplicationRequest, BatchSubmitResult,
}
use job_stream.Errors
use job_stream.Errors.{Error}
use job_stream.Canonical.{UrlPackage}
use job_stream.Server.{
  max_batch_size, err_result, item_result, submit_one, too_large, batch_item, batch_loop,
  batch_submit_application,
}
use job_stream.Server.Calls.{done, Services, run, and_then}
use job_stream.Server.Submit.{run-and_then}

module _ (lower : ℕ → ℕ) (net_url : UrlPackage) (marshal : Application → Result Error (List ℕ))
    {W : Type 0} (s : Services W) where
  -- The items are handled one after another, each in the world that the one before left: a
  -- cancelled item costs no call and reports the context's error, any other reports what its own
  -- submission came to.
  pub data Handled : List SubmitApplicationRequest → W → List BatchSubmitResult → W → Type 0 where
    finish : {w : W} → Handled [] w [] w
    cancel :
        {item : SubmitApplicationRequest} {apps : List SubmitApplicationRequest}
        {rs : List BatchSubmitResult} {w w' : W} (e : Error)
        → (s.ctx_err w).0 ≡ some e
        → Handled apps (s.ctx_err w).1 rs w'
        → Handled (item ∷ apps) w (err_result e ∷ rs) w'
    submit :
        {item : SubmitApplicationRequest} {apps : List SubmitApplicationRequest}
        {rs : List BatchSubmitResult} {w w' : W} (r : Result Error Text) (next : W)
        → (s.ctx_err w).0 ≡ none
        → run s (submit_one lower net_url marshal item) (s.ctx_err w).1 ≡ (r, next)
        → Handled apps next rs w'
        → Handled (item ∷ apps) w (item_result r ∷ rs) w'

  pub Handled-length :
      {apps : List SubmitApplicationRequest} {w w' : W} {rs : List BatchSubmitResult}
      → Handled apps w rs w'
      → length rs ≡ length apps
  Handled-length finish = refl
  Handled-length (cancel e h rest) = ap suc (Handled-length rest)
  Handled-length (submit r next h h' rest) = ap suc (Handled-length rest)

  -- One round of the loop, and then the others.
  batch_loop-cons :
      (item : SubmitApplicationRequest) (apps : List SubmitApplicationRequest) (w : W)
      → let first = run s (batch_item lower net_url marshal item (s.ctx_err w).0) (s.ctx_err w).1 in
        let rest = run s (batch_loop lower net_url marshal apps) first.1 in
        run s (batch_loop lower net_url marshal (item ∷ apps)) w ≡ (first.0 ∷ rest.0, rest.1)
  unfolding batch_loop run
  batch_loop-cons item apps w =
      let (e, w₀) = s.ctx_err w in
      let loop = batch_loop lower net_url marshal apps in
      let first = run s (batch_item lower net_url marshal item e) w₀ in
      run-and_then s (batch_item lower net_url marshal item e)
        (λ r. and_then loop (λ rs. done (r ∷ rs))) w₀
      ∙ run-and_then s loop (λ rs. done (first.0 ∷ rs)) first.1

  round-Handled :
      (item : SubmitApplicationRequest) (apps : List SubmitApplicationRequest) (w w' : W)
      (rs : List BatchSubmitResult) (polled : Option Error)
      → (s.ctx_err w).0 ≡ polled
      → let first = run s (batch_item lower net_url marshal item polled) (s.ctx_err w).1 in
        Handled apps first.1 rs w' → Handled (item ∷ apps) w (first.0 ∷ rs) w'
  unfolding batch_item run
  round-Handled item apps w w' rs (some e) h rest = cancel e h rest
  round-Handled item apps w w' rs none h rest =
      let one = submit_one lower net_url marshal item in
      let out = run s one (s.ctx_err w).1 in
      let ran = run-and_then s one (λ r. done (item_result r)) (s.ctx_err w).1 in
      subst (λ (a : BatchSubmitResult × W). Handled (item ∷ apps) w (a.0 ∷ rs) w') (sym ran)
        (submit out.0 out.1 h refl
          (subst (λ (a : BatchSubmitResult × W). Handled apps a.1 rs w') ran rest))

  batch_loop-Handled :
      (apps : List SubmitApplicationRequest) (w : W)
      → let out = run s (batch_loop lower net_url marshal apps) w in Handled apps w out.0 out.1
  unfolding batch_loop run
  batch_loop-Handled [] w = finish
  batch_loop-Handled (item ∷ apps) w =
      let (e, w₀) = s.ctx_err w in
      let first = run s (batch_item lower net_url marshal item e) w₀ in
      subst (λ (a : List BatchSubmitResult × W). Handled (item ∷ apps) w a.0 a.1)
        (sym (batch_loop-cons item apps w))
        (round-Handled item apps w _ _ e refl (batch_loop-Handled apps first.1))

  -- A batch of an admissible size is answered with the results of its items, one for each and in
  -- their order.
  pub batch_submit_application-Handled :
      (req : BatchSubmitApplicationRequest) (w : W)
      → 0 < length req.applications
      → length req.applications ≤ max_batch_size
      → (rs : List BatchSubmitResult) × (w' : W) × (run s
            (batch_submit_application lower net_url marshal req)
            w
          ≡ (ok (record { results = rs }), w'))
        × Handled req.applications w rs w'
        × (length rs ≡ length req.applications)
  unfolding batch_submit_application run
  batch_submit_application-Handled req w some_item not_too_many =
      let out = run s (batch_loop lower net_url marshal req.applications) w in
      let handled = batch_loop-Handled req.applications w in
      let nonempty : (length req.applications == 0) ≡ false = ground arith in
      let small : ltb max_batch_size (length req.applications) ≡ false = ground arith in
      (
        out.0,
        out.1,
        rw (nonempty, small)
            (run-and_then s (batch_loop lower net_url marshal req.applications) _ w),
        handled,
        Handled-length handled,
      )

  -- A batch that is empty, or larger than the maximum, is refused with InvalidArgument as a
  -- whole, and the world is as it was.
  pub batch_submit_application-refuses :
      (req : BatchSubmitApplicationRequest) (w : W)
      → (length req.applications ≡ 0) ⊎ (max_batch_size < length req.applications)
      → (t : Text) × (run s (batch_submit_application lower net_url marshal req) w
          ≡ (err (Errors.status Errors.invalid_argument t), w))
  unfolding batch_submit_application run
  batch_submit_application-refuses req w (inl empty) =
      let none_there : (length req.applications == 0) ≡ true = ground arith in
      (codes "applications must not be empty", rw none_there)
  batch_submit_application-refuses req w (inr many) =
      let nonempty : (length req.applications == 0) ≡ false = ground arith in
      let large : ltb max_batch_size (length req.applications) ≡ true = ground arith in
      (too_large (length req.applications), rw (nonempty, large))

  -- The world after the context has been polled once for each item.
  abbrev pub polled_for : List SubmitApplicationRequest → W → W
  polled_for [] w = w
  polled_for (_ ∷ apps) w = polled_for apps (s.ctx_err w).1

  -- A round of the loop and the others, for an answer of the context.
  abbrev round :
      SubmitApplicationRequest
      → List SubmitApplicationRequest
      → W
      → Option Error
      → List BatchSubmitResult × W
  round item apps w polled =
      let first = run s (batch_item lower net_url marshal item polled) (s.ctx_err w).1 in
      let rest = run s (batch_loop lower net_url marshal apps) first.1 in (first.0 ∷ rest.0, rest.1)

  -- If the context is done, and stays done whenever it is polled, every item that is left
  -- reports its error, and polling the context once for each item is all that happens.
  pub batch_loop-cancelled :
      (e : Error) (apps : List SubmitApplicationRequest) (w : W)
      → (s.ctx_err w).0 ≡ some e
      → ((v : W) → (s.ctx_err v).0 ≡ some e → (s.ctx_err (s.ctx_err v).1).0 ≡ some e)
      → run s (batch_loop lower net_url marshal apps) w
        ≡ (map (λ _. err_result e) apps, polled_for apps w)
  unfolding batch_loop run batch_item
  batch_loop-cancelled e [] w h sticky = refl
  batch_loop-cancelled e (item ∷ apps) w h sticky =
      let rest = batch_loop-cancelled e apps (s.ctx_err w).1 (sticky w h) sticky in
      batch_loop-cons item apps w
      ∙ ap (round item apps w) h
      ∙ ap (λ (r : List BatchSubmitResult × W). (err_result e ∷ r.0, r.1)) rest
