-- ===== src/Server/Calls.antt =====
-- A handler as the sequence of its calls: each node is one call of a dependency, with what the
-- handler does next for each answer. `run` makes the calls one after another; `step` makes only
-- the first, so that the handlers of several requests can take turns.
use job_stream.Base.{Bool, Option, Text, Result}
use job_stream.Proto.{Time}
use job_stream.Errors.{Error}
use job_stream.Dedup.{Deduper}
use job_stream.Repo.{ApplicationRecord, InsertParams, PayloadBuilder, ApplicationRepo}

pub data Program (A : Type 0) : Type 0 where
  done : A → Program A
  -- `time.Now().UTC()` and `ctx.Err()`
  time_now : (Time → Program A) → Program A
  context_err : (Option Error → Program A) → Program A
  -- the methods of `Deduper`
  dedup_check : Text → Text → Text → (Text × Bool × Option Error → Program A) → Program A
  dedup_claim : Text → Text → Text → (Bool × Option Error → Program A) → Program A
  dedup_set : Text → Text → Text → Text → (Option Error → Program A) → Program A
  dedup_release : Text → Text → Text → (Option Error → Program A) → Program A
  -- the methods of `ApplicationRepo`
  insert :
      InsertParams
      → Text
      → PayloadBuilder
      → (Result Error ApplicationRecord → Program A)
      → Program A
  select : Text → Text → (Result Error ApplicationRecord → Program A) → Program A

-- What the calls act on.
pub record Services (W : Type 0) : Type 0 where
  pub now : W → Time
  pub ctx_err : W → Option Error × W
  pub deduper : Deduper W
  pub repo : ApplicationRepo W

-- One program after another.
unfoldable pub and_then : {A B : Type 0} → Program A → (A → Program B) → Program B
and_then (done a) f = f a
and_then (time_now k) f = time_now (λ t. and_then (k t) f)
and_then (context_err k) f = context_err (λ e. and_then (k e) f)
and_then (dedup_check u c t k) f = dedup_check u c t (λ r. and_then (k r) f)
and_then (dedup_claim u c t k) f = dedup_claim u c t (λ r. and_then (k r) f)
and_then (dedup_set u c t id k) f = dedup_set u c t id (λ e. and_then (k e) f)
and_then (dedup_release u c t k) f = dedup_release u c t (λ e. and_then (k e) f)
and_then (insert p topic build k) f = insert p topic build (λ r. and_then (k r) f)
and_then (select id u k) f = select id u (λ r. and_then (k r) f)

module _ {W : Type 0} (s : Services W) where
  open s use {now, ctx_err, deduper, repo}

  unfoldable pub step : {A : Type 0} → Program A → W → Program A × W
  step (done a) w = (done a, w)
  step (time_now k) w = (k (now w), w)
  step (context_err k) w = let (e, w') = ctx_err w in (k e, w')
  step (dedup_check u c t k) w = let (r, w') = deduper.check u c t w in (k r, w')
  step (dedup_claim u c t k) w = let (r, w') = deduper.claim u c t w in (k r, w')
  step (dedup_set u c t id k) w = let (e, w') = deduper.set u c t id w in (k e, w')
  step (dedup_release u c t k) w = let (e, w') = deduper.release u c t w in (k e, w')
  step (insert p topic build k) w =
      let (r, w') = repo.insert_with_outbox p topic build w in (k r, w')
  step (select id u k) w = let (r, w') = repo.get_by_id_and_user_id id u w in (k r, w')

  unfoldable pub run : {A : Type 0} → Program A → W → A × W
  run (done a) w = (a, w)
  run (time_now k) w = run (k (now w)) w
  run (context_err k) w = let (e, w') = ctx_err w in run (k e) w'
  run (dedup_check u c t k) w = let (r, w') = deduper.check u c t w in run (k r) w'
  run (dedup_claim u c t k) w = let (r, w') = deduper.claim u c t w in run (k r) w'
  run (dedup_set u c t id k) w = let (e, w') = deduper.set u c t id w in run (k e) w'
  run (dedup_release u c t k) w = let (e, w') = deduper.release u c t w in run (k e) w'
  run (insert p topic build k) w =
      let (r, w') = repo.insert_with_outbox p topic build w in run (k r) w'
  run (select id u k) w = let (r, w') = repo.get_by_id_and_user_id id u w in run (k r) w'
