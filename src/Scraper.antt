-- ===== src/Scraper.antt =====
-- The load test of sources/scraper: internal/stats, internal/generator and internal/runner.
-- gofakeit, floating point numbers, the limiter and the gRPC client are parameters. Counters are
-- natural numbers: they stay far below 2 ^ 63.

pub mod Totals
pub mod Summary
use job_stream.Base.{
  ℕ, zero, suc, ◌+◌, ◌-◌, Bool, true, false, not, ◌==◌, ltb, Option, none, some, List, [], ◌∷◌,
  ◌++◌, ℤ, pos, negsuc, Text, codes, is_empty, length, get_elem?, decimal_ℤ, Result, ok, err,
  if◌then◌else◌,
}
use job_stream.Proto.{
  Time, source_scraper, SubmitApplicationRequest, BatchSubmitApplicationRequest,
  BatchSubmitApplicationResponse, BatchSubmitResult, get_application_id,
}
use job_stream.Errors.{Error, plain}

-- stats.Stats
pub record Stats : Type 0 where
  pub rpcs_attempted : ℕ
  pub rpcs_ok : ℕ
  pub rpcs_failed : ℕ
  pub apps_attempted : ℕ
  pub apps_ok : ℕ
  pub apps_failed : ℕ
  pub started : Time

unfoldable pub new_stats : Time → Stats
new_stats now = record {
  rpcs_attempted = 0;
  rpcs_ok = 0;
  rpcs_failed = 0;
  apps_attempted = 0;
  apps_ok = 0;
  apps_failed = 0;
  started = now;
}

unfoldable pub record_rpc_error : ℕ → Stats → Stats
record_rpc_error batch_size s = record {
  rpcs_attempted = s.rpcs_attempted + 1;
  rpcs_ok = s.rpcs_ok;
  rpcs_failed = s.rpcs_failed + 1;
  apps_attempted = s.apps_attempted + batch_size;
  apps_ok = s.apps_ok;
  apps_failed = s.apps_failed + batch_size;
  started = s.started;
}

unfoldable pub record_rpc_success : ℕ → ℕ → Stats → Stats
record_rpc_success ok_count fail_count s = record {
  rpcs_attempted = s.rpcs_attempted + 1;
  rpcs_ok = s.rpcs_ok + 1;
  rpcs_failed = s.rpcs_failed;
  apps_attempted = s.apps_attempted + (ok_count + fail_count);
  apps_ok = s.apps_ok + ok_count;
  apps_failed = s.apps_failed + fail_count;
  started = s.started;
}

-- countResults
unfoldable pub count_results : List BatchSubmitResult → ℕ × ℕ
count_results [] = (0, 0)
count_results (r ∷ rs) =
    let (good, bad) = count_results rs in
    if is_empty (get_application_id r) then (good, bad + 1) else (good + 1, bad)

-- What the loop of Run records of an answer.
unfoldable pub tally : ℕ → Result Error BatchSubmitApplicationResponse → Stats → Stats
tally batch_size (err e) st = record_rpc_error batch_size st
tally batch_size (ok resp) st =
    let (good, bad) = count_results resp.results in record_rpc_success good bad st

-- generator.Application
pub record FakeApplication : Type 0 where
  pub job_title : Text
  pub company : Text
  pub url : Text

-- float64 and gofakeit, as far as they are used.
pub record FakerPackage : Type 1 where
  pub Float : Type 0
  pub float_text : Float → Text
  pub float_zero : Float
  pub float_one : Float
  pub less : Float → Float → Bool
  -- `<=`, which is false of a NaN as `<` is.
  pub at_most : Float → Float → Bool
  pub Faker : Type 0
  pub new_faker : ℕ → Faker
  pub float64 : Faker → Float × Faker
  pub int_range : ℕ → ℕ → Faker → ℕ × Faker
  pub job_title : Faker → Text × Faker
  pub company : Faker → Text × Faker
  pub url : Faker → Text × Faker
  pub uuid : Faker → Text × Faker

-- The burst of the limiter: 1 where it is not positive.
unfoldable pub burst_of : ℤ → ℤ
burst_of (pos (suc n)) = pos (suc n)
burst_of _ = pos 1

module _ (fake : FakerPackage) where
  open fake use {Float, float_zero, float_one, less, at_most, Faker, new_faker, float64, int_range}

  pub record Generator : Type 0 where
    pub faker : Faker
    pub dup_pct : Float
    pub pool : List FakeApplication

  unfoldable pub new_generator : ℕ → Float → Generator
  new_generator seed dup_pct = record {
    faker = new_faker seed;
    dup_pct =
        if less dup_pct float_zero
        then float_zero
        else if less float_one dup_pct
        then float_one
        else dup_pct;
    pool = [];
  }

  with_faker : Generator → Faker → Generator
  with_faker g f = record { faker = f; dup_pct = g.dup_pct; pool = g.pool }

  -- The element of the pool with another URL; `none` is the panic of an index out of range.
  with_url : Generator → Option FakeApplication → Faker → Option FakeApplication × Generator
  unfolding with_faker
  with_url g none f = (none, with_faker g f)
  with_url g (some base) f =
      let (u, f') = fake.url f in
      (
        some (record { job_title = base.job_title; company = base.company; url = u }),
        with_faker g f',
      )

  unfoldable pub duplicate : Generator → Faker → Option FakeApplication × Generator
  unfolding with_url
  duplicate g f =
      let (i, f') = int_range 0 (length g.pool - 1) f in with_url g (get_elem? g.pool i) f'

  unfoldable pub fresh : Generator → Faker → Option FakeApplication × Generator
  fresh g f =
      let (title, f1) = fake.job_title f in
      let (name, f2) = fake.company f1 in
      let (id, f3) = fake.uuid f2 in
      let app : FakeApplication = record {
        job_title = title;
        company = name;
        url = codes "https://jobs.example.com/" ++ id;
      } in
      (some app, record { faker = f3; dup_pct = g.dup_pct; pool = g.pool ++ app ∷ [] })

  -- `Next`. A number is drawn only if there is something to repeat.
  unfoldable pub next : Generator → Option FakeApplication × Generator
  unfolding duplicate fresh
  next g =
      let (x, f) = float64 g.faker in
      if length g.pool == 0
      then fresh g g.faker
      else if less x g.dup_pct
      then duplicate g f
      else fresh g f

  to_request : Text → Time → FakeApplication → SubmitApplicationRequest
  to_request user_id now app = record {
    user_id = user_id;
    job_title = app.job_title;
    company = app.company;
    url = app.url;
    source = source_scraper;
    applied_at = some now;
  }

  -- What the loop of buildBatch makes of one answer of the generator and of the rest.
  cons_request :
      Text
      → Time
      → Option FakeApplication
      → Option (List SubmitApplicationRequest)
      → Option (List SubmitApplicationRequest)
  cons_request user_id now (some app) (some more) = some (to_request user_id now app ∷ more)
  cons_request user_id now _ _ = none

  -- `buildBatch`, which reads the clock for each item.
  unfoldable pub build_batch :
      {W : Type 0}
      → (W → Time × W)
      → ℕ
      → Text
      → Generator
      → W
      → Option (List SubmitApplicationRequest) × Generator × W
  unfolding cons_request to_request
  build_batch now zero user_id g w = (some [], g, w)
  build_batch now (suc n) user_id g w =
      let (app, g1) = next g in
      let (t, w1) = now w in
      let (more, g2, w2) = build_batch now n user_id g1 w1 in
      (cons_request user_id t app more, g2, w2)

  pub record Config : Type 0 where
    pub user_id : Text
    pub total : ℤ
    pub batch_size : ℤ
    pub rps : Float
    pub burst : ℤ
    pub dup_pct : Float
    pub seed : ℕ

  -- How a run ends: with an error of the configuration, with statistics and the context's error,
  -- with the generator's panic, or (of the model only) without fuel.
  pub data RunEnd : Type 0 where
    bad_config : Error → RunEnd
    ended : Stats → Option Error → RunEnd
    panic : RunEnd
    out_of_fuel : RunEnd

  -- The clock, rate.NewLimiter, the limiter's Wait, the context and the gRPC client act on a world.
  pub record Outside (W : Type 0) : Type 0 where
    pub now : W → Time × W
    pub new_limiter : Float → ℤ → W → W
    pub wait : W → Option Error × W
    pub ctx_err : W → Option Error
    pub batch_submit :
        BatchSubmitApplicationRequest → W → Result Error BatchSubmitApplicationResponse × W

  module _ {W : Type 0} (out : Outside W) where
    -- What Run's loop does with a batch, `k` being the rounds that are left.
    after_wait :
        ℕ
        → List SubmitApplicationRequest
        → Stats
        → (Stats → W → RunEnd × W)
        → Option Error × W
        → RunEnd × W
    after_wait n batch st k (some e, w) = (ended st (out.ctx_err w), w)
    after_wait n batch st k (none, w) =
        let (r, w') = out.batch_submit (record { applications = batch }) w in k (tally n r st) w'

    after_batch :
        ℕ
        → Option (List SubmitApplicationRequest)
        → Stats
        → (Stats → W → RunEnd × W)
        → W
        → RunEnd × W
    after_batch n none st k w = (panic, w)
    after_batch n (some batch) st k w = after_wait n batch st k (out.wait w)

    -- The loop, with `remaining` applications to go.
    unfoldable pub run_from : ℕ → Text → ℕ → ℕ → Generator → Stats → W → RunEnd × W
    unfolding after_batch after_wait
    run_from zero user_id size remaining g st w =
        if remaining == 0 then (ended st none, w) else (out_of_fuel, w)
    run_from (suc fuel) user_id size remaining g st w =
        let n = if ltb remaining size then remaining else size in
        let (batch, g', w1) = build_batch out.now n user_id g w in
        let round = after_batch n batch st (run_from fuel user_id size (remaining - n) g') w1 in
        if remaining == 0 then (ended st none, w) else round

    -- Run, once the configuration is read: a size that is not positive, a total that is negative,
    -- a rate that is not positive and a missing user are refused, in this order.
    checked_run : Config → ℤ → ℤ → W → RunEnd × W
    checked_run cfg (negsuc b) total w =
        (bad_config (plain (codes "batch size must be > 0, got " ++ decimal_ℤ (negsuc b))), w)
    checked_run cfg (pos zero) total w =
        (bad_config (plain (codes "batch size must be > 0, got " ++ decimal_ℤ (pos zero))), w)
    checked_run cfg (pos (suc b)) (negsuc t) w =
        (bad_config (plain (codes "total must be >= 0, got " ++ decimal_ℤ (negsuc t))), w)
    checked_run cfg (pos (suc b)) (pos total) w =
        let w1 = out.new_limiter cfg.rps (burst_of cfg.burst) w in
        let (t, w2) = out.now w1 in
        let started =
          run_from total cfg.user_id (suc b) total (new_generator cfg.seed cfg.dup_pct)
            (new_stats t) w2 in
        if at_most cfg.rps float_zero
        then (bad_config (plain (codes "rps must be > 0, got " ++ fake.float_text cfg.rps)), w)
        else if is_empty cfg.user_id
        then (bad_config (plain (codes "user id is required")), w)
        else started

    -- `Run`. The total is fuel enough, since every round takes one application at least.
    unfoldable pub run : Config → W → RunEnd × W
    unfolding checked_run
    run cfg w = checked_run cfg cfg.batch_size cfg.total w
