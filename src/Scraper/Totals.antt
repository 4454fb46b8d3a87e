-- ===== src/Scraper/Totals.antt =====
-- How a load test ends, and the sums of its statistics.
use job_stream.Base.{
  ℕ, zero, suc, ◌+◌, ◌-◌, ◌≤◌, ◌<◌, true, false, ◌≡◌, refl, ap, sym, ◌∙◌, subst, inl, inr, Option,
  none, some, List, [], ◌∷◌, Text, pos, arith, ◌==◌, ltb, length, get_elem?, is_empty, Result, ok,
  err, Bool-cases, if◌then◌else◌,
}
use job_stream.Proto.{
  Time, SubmitApplicationRequest, BatchSubmitApplicationRequest, BatchSubmitApplicationResponse,
  BatchSubmitResult, get_application_id,
}
use job_stream.Errors.{Error}
use job_stream.Scraper.{
  Stats, record_rpc_error, record_rpc_success, count_results, FakeApplication, FakerPackage,
  Generator, with_url, duplicate, fresh, next, cons_request, build_batch, RunEnd, ended, Outside,
  tally, after_wait, after_batch, run_from, Config, new_stats, new_generator, burst_of, checked_run,
  run,
}

-- The sums of the summary add up.
pub record IsConsistent (s : Stats) : Type 0 where
  pub rpcs : s.rpcs_attempted ≡ s.rpcs_ok + s.rpcs_failed
  pub apps : s.apps_attempted ≡ s.apps_ok + s.apps_failed

count_results-length :
    (rs : List BatchSubmitResult) → (count_results rs).0 + (count_results rs).1 ≡ length rs
unfolding count_results
count_results-length [] = refl
count_results-length (r ∷ rs) = elim (Bool-cases (is_empty (get_application_id r))) [
  | inl failed ↦ rw failed (omega (arith, count_results-length rs))
  | inr good ↦ rw good (omega (arith, count_results-length rs))
]

tally-IsConsistent :
    (n : ℕ) (r : Result Error BatchSubmitApplicationResponse) (s : Stats)
    → IsConsistent s
    → IsConsistent (tally n r s)
unfolding tally record_rpc_error record_rpc_success
tally-IsConsistent n (err e) s h = record {
  rpcs = omega (arith, h.rpcs);
  apps = omega (arith, h.apps);
}
tally-IsConsistent n (ok resp) s h = record {
  rpcs = omega (arith, h.rpcs);
  apps = omega (arith, h.apps);
}

tally-apps :
    (n : ℕ) (r : Result Error BatchSubmitApplicationResponse) (s : Stats)
    → ((resp : BatchSubmitApplicationResponse) → r ≡ ok resp → length resp.results ≡ n)
    → (tally n r s).apps_attempted ≡ s.apps_attempted + n
unfolding tally record_rpc_error record_rpc_success
tally-apps n (err e) s h = refl
tally-apps n (ok resp) s h = omega (arith, count_results-length resp.results, h resp refl)

get_elem?-some :
    (xs : List FakeApplication) (i : ℕ)
    → i < length xs
    → (x : FakeApplication) × (get_elem? xs i ≡ some x)
get_elem?-some [] i h = absurd (omega (arith, h))
get_elem?-some (x ∷ xs) zero h = (x, refl)
get_elem?-some (x ∷ xs) (suc i) h = get_elem?-some xs i (omega (arith, h))

-- IntRange answers within its bounds.
pub record FakerLaws (fake : FakerPackage) : Type 0 where
  pub in_range :
      (lo hi : ℕ) (f : fake.Faker)
      → lo ≤ hi
      → (lo ≤ (fake.int_range lo hi f).0) × ((fake.int_range lo hi f).0 ≤ hi)

module _ (fake : FakerPackage) (laws : FakerLaws fake) where
  duplicate-some :
      (g : Generator fake) (f : fake.Faker)
      → (length g.pool == 0) ≡ false
      → (app : FakeApplication) × ((duplicate fake g f).0 ≡ some app)
  unfolding duplicate with_url
  duplicate-some g f filled =
      let drawn = fake.int_range 0 (length g.pool - 1) f in
      let (low, high) = laws.in_range 0 (length g.pool - 1) f (omega arith) in
      let (base, found) = get_elem?-some g.pool drawn.0 (ground arith) in
      (_, ap (λ o. (with_url fake g o drawn.1).0) found)

  fresh-some :
      (g : Generator fake) (f : fake.Faker)
      → (app : FakeApplication) × ((fresh fake g f).0 ≡ some app)
  unfolding fresh
  fresh-some g f = (_, refl)

  next-some : (g : Generator fake) → (app : FakeApplication) × ((next fake g).0 ≡ some app)
  unfolding next
  next-some g = elim (Bool-cases (length g.pool == 0)) [
    | inl nothing ↦ let (app, e) = fresh-some g g.faker in (app, rw nothing e)
    | inr filled ↦ elim (Bool-cases (fake.less (fake.float64 g.faker).0 g.dup_pct)) [
      | inl again ↦
          let (app, e) = duplicate-some g (fake.float64 g.faker).1 filled in
          (app, rw (filled, again) e)
      | inr other ↦
          let (app, e) = fresh-some g (fake.float64 g.faker).1 in (app, rw (filled, other) e)
    ]
  ]

  build_batch-some :
      {W : Type 0} (now : W → Time × W) (n : ℕ) (u : Text) (g : Generator fake) (w : W)
      → (batch : List SubmitApplicationRequest) × ((build_batch fake now n u g w).0 ≡ some batch)
        × (length batch ≡ n)
  unfolding build_batch cons_request
  build_batch-some now zero u g w = ([], refl, refl)
  build_batch-some now (suc n) u g w =
      let (app, e) = next-some g in
      let (more, e', size) = build_batch-some now n u (next fake g).1 (now w).1 in
      (
        _,
        ap
              (λ o.
                cons_request fake u (now w).0 o
                  (build_batch fake now n u (next fake g).1 (now w).1).0)
              e
            ∙ ap (cons_request fake u (now w).0 (some app)) e',
        ap suc size,
      )

  module _ {W : Type 0} (out : Outside fake W) where
    -- A client answers with one result for each application.
    abbrev pub IsParallel : Type 0
    IsParallel =
        (req : BatchSubmitApplicationRequest) (w : W) (resp : BatchSubmitApplicationResponse)
        → (out.batch_submit req w).0 ≡ ok resp
        → length resp.results ≡ length req.applications

    -- The end of a run, from the statistics `s` and with `remaining` applications to go.
    pub record Ends (s : Stats) (remaining : ℕ) (end : RunEnd fake) : Type 0 where
      pub stats : Stats
      pub error : Option Error
      pub is_end : end ≡ ended stats error
      pub consistent : IsConsistent stats
      pub total :
          IsParallel
          → ((w : W) → (out.wait w).0 ≡ none)
          → stats.apps_attempted ≡ s.apps_attempted + remaining
      pub clean : ((w : W) → (out.wait w).0 ≡ none) → error ≡ none

    after_wait-Ends :
        (n remaining : ℕ) (batch : List SubmitApplicationRequest) (s : Stats)
        (k : Stats → W → RunEnd fake × W) (answer : Option Error × W) (v : W)
        → out.wait v ≡ answer
        → length batch ≡ n
        → n ≤ remaining
        → IsConsistent s
        → ((s' : Stats) (w' : W) → IsConsistent s' → Ends s' (remaining - n) (k s' w').0)
        → Ends s remaining (after_wait fake out n batch s k answer).0
    unfolding after_wait
    after_wait-Ends n remaining batch s k (some e, w) v asked size fits sound rest = record {
      stats = s;
      error = out.ctx_err w;
      is_end = refl;
      consistent = sound;
      total = λ parallel waits. cc (sym (waits v) ∙ ap (λ (r : Option Error × W). r.0) asked);
      clean = λ waits. cc (sym (waits v) ∙ ap (λ (r : Option Error × W). r.0) asked);
    }
    after_wait-Ends n remaining batch s k (none, w) v asked size fits sound rest =
        let call = out.batch_submit (record { applications = batch }) w in
        let s' = tally n call.0 s in
        let more = rest s' call.1 (tally-IsConsistent n call.0 s sound) in
        record {
          stats = more.stats;
          error = more.error;
          is_end = more.is_end;
          consistent = more.consistent;
          total = λ parallel waits. omega (
            arith,
            more.total parallel waits,
            tally-apps n call.0 s (λ resp answered. parallel _ w resp answered ∙ size),
            fits,
          );
          clean = more.clean;
        }

    ended-Ends :
        (s : Stats) (remaining : ℕ)
        → IsConsistent s
        → remaining ≡ 0
        → Ends s remaining (ended s none)
    ended-Ends s remaining sound over = record {
      stats = s;
      error = none;
      is_end = refl;
      consistent = sound;
      total = λ parallel waits. omega (arith, over);
      clean = λ waits. refl;
    }

    -- With at least as much fuel as there are applications to go, and a positive batch size, the
    -- loop ends with statistics whose sums add up; and if no wait fails and the server answers
    -- with one result for each application, then every application is accounted for. This holds
    -- for every generator whose random indices keep within their bounds.
    pub run_from-Ends :
        (fuel : ℕ) (u : Text) (size remaining : ℕ) (g : Generator fake) (s : Stats) (w : W)
        → 1 ≤ size
        → remaining ≤ fuel
        → IsConsistent s
        → Ends s remaining (run_from fake out fuel u size remaining g s w).0
    unfolding run_from after_batch
    run_from-Ends zero u size remaining g s w positive enough sound =
        let nothing_left : (remaining == 0) ≡ true = ground (arith, enough) in
        rw nothing_left (ended-Ends s remaining sound (omega (arith, enough)))
    run_from-Ends (suc fuel) u size remaining g s w positive enough sound =
        let n = if ltb remaining size then remaining else size in
        let built = build_batch fake out.now n u g w in
        let (batch, e, len) = build_batch-some out.now n u g w in
        let k = run_from fake out fuel u size (remaining - n) built.1 in
        let w1 = built.2 in
        elim (Bool-cases (remaining == 0)) [
          | inl nothing_left ↦
              rw nothing_left (ended-Ends s remaining sound (ground (arith, nothing_left)))
          | inr some_left ↦
              let low : 1 ≤ n = ground (arith, some_left, positive) in
              let high : n ≤ remaining = ground arith in
              rw some_left (
                subst (λ b. Ends s remaining (after_batch fake out n b s k w1).0) (sym e)
                  (after_wait-Ends n remaining batch s k (out.wait w1) w1 refl len high sound
                    λ s' w' sound'.
                      run_from-Ends fuel u size (remaining - n) built.1 s' w' positive
                        (omega (arith, low, enough)) sound'))
        ]

    -- A run with a positive batch size and rate, a total that is not negative and a user ends with
    -- statistics whose sums add up, in the model with the fuel that `run` gives; if no wait fails,
    -- it ends without an error, and if besides the server answers with one result for each
    -- application, then as many applications are attempted as the total says. This holds for
    -- every generator whose random indices keep within their bounds.
    pub run-Ends :
        (cfg : Config fake) (b total : ℕ) (w : W)
        → cfg.batch_size ≡ pos (suc b)
        → cfg.total ≡ pos total
        → fake.at_most cfg.rps fake.float_zero ≡ false
        → is_empty cfg.user_id ≡ false
        → let w1 = out.new_limiter cfg.rps (burst_of cfg.burst) w in
          Ends (new_stats (out.now w1).0) total (run fake out cfg w).0
    unfolding run checked_run
    run-Ends cfg b total w size goal fast named =
        let w1 = out.new_limiter cfg.rps (burst_of cfg.burst) w in
        let sound : IsConsistent (new_stats (out.now w1).0) =
          unfold new_stats in (record { rpcs = refl; apps = refl }) in
        rw (size, goal)
          (rw (fast, named)
            (run_from-Ends total cfg.user_id (suc b) total (new_generator fake cfg.seed cfg.dup_pct)
              (new_stats (out.now w1).0) (out.now w1).1 (omega arith) (omega arith) sound))
