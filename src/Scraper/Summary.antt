-- ===== src/Scraper/Summary.antt =====
-- sources/scraper/internal/stats/stats.go: the summary of a run. `rounded` is the text of a
-- duration that is rounded to milliseconds, `over` the quotient of a count and a duration in
-- seconds, and `one_decimal` a number with one decimal.
use job_stream.Base.{ℕ, ◌++◌, ℤ, pos, suc, sub_ℤ, Text, codes, decimal}
use job_stream.Proto.{Time}
use job_stream.Scraper.{Stats}

module _ {Float : Type 0} (float_zero : Float) (over : ℕ → ℤ → Float) where
  rate_over : ℕ → ℤ → Float
  rate_over apps (pos (suc d)) = over apps (pos (suc d))
  rate_over apps _ = float_zero

  unfoldable pub apps_per_sec : Stats → Time → Float
  unfolding rate_over
  apps_per_sec s now = rate_over s.apps_attempted (sub_ℤ now s.started)

  module _ (rounded : ℤ → Text) (one_decimal : Float → Text) where
    counts : ℕ → ℕ → ℕ → Text
    counts attempted good bad =
        decimal attempted
        ++ codes " attempted, "
        ++ decimal good
        ++ codes " ok, "
        ++ decimal bad
        ++ codes " failed\n"

    -- `Print`
    unfoldable pub print : Stats → Time → Text
    unfolding counts
    print s now =
        codes "── scraper run summary ──\n"
        ++ codes "  elapsed:        "
        ++ rounded (sub_ℤ now s.started)
        ++ codes "\n  rpcs:           "
        ++ counts s.rpcs_attempted s.rpcs_ok s.rpcs_failed
        ++ codes "  applications:   "
        ++ counts s.apps_attempted s.apps_ok s.apps_failed
        ++ codes "  throughput:     "
        ++ one_decimal (apps_per_sec s now)
        ++ codes " apps/sec\n"
