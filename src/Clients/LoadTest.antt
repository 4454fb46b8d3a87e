-- ===== src/Clients/LoadTest.antt =====
-- The scraper's `main`. Division and printing of floats and durations are parameters of the summary;
-- the flag of the deadline is in what `ctx_err` and `wait` answer.
pub mod Summed
use job_stream.Base.{ℕ, Option, none, some, ◌++◌, ℤ, Text, codes, Result, ok, err}
use job_stream.Proto.{Time, BatchSubmitApplicationRequest, BatchSubmitApplicationResponse}
use job_stream.Errors.{Error, error_text}
use job_stream.Auth.Jwt.{JwtPackage}
use job_stream.Stubs.{Connection}
use job_stream.Scraper.{
  Stats, FakerPackage, Config, RunEnd, bad_config, ended, panic, out_of_fuel, Outside, run,
}
use job_stream.Scraper.Summary.{print}
use job_stream.Clients.{bearer_token, batch_submit}

-- What is on standard output, and the message that log.Fatalf ends the program with.
pub data Exit : Type 0 where
  ends : Option Text → Option Text → Exit
  -- a panic of the generator, and a model without fuel
  crashed : Exit

module _ (fake : FakerPackage) where
  pub record ScraperFlags : Type 0 where
    pub addr : Text
    pub jwt_secret : Text
    pub token : Text
    pub cfg : Config fake

  -- What stats.Print writes.
  abbrev pub summary : (ℕ → ℤ → fake.Float) → (ℤ → Text) → (fake.Float → Text) → Stats → Time → Text
  summary over rounded one_decimal = print fake.float_zero over rounded one_decimal

  module _ (jwt : JwtPackage) {S : Type 0} (now : S → Time × S)
      (new_limiter : fake.Float → ℤ → S → S) (over : ℕ → ℤ → fake.Float) (rounded : ℤ → Text)
      (one_decimal : fake.Float → Text) (wait : S → Option Error × S) (ctx_err : S → Option Error)
      (dial : Text
        → Result Error
            (Connection S BatchSubmitApplicationRequest BatchSubmitApplicationResponse)) where
    unfoldable pub after_run : RunEnd fake × S → Exit × S
    after_run (bad_config e, s) = (ends none (some (codes "run: " ++ error_text e)), s)
    after_run (ended st none, s) =
        let (t, s') = now s in (ends (some (summary over rounded one_decimal st t)) none, s')
    after_run (ended st (some e), s) =
        let (t, s') = now s in
        (
          ends (some (summary over rounded one_decimal st t))
              (some (codes "run: " ++ error_text e)),
          s',
        )
    after_run (panic, s) = (crashed, s)
    after_run (out_of_fuel, s) = (crashed, s)

    -- What the run acts on, with `grpcSubmitter` for the client.
    unfoldable pub outside :
        Text
        → Connection S BatchSubmitApplicationRequest BatchSubmitApplicationResponse
        → Outside fake S
    outside bearer conn = record {
      now = now;
      new_limiter = new_limiter;
      wait = wait;
      ctx_err = ctx_err;
      batch_submit = batch_submit bearer conn;
    }

    after_dial :
        ScraperFlags
        → Text
        → Result Error (Connection S BatchSubmitApplicationRequest BatchSubmitApplicationResponse)
        → S
        → Exit × S
    after_dial flags bearer (err e) s =
        (ends none (some (codes "dial " ++ flags.addr ++ codes ": " ++ error_text e)), s)
    after_dial flags bearer (ok conn) s = after_run (run fake (outside bearer conn) flags.cfg s)

    after_token : ScraperFlags → Result Error Text → S → Exit × S
    unfolding after_dial
    after_token flags (err e) s = (ends none (some (codes "mint jwt: " ++ error_text e)), s)
    after_token flags (ok bearer) s = after_dial flags bearer (dial flags.addr) s

    -- `main`. The clock is read where no token is minted, too, which nobody sees.
    unfoldable pub scraper_main : ScraperFlags → S → Exit × S
    unfolding after_token
    scraper_main flags s =
        let (t, s') = now s in
        after_token flags (bearer_token jwt t flags.token flags.jwt_secret flags.cfg.user_id) s'
