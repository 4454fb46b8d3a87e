-- ===== src/Examples/LoadTest.antt =====
-- A generator that counts, and a configuration of the load test.
use job_stream.Base.{ℕ, suc, ltb, leb, Text, ◌++◌, codes, decimal, pos, arith}
use job_stream.Scraper.{FakerPackage, Config}
use job_stream.Scraper.Totals.{FakerLaws}

abbrev counted : Text → ℕ → Text × ℕ
counted name f = (name ++ decimal f, suc f)

abbrev pub counter : FakerPackage
counter = record {
  Float = ℕ;
  float_text = decimal;
  float_zero = 0;
  float_one = 100;
  less = ltb;
  at_most = leb;
  Faker = ℕ;
  new_faker = λ seed. seed;
  float64 = λ f. (40, suc f);
  int_range = λ lo hi f. (lo, suc f);
  job_title = counted (codes "job");
  company = counted (codes "company");
  url = counted (codes "https://jobs.example/");
  uuid = counted (codes "id");
}

pub counter-FakerLaws : FakerLaws counter
counter-FakerLaws = record { in_range = λ lo hi f h. (omega arith, h) }

abbrev pub config : Config counter
config = record {
  user_id = codes "ann";
  total = pos 5;
  batch_size = pos 2;
  rps = 3;
  burst = pos 0;
  dup_pct = 50;
  seed = 7;
}
