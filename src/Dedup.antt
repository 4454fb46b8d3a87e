-- ===== src/Dedup.antt =====
-- services/intake/internal/dedup/dedup.go: the deduper's interface, its no-op and its Redis
-- implementation. `W` is the state of the world that the calls act on; a call that fails may
-- change it too. The Redis client, SHA-256 and `unicode.ToLower` are parameters.
pub mod Keys
pub mod Contract
pub mod Updates
use job_stream.Base.{
  ℕ, ◌*◌, ◌+◌, ◌/◌, ◌%◌, ◌-◌, Bool, true, false, Option, none, some, List, [], ◌∷◌, ◌++◌, Text,
  codes, text_eq, ltb, if◌then◌else◌,
}
use job_stream.Strings.{trim_space, to_lower}
use job_stream.Errors.{Error}

-- The interface `Deduper`. The last component of each answer is the error, `none` for nil.
pub record Deduper (W : Type 0) : Type 0 where
  pub check : Text → Text → Text → W → (Text × Bool × Option Error) × W
  pub claim : Text → Text → Text → W → (Bool × Option Error) × W
  pub set : Text → Text → Text → Text → W → Option Error × W
  pub release : Text → Text → Text → W → Option Error × W

unfoldable pub noop_deduper : (W : Type 0) → Deduper W
noop_deduper W = record {
  check = λ user_id company job_title w. (([], false, none), w);
  claim = λ user_id company job_title w. ((true, none), w);
  set = λ user_id company job_title id w. (none, w);
  release = λ user_id company job_title w. (none, w);
}

-- The answer of a GET: `redis.Nil` where the key does not exist.
pub data Reply : Type 0 where
  value : Text → Reply
  redis_nil : Reply
  failed : Error → Reply

-- The calls of go-redis that the deduper makes, with times to live in seconds.
pub record Redis (W : Type 0) : Type 0 where
  pub get : Text → W → Reply × W
  pub set_nx : Text → Text → ℕ → W → (Bool × Option Error) × W
  pub set : Text → Text → ℕ → W → Option Error × W
  pub del : Text → W → Option Error × W

abbrev pub default_ttl : ℕ
default_ttl = 24 * 3600

abbrev pub pending_ttl : ℕ
pending_ttl = 30

abbrev pub pending_sentinel : Text
pending_sentinel = codes "__pending__"

unfoldable pub hex_digit : ℕ → ℕ
hex_digit n = if ltb n 10 then b'0' + n else b'a' + (n - 10)

-- `%x` of bytes.
unfoldable pub hex : List ℕ → Text
hex [] = []
hex (b ∷ bs) = hex_digit (b / 16) ∷ hex_digit (b % 16) ∷ hex bs

-- `Check`, once GET has answered.
unfoldable pub read_reply : Reply → Text × Bool × Option Error
read_reply redis_nil = ([], false, none)
read_reply (failed e) = ([], false, some e)
read_reply (value v) = if text_eq v pending_sentinel then ([], false, none) else (v, true, none)

module _ (lower : ℕ → ℕ) where
  unfoldable pub normalize : Text → Text
  normalize s = to_lower lower (trim_space s)

  unfoldable pub payload : Text → Text → Text
  payload company job_title = normalize company ++ codes "|" ++ normalize job_title

module _ (lower : ℕ → ℕ) (sha256 : Text → List ℕ) where
  unfoldable pub key : Text → Text → Text → Text
  key user_id company job_title =
      codes "dedup:v1:" ++ user_id ++ codes ":" ++ hex (sha256 (payload lower company job_title))

  module _ {W : Type 0} (client : Redis W) (ttl : ℕ) where
    unfoldable pub redis_check : Text → Text → Text → W → (Text × Bool × Option Error) × W
    redis_check user_id company job_title w =
        let (reply, w') = client.get (key user_id company job_title) w in (read_reply reply, w')

    unfoldable pub redis_claim : Text → Text → Text → W → (Bool × Option Error) × W
    redis_claim user_id company job_title w =
        client.set_nx (key user_id company job_title) pending_sentinel pending_ttl w

    unfoldable pub redis_set : Text → Text → Text → Text → W → Option Error × W
    redis_set user_id company job_title id w = client.set (key user_id company job_title) id ttl w

    unfoldable pub redis_release : Text → Text → Text → W → Option Error × W
    redis_release user_id company job_title w = client.del (key user_id company job_title) w

    unfoldable pub redis_deduper : Deduper W
    unfolding redis_check redis_claim redis_set redis_release
    redis_deduper = record {
      check = redis_check;
      claim = redis_claim;
      set = redis_set;
      release = redis_release;
    }
