-- ===== src/Repo/Uuid.antt =====
-- `uuidToString` of services/intake/internal/repo/postgres.go.
pub mod RoundTrip
use job_stream.Base.{
  ℕ, ◌-◌, ◌≤◌, ◌≡◌, ◌≢◌, ap, List, ◌∷◌, ◌++◌, Text, arith, take, drop, length, length-append,
  length-take, length-drop,
}
use job_stream.Dedup.{hex, pending_sentinel}
use job_stream.Dedup.Keys.{length-hex}

-- `h[lo:hi]` of the hexadecimal digits, which are single bytes.
abbrev pub slice : Text → ℕ → ℕ → Text
slice h lo hi = take (hi - lo) (drop lo h)

unfoldable pub uuid_to_string : List ℕ → Text
uuid_to_string b =
    let h = hex b in
    slice h 0 8
    ++ (b'-' ∷ slice h 8 12)
    ++ (b'-' ∷ slice h 12 16)
    ++ (b'-' ∷ slice h 16 20)
    ++ (b'-' ∷ slice h 20 32)

length-slice : (h : Text) (lo hi : ℕ) → lo ≤ hi → hi ≤ length h → length (slice h lo hi) ≡ hi - lo
length-slice h lo hi p q = omega (arith, length-take (hi - lo) (drop lo h), length-drop lo h)

-- The canonical form of sixteen bytes has thirty-six characters.
pub length-uuid_to_string : (b : List ℕ) → length b ≡ 16 → length (uuid_to_string b) ≡ 36
unfolding uuid_to_string
length-uuid_to_string b e =
    let h = hex b in
    let n : length h ≡ 32 = omega (arith, length-hex b, e) in
    let s0 = slice h 0 8 in
    let s1 = b'-' ∷ slice h 8 12 in
    let s2 = b'-' ∷ slice h 12 16 in
    let s3 = b'-' ∷ slice h 16 20 in
    let s4 = b'-' ∷ slice h 20 32 in
    omega (
      arith,
      length-append (s0 ++ s1 ++ s2 ++ s3) s4,
      length-append (s0 ++ s1 ++ s2) s3,
      length-append (s0 ++ s1) s2,
      length-append s0 s1,
      length-slice h 0 8 (omega arith) (omega arith),
      length-slice h 8 12 (omega arith) (omega arith),
      length-slice h 12 16 (omega arith) (omega arith),
      length-slice h 16 20 (omega arith) (omega arith),
      length-slice h 20 32 (omega arith) (omega arith),
    )

-- No id is the deduper's sentinel.
pub uuid_to_string-ne-sentinel : (b : List ℕ) → length b ≡ 16 → uuid_to_string b ≢ pending_sentinel
uuid_to_string-ne-sentinel b e same =
    let lengths = length-uuid_to_string b e in absurd (omega (arith, lengths, ap length same))
