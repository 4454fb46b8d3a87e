-- ===== src/Repo/Timestamps.antt =====
-- What a column of type TIMESTAMPTZ keeps of a time in nanoseconds: whole microseconds, as pgx cuts
-- them before Postgres does.
use job_stream.Base.{◌+◌, ◌*◌, ◌/◌, ◌<◌, pos, negsuc}
use job_stream.Proto.{Time}

-- A time of the years 1 to 9999, for which protobuf's Timestamp and TIMESTAMPTZ are both defined.
abbrev pub IsTimestamp : Time → Type 0
IsTimestamp (pos n) = n < 253402300800000000000
IsTimestamp (negsuc n) = n < 62135596800000000000

-- The last whole microsecond that is not after the time.
abbrev pub to_micros : Time → Time
to_micros (pos n) = pos (n / 1000 * 1000)
to_micros (negsuc n) = negsuc (n / 1000 * 1000 + 999)
