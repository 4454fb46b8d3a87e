-- ===== src/Repo/Int16.antt =====
-- The range of the columns that hold the enums.
use job_stream.Base.{◌<◌, ℤ, pos, negsuc}

-- The values of an int16.
abbrev pub IsInt16 : ℤ → Type 0
IsInt16 (pos n) = n < 32768
IsInt16 (negsuc n) = n < 32768
