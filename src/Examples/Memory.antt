-- ===== src/Examples/Memory.antt =====
-- Redis, Postgres, SHA-256, net/url and proto.Marshal in memory.
use job_stream.Base.{
  ℕ, zero, suc, ◌+◌, ◌*◌, ◌%◌, ◌&&◌, Option, none, some, List, [], ◌∷◌, ◌++◌, Text, codes, text_eq,
  leb, ◌==◌, any, drop, length, Result, ok, err, pos, if◌then◌else◌,
}
use job_stream.Proto.{Application}
use job_stream.Errors.{Error, err_no_rows, plain}
use job_stream.Canonical.{UrlPackage}
use job_stream.Strings.{has_prefix}
use job_stream.Dedup.{Redis, redis_deduper}
use job_stream.Dedup.Contract.{is_none, or_old, reply_of}
use job_stream.Repo.Postgres.{Row, InsertApplicationParams, InsertOutboxParams, Pool}
use job_stream.Repo.Timestamps.{to_micros}
use job_stream.Repo.Postgres.Atomic.{Tables}
use job_stream.Repo.Uuid.RoundTrip.{undash, unhex}
use job_stream.Server.Calls.{Services}
use job_stream.Server.Lookup.{over_postgres}

abbrev pub ascii_lower : ℕ → ℕ
ascii_lower c = if leb b'A' c && leb c b'Z' then c + 32 else c

abbrev pub sum : Text → ℕ
sum [] = 0
sum (c ∷ s) = c + 3 * sum s

abbrev pub repeat_byte : ℕ → ℕ → List ℕ
repeat_byte zero b = []
repeat_byte (suc n) b = b ∷ repeat_byte n b

-- Thirty-two bytes.
abbrev pub checksum : Text → List ℕ
checksum s = repeat_byte 32 (sum s % 256)

pub record Link : Type 0 where
  pub text : Text
  pub query : List (Text × List Text)

-- Absolute https URLs; `?` announces the one query that it knows.
abbrev pub links : UrlPackage
links = record {
  Url = Link;
  parse = λ s.
      if has_prefix s (codes "https://")
      then some (record {
        text = s;
        query =
            if any (λ c. c == b'?') s
            then (codes "q", codes "go" ∷ []) ∷ (codes "ref", codes "mail" ∷ []) ∷ []
            else [];
      })
      else none;
  scheme = λ u. codes "https";
  host = λ u. drop 8 u.text;
  query = λ u. u.query;
  encode = λ q. if length q == 0 then [] else codes "q=go";
  with_raw_query =
      λ raw u. record { text = codes "https://jobs.example/?" ++ raw; query = u.query };
  url_string = λ u. u.text;
}

abbrev pub marshal_id : Application → Result Error (List ℕ)
marshal_id a = ok a.id

pub record Memory : Type 0 where
  pub redis : Text → Option Text
  pub tables : Tables
  pub serial : ℕ
  pub cancelled : Option Error

pub record Transaction : Type 0 where
  pub staged_rows : List Row
  pub staged_outbox : List InsertOutboxParams
  pub serial : ℕ

abbrev put : Memory → Text → Option Text → Memory
put w k v = record {
  redis = λ j. if text_eq j k then v else w.redis j;
  tables = w.tables;
  serial = w.serial;
  cancelled = w.cancelled;
}

abbrev pub client : Redis Memory
client = record {
  get = λ k w. (reply_of (w.redis k), w);
  set_nx = λ k v ttl w. ((is_none (w.redis k), none), put w k (or_old (w.redis k) v));
  set = λ k v ttl w. (none, put w k (some v));
  del = λ k w. (none, put w k none);
}

abbrev pub row_id : ℕ → List ℕ
row_id n = n % 256 ∷ repeat_byte 15 0

abbrev pub find_row : List ℕ → Text → List Row → Result Error Row
find_row uid user_id [] = err err_no_rows
find_row uid user_id (row ∷ rows) =
    let rest = find_row uid user_id rows in
    if text_eq row.id uid && text_eq row.user_id user_id then ok row else rest

-- A UUID in canonical form.
abbrev scan : Text → Result Error (List ℕ)
scan s = if length s == 36 then ok (unhex (undash s)) else err (plain (codes "bad UUID"))

abbrev pub new_row : InsertApplicationParams → Transaction → Row
new_row p tx = record {
  id = row_id tx.serial;
  user_id = p.user_id;
  job_title = p.job_title;
  company = p.company;
  url = p.url;
  source = p.source;
  status = p.status;
  applied_at = to_micros p.applied_at;
  created_at = pos 0;
  schema_version = p.schema_version;
}

abbrev pub pool : Pool Memory Transaction
pool = record {
  begin_tx = λ w. (ok (record { staged_rows = []; staged_outbox = []; serial = w.serial }), w);
  insert_application = λ p tx. (
    ok (new_row p tx),
    record {
      staged_rows = new_row p tx ∷ tx.staged_rows;
      staged_outbox = tx.staged_outbox;
      serial = tx.serial + 1;
    },
  );
  insert_outbox = λ o tx. (
    none,
    record {
      staged_rows = tx.staged_rows;
      staged_outbox = o ∷ tx.staged_outbox;
      serial = tx.serial;
    },
  );
  commit = λ tx w. (
    none,
    record {
      redis = w.redis;
      tables = record {
        applications = tx.staged_rows ++ w.tables.applications;
        outbox = tx.staged_outbox ++ w.tables.outbox;
      };
      serial = tx.serial;
      cancelled = w.cancelled;
    },
  );
  rollback = λ tx w. w;
  get_application = λ uid user_id w. (find_row uid user_id w.tables.applications, w);
  scan_uuid = scan;
}

abbrev pub bracketed : Text → Text
bracketed s = b'<' ∷ s ++ b'>' ∷ []

abbrev pub services : Services Memory
services =
    over_postgres bracketed pool (λ w. pos 7) (λ w. (w.cancelled, w))
      (redis_deduper ascii_lower checksum client 60)

abbrev pub empty : Memory
empty = record {
  redis = λ k. none;
  tables = record { applications = []; outbox = [] };
  serial = 1;
  cancelled = none;
}
