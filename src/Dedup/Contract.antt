-- ===== src/Dedup/Contract.antt =====
-- What a deduper promises its client, and the Redis deduper over a Redis that answers every call
-- and expires nothing meanwhile.
use job_stream.Base.{
  ℕ, Bool, true, false, ◌≡◌, ◌≢◌, refl, ap, ◌∙◌, Option, none, some, List, [], Text, arith, text_eq,
  text_eq_iff, if◌then◌else◌,
}
use job_stream.Errors.{Error}
use job_stream.Dedup.{
  Deduper, Reply, value, redis_nil, Redis, pending_ttl, pending_sentinel, key, read_reply,
  redis_deduper,
}

-- What a key holds: nothing, the claim of a request under way, or the id of an application.
pub data Entry : Type 0 where
  free pending : Entry
  committed : Text → Entry

-- One entry is replaced.
abbrev pub update : (Text → Entry) → Text → Entry → Text → Entry
update entries k e j = if text_eq j k then e else entries j

-- What `Check` answers for an entry: an id only if it is committed.
abbrev pub seen : Entry → Text × Bool × Option Error
seen free = ([], false, none)
seen pending = ([], false, none)
seen (committed id) = (id, true, none)

abbrev pub is_free : Entry → Bool
is_free free = true
is_free _ = false

-- What a claim leaves behind.
abbrev pub claimed : Entry → Entry
claimed free = pending
claimed e = e

-- The contract: `entries` is the view of the world, `key_of` the key of a submission. A
-- committed id is never the sentinel.
pub record DeduperContract {W : Type 0} (d : Deduper W) (key_of : Text → Text → Text → Text)
    (entries : W → Text → Entry) : Type 0 where
  pub check_answer : (u c t : Text) (w : W) → (d.check u c t w).0 ≡ seen (entries w (key_of u c t))
  pub check_entries :
      (u c t : Text) (w : W) (j : Text) → entries (d.check u c t w).1 j ≡ entries w j
  pub claim_answer :
      (u c t : Text) (w : W) → (d.claim u c t w).0 ≡ (is_free (entries w (key_of u c t)), none)
  pub claim_entries :
      (u c t : Text) (w : W) (j : Text)
      → entries (d.claim u c t w).1 j
        ≡ update (entries w) (key_of u c t) (claimed (entries w (key_of u c t))) j
  pub set_entries :
      (u c t id : Text) (w : W) (j : Text)
      → id ≢ pending_sentinel
      → entries (d.set u c t id w).1 j ≡ update (entries w) (key_of u c t) (committed id) j
  pub release_entries :
      (u c t : Text) (w : W) (j : Text)
      → entries (d.release u c t w).1 j ≡ update (entries w) (key_of u c t) free j

abbrev pub reply_of : Option Text → Reply
reply_of none = redis_nil
reply_of (some v) = value v

abbrev pub is_none : Option Text → Bool
is_none none = true
is_none (some _) = false

abbrev pub or_old : Option Text → Text → Option Text
or_old none v = some v
or_old (some x) v = some x

-- The documented effect of the commands, where none fails and no key expires.
pub record RedisLaws {W : Type 0} (client : Redis W) (live : W → Text → Option Text) : Type 0 where
  pub get_reply : (k : Text) (w : W) → (client.get k w).0 ≡ reply_of (live w k)
  pub get_live : (k : Text) (w : W) (j : Text) → live (client.get k w).1 j ≡ live w j
  pub set_nx_reply :
      (k v : Text) (ttl : ℕ) (w : W) → (client.set_nx k v ttl w).0 ≡ (is_none (live w k), none)
  pub set_nx_live :
      (k v : Text) (ttl : ℕ) (w : W) (j : Text)
      → live (client.set_nx k v ttl w).1 j ≡ (if text_eq j k then or_old (live w k) v else live w j)
  pub set_live :
      (k v : Text) (ttl : ℕ) (w : W) (j : Text)
      → live (client.set k v ttl w).1 j ≡ (if text_eq j k then some v else live w j)
  pub del_live :
      (k : Text) (w : W) (j : Text)
      → live (client.del k w).1 j ≡ (if text_eq j k then none else live w j)

-- How a value reads as an entry.
unfoldable pub entry_of : Option Text → Entry
entry_of none = free
entry_of (some v) = if text_eq v pending_sentinel then pending else committed v

read_reply-entry_of : (o : Option Text) → read_reply (reply_of o) ≡ seen (entry_of o)
unfolding read_reply entry_of
read_reply-entry_of none = refl
read_reply-entry_of (some v) = ground arith

is_none-entry_of : (o : Option Text) → is_none o ≡ is_free (entry_of o)
unfolding entry_of
is_none-entry_of none = refl
is_none-entry_of (some v) = ground arith

entry_of-or_old : (o : Option Text) → entry_of (or_old o pending_sentinel) ≡ claimed (entry_of o)
unfolding entry_of
entry_of-or_old none = rw ((text_eq_iff pending_sentinel pending_sentinel).1 refl)
entry_of-or_old (some v) = ground arith

entry_of-id : (id : Text) → id ≢ pending_sentinel → entry_of (some id) ≡ committed id
unfolding entry_of
entry_of-id id h = ground (arith, text_eq_iff id pending_sentinel)

entry_of-if :
    (b : Bool) (o p : Option Text)
    → entry_of (if b then o else p) ≡ (if b then entry_of o else entry_of p)
entry_of-if true o p = refl
entry_of-if false o p = refl

module _ (lower : ℕ → ℕ) (sha256 : Text → List ℕ) {W : Type 0} (client : Redis W) (ttl : ℕ) where
  -- Over a Redis that keeps its laws, so that no command fails and no key expires, the Redis
  -- deduper meets the contract, with the live values read as entries.
  pub redis_deduper-DeduperContract :
      (live : W → Text → Option Text)
      → RedisLaws client live
      → DeduperContract
          (redis_deduper lower sha256 client ttl)
          (key lower sha256)
          (λ w j. entry_of (live w j))
  unfolding redis_deduper
  redis_deduper-DeduperContract live laws = record {
    check_answer = λ u c t w.
        ap read_reply (laws.get_reply (key lower sha256 u c t) w)
        ∙ read_reply-entry_of (live w (key lower sha256 u c t));
    check_entries = λ u c t w j. ap entry_of (laws.get_live (key lower sha256 u c t) w j);
    claim_answer = λ u c t w.
        laws.set_nx_reply (key lower sha256 u c t) pending_sentinel pending_ttl w
        ∙ ap (λ b. (b, none)) (is_none-entry_of (live w (key lower sha256 u c t)));
    claim_entries = λ u c t w j.
        ap entry_of (laws.set_nx_live (key lower sha256 u c t) pending_sentinel pending_ttl w j)
        ∙ entry_of-if (text_eq j (key lower sha256 u c t)) _ _
        ∙ ap (λ e. if text_eq j (key lower sha256 u c t) then e else entry_of (live w j))
            (entry_of-or_old (live w (key lower sha256 u c t)));
    set_entries = λ u c t id w j h.
        ap entry_of (laws.set_live (key lower sha256 u c t) id ttl w j)
        ∙ entry_of-if (text_eq j (key lower sha256 u c t)) _ _
        ∙ ap (λ e. if text_eq j (key lower sha256 u c t) then e else entry_of (live w j))
            (entry_of-id id h);
    release_entries = λ u c t w j.
        unfold entry_of in
        (ap entry_of (laws.del_live (key lower sha256 u c t) w j)
          ∙ entry_of-if (text_eq j (key lower sha256 u c t)) none (live w j));
  }
