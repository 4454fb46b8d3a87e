-- ===== src/Examples/Concurrent.antt =====
-- Three submissions at once over the stores in memory, two of them for one application.
use job_stream.Base.{
  ◌<◌, ◌==◌, false, All, ℕ, zero, suc, ◌⊎◌, inl, inr, ◌≤◌, ◌≡◌, refl, some, List, [], ◌∷◌, Text,
  codes, arith, Result, ok, length,
}
use job_stream.Errors.{Error}
use job_stream.Dedup.Contract.{entry_of}
use job_stream.Server.Calls.{Program, done}
use job_stream.Server.World.{ids_at}
use job_stream.Server.Interleave.Keyed.{request_key, key_at}
use job_stream.Server.Interleave.Unique.{Agrees, after, at_most_one_row, answer-row, answers-agree}
use job_stream.Server.Interleave.Progress.{turns_of, submit_one-answers}
use job_stream.Server.Interleave.Quiet.{finished_schedule-Agrees}
use job_stream.Server.Calls.{step}
use job_stream.Repo.Uuid.{uuid_to_string}
use job_stream.Server.Interleave.{take_turns, set_at}
use job_stream.Examples.Memory.{ascii_lower, links, marshal_id, Memory, services, empty, row_id}
use job_stream.Examples.Computing.{submitted}
use job_stream.Examples.Laws.{entries, rows, key_of, services-WorldLaws}
use job_stream.Examples.Requests.{rivals}

-- The page's submission wins the claim; the form's one asks again once the row is there.
abbrev schedule : List ℕ
schedule = 0 ∷ 1 ∷ 0 ∷ 1 ∷ 0 ∷ 1 ∷ 2 ∷ 0 ∷ 0 ∷ 1 ∷ 2 ∷ 2 ∷ 2 ∷ 2 ∷ []

empty-Agrees : (k : Text) → Agrees (entries empty k) (ids_at key_of (rows empty) k)
unfolding entry_of ids_at
empty-Agrees k = refl

first_id : Text
first_id = uuid_to_string (row_id 1)

-- The key of the two rivals.
abbrev same_key : Text
same_key = key_of (codes "ann") (codes "acme") (codes "go developer")

-- The programs and the world after the schedule.
abbrev outcome : (ℕ → Program (Result Error Text)) × Memory
outcome =
    after ascii_lower links marshal_id services key_of entries rows services-WorldLaws rivals empty
      empty-Agrees schedule

same_request_key :
    request_key ascii_lower links key_of (rivals 0)
    ≡ request_key ascii_lower links key_of (rivals 1)
unfolding submitted request_key key_at
same_request_key = refl

-- Both rivals have the id of the one row, and the third has the next id.
answered :
    (outcome.0 0 ≡ done (ok first_id))
    × (outcome.0 1 ≡ done (ok first_id))
    × (outcome.0 2 ≡ done (ok (uuid_to_string (row_id 2))))
unfolding submitted step take_turns set_at first_id
answered = (refl, refl, refl)

at_most_one_row_example : length (ids_at key_of (rows outcome.1) same_key) ≤ 1
at_most_one_row_example =
    at_most_one_row ascii_lower links marshal_id services key_of entries rows services-WorldLaws
      rivals empty empty-Agrees schedule same_key

answer-row_example :
    (k : Text) × (request_key ascii_lower links key_of (rivals 1) ≡ some k)
    × (ids_at key_of (rows outcome.1) k ≡ first_id ∷ [])
answer-row_example =
    answer-row ascii_lower links marshal_id services key_of entries rows services-WorldLaws rivals
      empty empty-Agrees schedule 1 first_id answered.1

answers-agree_example : first_id ≡ first_id
answers-agree_example =
    answers-agree ascii_lower links marshal_id services key_of entries rows services-WorldLaws
      rivals empty empty-Agrees schedule 0 1 first_id first_id same_request_key answered.0
      answered.1

-- The form's submission asks once more, and then every one of the three has had five turns.
abbrev full_schedule : List ℕ
full_schedule = 1 ∷ schedule

turns_of-zero_of_le : (t : ℕ) (is : List ℕ) → All (λ i. i < t) is → turns_of t is ≡ 0
turns_of-zero_of_le t [] h = refl
turns_of-zero_of_le t (i ∷ is) (h, hs) =
    let other : (t == i) ≡ false = ground (arith, h) in rw other (turns_of-zero_of_le t is hs)

full : (t : ℕ) → (turns_of t full_schedule ≡ 0) ⊎ (5 ≤ turns_of t full_schedule)
full zero = inr (omega arith)
full (suc zero) = inr (omega arith)
full (suc (suc zero)) = inr (omega arith)
full (suc (suc (suc t))) = inl (turns_of-zero_of_le (suc (suc (suc t))) full_schedule (omega arith))

finished_schedule-Agrees_example :
    Agrees
      (entries
        (after ascii_lower links marshal_id services key_of entries rows services-WorldLaws rivals
          empty empty-Agrees full_schedule).1
        same_key)
      (ids_at key_of
        (rows
          (after ascii_lower links marshal_id services key_of entries rows services-WorldLaws rivals
            empty empty-Agrees full_schedule).1)
        same_key)
finished_schedule-Agrees_example =
    finished_schedule-Agrees ascii_lower links marshal_id key_of services entries rows
      services-WorldLaws rivals empty empty-Agrees full_schedule full same_key

submit_one-answers_example : (r : Result Error Text) × (outcome.0 0 ≡ done r)
submit_one-answers_example =
    submit_one-answers ascii_lower links marshal_id services rivals empty schedule 0 (omega arith)
