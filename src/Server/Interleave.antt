-- ===== src/Server/Interleave.antt =====
-- Requests that run at the same time: each turn makes one call of one request.
pub mod Stages
pub mod Phases
pub mod Safety
pub mod Moves
pub mod Turns
pub mod Keyed
pub mod Unique
pub mod Progress
pub mod Quiet
use job_stream.Base.{ℕ, Bool, List, [], ◌∷◌, ◌==◌, if◌then◌else◌}
use job_stream.Server.Calls.{Program, Services, step}

-- `f` with another value at `i`.
unfoldable pub set_at {ℓ} : {A : Type ℓ} → (ℕ → A) → ℕ → A → ℕ → A
set_at f i a j = if j == i then a else f j

-- The schedule names, turn by turn, the request whose next call is made. A request that is done
-- lets its turns pass.
unfoldable pub take_turns :
    {W A : Type 0} → Services W → List ℕ → (ℕ → Program A) → W → (ℕ → Program A) × W
unfolding set_at
take_turns s [] programs w = (programs, w)
take_turns s (i ∷ schedule) programs w =
    let (next, w') = step s (programs i) w in take_turns s schedule (set_at programs i next) w'
