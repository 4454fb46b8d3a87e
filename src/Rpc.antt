-- ===== src/Rpc.antt =====
-- What grpc-go gives to the interceptors and the handlers.
use job_stream.Base.{Option, List, Text, Result}
use job_stream.Errors.{Error}

-- What the interceptors read of a context: the incoming metadata, as `md.Get`, the address of the
-- peer, and the values that are stored under `userIDKey` and `requestIDKey`.
pub record Context : Type 0 where
  pub metadata : Option (Text → List Text)
  pub peer : Option Text
  pub user_id : Option Text
  pub request_id : Option Text

-- How a handler ends: it returns, or it panics with a value.
pub data Outcome (A : Type 0) : Type 0 where
  returned : Result Error A → Outcome A
  panicked : Text → Outcome A

-- grpc.UnaryHandler, with the world `W` that it acts on.
abbrev pub Handler : Type 0 → Type 0 → Type 0 → Type 0
Handler W Req Resp = Context → Req → W → Outcome Resp × W
