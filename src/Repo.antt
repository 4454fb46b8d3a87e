-- ===== src/Repo.antt =====
-- services/intake/internal/repo/repo.go: the records and the interface of the persistence layer.
-- The Postgres implementation is in the child `Postgres`.
pub mod Int16
pub mod Timestamps
pub mod Uuid
pub mod Postgres
pub mod Connect
pub mod Queries
use job_stream.Base.{ℕ, Option, List, ℤ, Text, Result}
use job_stream.Proto.{Time}
use job_stream.Errors.{Error}

pub record ApplicationRecord : Type 0 where
  pub id : Text
  pub user_id : Text
  pub job_title : Text
  pub company : Text
  pub url : Text
  pub source : ℤ
  pub status : ℤ
  pub applied_at : Time
  pub created_at : Time
  pub schema_version : Text

pub record InsertParams : Type 0 where
  pub user_id : Text
  pub job_title : Text
  pub company : Text
  pub url : Text
  pub source : ℤ
  pub status : ℤ
  pub applied_at : Time
  pub schema_version : Text

-- The payload's bytes, or the error that rolls the insert back.
abbrev pub PayloadBuilder : Type 0
PayloadBuilder = ApplicationRecord → Result Error (List ℕ)

-- The interface, over a world `W` that the calls act on.
pub record ApplicationRepo (W : Type 0) : Type 0 where
  pub insert_with_outbox :
      InsertParams → Text → PayloadBuilder → W → Result Error ApplicationRecord × W
  pub get_by_id_and_user_id : Text → Text → W → Result Error ApplicationRecord × W
