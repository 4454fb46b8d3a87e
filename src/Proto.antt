-- ===== src/Proto.antt =====
-- The generated messages of gen/go/jobstream/v1: the enums, the requests and the responses. A
-- message is a record of its fields; a timestamp pointer is an `Option`, `none` for nil.
use job_stream.Base.{
  zero, suc, Option, none, some, List, [], ℤ, pos, Text, codes, decimal_ℤ, text_eq, if◌then◌else◌,
}

-- A point in time, in nanoseconds from the Unix epoch. `timestamppb.New` and `AsTime` go to and
-- from seconds and nanoseconds without loss, and are the identity here.
abbrev pub Time : Type 0
Time = ℤ

-- An int32 enum: the named values, and every other number that the wire may carry.
pub data Source : Type 0 where
  source_unspecified source_dashboard source_chrome_ext source_scraper : Source
  source_number : ℤ → Source

-- `Source(n)`, from an int32.
unfoldable pub source_of : ℤ → Source
source_of (pos zero) = source_unspecified
source_of (pos (suc zero)) = source_dashboard
source_of (pos (suc (suc zero))) = source_chrome_ext
source_of (pos (suc (suc (suc zero)))) = source_scraper
source_of n = source_number n

-- `int32(s)`.
unfoldable pub source_to_int32 : Source → ℤ
source_to_int32 source_unspecified = pos 0
source_to_int32 source_dashboard = pos 1
source_to_int32 source_chrome_ext = pos 2
source_to_int32 source_scraper = pos 3
source_to_int32 (source_number n) = n

-- `Source_name`, and the number where there is no name.
unfoldable pub source_string : Source → Text
source_string source_unspecified = codes "SOURCE_UNSPECIFIED"
source_string source_dashboard = codes "SOURCE_DASHBOARD"
source_string source_chrome_ext = codes "SOURCE_CHROME_EXT"
source_string source_scraper = codes "SOURCE_SCRAPER"
source_string (source_number n) = decimal_ℤ n

-- The map `Source_value`.
unfoldable pub source_value : Text → Option Source
unfolding text_eq
source_value s =
    if text_eq s (codes "SOURCE_UNSPECIFIED")
    then some source_unspecified
    else if text_eq s (codes "SOURCE_DASHBOARD")
    then some source_dashboard
    else if text_eq s (codes "SOURCE_CHROME_EXT")
    then some source_chrome_ext
    else if text_eq s (codes "SOURCE_SCRAPER")
    then some source_scraper
    else none

pub data Status : Type 0 where
  status_unspecified status_applied status_interviewing status_offer status_rejected : Status
  status_number : ℤ → Status

unfoldable pub status_of : ℤ → Status
status_of (pos zero) = status_unspecified
status_of (pos (suc zero)) = status_applied
status_of (pos (suc (suc zero))) = status_interviewing
status_of (pos (suc (suc (suc zero)))) = status_offer
status_of (pos (suc (suc (suc (suc zero))))) = status_rejected
status_of n = status_number n

unfoldable pub status_to_int32 : Status → ℤ
status_to_int32 status_unspecified = pos 0
status_to_int32 status_applied = pos 1
status_to_int32 status_interviewing = pos 2
status_to_int32 status_offer = pos 3
status_to_int32 status_rejected = pos 4
status_to_int32 (status_number n) = n

pub record Application : Type 0 where
  pub id : Text
  pub user_id : Text
  pub job_title : Text
  pub company : Text
  pub url : Text
  pub source : Source
  pub status : Status
  pub applied_at : Option Time
  pub created_at : Option Time
  pub schema_version : Text

pub record SubmitApplicationRequest : Type 0 where
  pub user_id : Text
  pub job_title : Text
  pub company : Text
  pub url : Text
  pub source : Source
  pub applied_at : Option Time

pub record SubmitApplicationResponse : Type 0 where
  pub application_id : Text

pub record BatchSubmitApplicationRequest : Type 0 where
  pub applications : List SubmitApplicationRequest

-- The oneof `outcome`; `unset` is the message with neither field.
pub data BatchSubmitResult : Type 0 where
  application_id : Text → BatchSubmitResult
  error_message : Text → BatchSubmitResult
  unset : BatchSubmitResult

unfoldable pub get_application_id : BatchSubmitResult → Text
get_application_id (application_id id) = id
get_application_id (error_message _) = []
get_application_id unset = []

pub record BatchSubmitApplicationResponse : Type 0 where
  pub results : List BatchSubmitResult

pub record GetApplicationStatusRequest : Type 0 where
  pub application_id : Text
  pub user_id : Text

pub record GetApplicationStatusResponse : Type 0 where
  pub application : Application
