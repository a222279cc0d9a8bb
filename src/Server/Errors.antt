-- ===== src/Server/Errors.antt =====
-- The errors of fastkv-server/src/models.rs and the responses that they become.
use key_manager.Base.{ℕ, Option, none, some, ◌++◌}
use key_manager.Base.Text.{Str, codes}

pub data ErrorCode : Type 0 where
  invalid_parameter database_error database_unavailable too_many_requests : ErrorCode

pub record ErrorResponse : Type 0 where
  pub error : Str
  pub code : ErrorCode

pub data ApiError : Type 0 where
  invalid_parameter : Str → ApiError
  database_error : Str → ApiError
  database_unavailable : ApiError
  too_many_requests : Str → ApiError

unfoldable pub code : ApiError → ErrorCode
code (ApiError.invalid_parameter _) = ErrorCode.invalid_parameter
code (ApiError.database_error _) = ErrorCode.database_error
code ApiError.database_unavailable = ErrorCode.database_unavailable
code (ApiError.too_many_requests _) = ErrorCode.too_many_requests

-- `Display`
unfoldable pub to_string : ApiError → Str
to_string (ApiError.invalid_parameter msg) = codes "Invalid parameter: " ++ msg
to_string (ApiError.database_error msg) = codes "Database error: " ++ msg
to_string ApiError.database_unavailable = codes "Database unavailable"
to_string (ApiError.too_many_requests msg) = msg

-- The status, the `Retry-After` header and the JSON body of a response.
pub record HttpError : Type 0 where
  pub status : ℕ
  pub retry_after : Option Str
  pub body : ErrorResponse

status_of : ApiError → ℕ
status_of (ApiError.invalid_parameter _) = 400
status_of (ApiError.database_error _) = 500
status_of ApiError.database_unavailable = 503
status_of (ApiError.too_many_requests _) = 429

unfoldable pub error_response : ApiError → HttpError
unfolding status_of code to_string
error_response e = record {
  status = status_of e;
  retry_after = elim e [ ApiError.too_many_requests _ ↦ some (codes "1") | _ ↦ none ];
  body = record { error = to_string e; code = code e };
}

-- `From<anyhow::Error>`: the text of the inner error is not passed on.
unfoldable pub from_anyhow : Str → ApiError
from_anyhow err = ApiError.database_error (codes "An internal database error occurred")
