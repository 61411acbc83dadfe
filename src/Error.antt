-- ===== src/Error.antt =====
-- error/mod.rs: the error type of every handler, and its translation into an HTTP answer.
-- A library's error keeps the distinction that the code makes: a row not found, a unique
-- violation, or any other; the text of a library's error is left out.
pub mod Answers
use Prim.Native.String.{String}
use rsmc_engine.Base.{ℕ, Bool, true, false, ◌&&◌, ◌++◌, Text, text, leb, ltb}

pub data SqlError : Type 0 where
  row_not_found unique_violation foreign_key_violation other : SqlError

pub data AppError : Type 0 where
  unauthorized : AppError
  forbidden not_found conflict bad_request : String → AppError
  validation rate_limited : AppError
  database : SqlError → AppError
  jwt password_hash redis serialization : AppError
  internal operation : String → AppError

pub data Result {ℓ} (A : Type ℓ) : Type ℓ where
  ok : A → Result A
  err : AppError → Result A

-- `Display`, of thiserror's attributes. The text of a library's error is left out, and so is that
-- of a validation.
unfoldable pub to_string : AppError → Text
to_string AppError.unauthorized = text "authentication required"
to_string (AppError.forbidden m) = text "forbidden: " ++ text m
to_string (AppError.not_found m) = text "not found: " ++ text m
to_string (AppError.conflict m) = text "conflict: " ++ text m
to_string (AppError.bad_request m) = text "bad request: " ++ text m
to_string AppError.validation = text "validation error: "
to_string AppError.rate_limited = text "rate limited"
to_string (AppError.database x) = text "database error"
to_string AppError.jwt = text "jwt error"
to_string AppError.password_hash = text "password hashing error: "
to_string AppError.redis = text "redis error: "
to_string AppError.serialization = text "serialization error"
to_string (AppError.internal m) = text "internal error: " ++ text m
to_string (AppError.operation m) = text m

-- The HTTP status, and the code for machines.
unfoldable pub parts : AppError → ℕ × Text
parts AppError.unauthorized = (401, text "unauthorized")
parts (AppError.forbidden m) = (403, text "forbidden")
parts (AppError.not_found m) = (404, text "not_found")
parts (AppError.conflict m) = (409, text "conflict")
parts (AppError.bad_request m) = (400, text "bad_request")
parts AppError.validation = (422, text "validation_error")
parts AppError.rate_limited = (429, text "rate_limited")
parts AppError.jwt = (401, text "invalid_token")
parts (AppError.database SqlError.row_not_found) = (404, text "not_found")
parts (AppError.database x) = (500, text "internal_error")
parts AppError.password_hash = (500, text "internal_error")
parts AppError.redis = (500, text "internal_error")
parts AppError.serialization = (500, text "internal_error")
parts (AppError.internal m) = (500, text "internal_error")
parts (AppError.operation m) = (500, text "operation_failed")

-- `StatusCode::is_server_error`
abbrev pub is_server_error : ℕ → Bool
is_server_error status = leb 500 status && ltb status 600

pub record Response : Type 0 where
  pub status : ℕ
  pub error : Text
  pub message : Text

unfoldable pub message_of : Bool → AppError → Text
unfolding to_string
message_of true (AppError.operation m) = text m
message_of true x = text "an internal error occurred"
message_of false x = to_string x

-- `IntoResponse for AppError`
unfoldable pub into_response : AppError → Response
unfolding parts message_of
into_response x =
    let (status, code) = parts x in
    record { status = status; error = code; message = message_of (is_server_error status) x }
