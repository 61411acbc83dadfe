-- ===== src/Error/Answers.antt =====
-- error/mod.rs: what a client learns of an error.
use rsmc_engine.Base.{ℕ, ◌≡◌, refl, text}
use rsmc_engine.Error.{AppError, SqlError, to_string, Response, into_response}

-- Whose matter an error is: the client's, with the status that docs/API.md lists for it (a
-- validation is 422 in the code, where the list says 400); the operator's, whose backup failed; or
-- a fault inside the server.
pub data Kind : Type 0 where
  client : (status : ℕ) → Kind
  operator fault : Kind

abbrev pub kind_of : AppError → Kind
kind_of (AppError.bad_request m) = Kind.client 400
kind_of AppError.unauthorized = Kind.client 401
kind_of AppError.jwt = Kind.client 401
kind_of (AppError.forbidden m) = Kind.client 403
kind_of (AppError.not_found m) = Kind.client 404
kind_of (AppError.database SqlError.row_not_found) = Kind.client 404
kind_of (AppError.conflict m) = Kind.client 409
kind_of AppError.validation = Kind.client 422
kind_of AppError.rate_limited = Kind.client 429
kind_of (AppError.operation m) = Kind.operator
kind_of _ = Kind.fault

-- What everybody is told of a fault, whichever it was.
abbrev pub terse : Response
terse = record {
  status = 500;
  error = text "internal_error";
  message = text "an internal error occurred";
}

abbrev pub Tells : Kind → AppError → Response → Type 0
Tells (Kind.client status) x r = (r.status ≡ status) × (r.message ≡ to_string x)
Tells Kind.operator x r = (r.status ≡ 500) × (r.message ≡ to_string x)
Tells Kind.fault x r = r ≡ terse

-- An error that is the client's matter is answered with its own status and its own message; a
-- failed operation with 500 and its own message; and every fault of the server with one and the same
-- answer, so that nothing of it reaches the client: a lost statement or a violated constraint, a
-- failure of Argon2, Redis or the serialization, and whatever an internal error says.
pub into_response-Tells : (x : AppError) → Tells (kind_of x) x (into_response x)
unfolding into_response
into_response-Tells AppError.unauthorized = (refl, refl)
into_response-Tells (AppError.forbidden m) = (refl, refl)
into_response-Tells (AppError.not_found m) = (refl, refl)
into_response-Tells (AppError.conflict m) = (refl, refl)
into_response-Tells (AppError.bad_request m) = (refl, refl)
into_response-Tells AppError.validation = (refl, refl)
into_response-Tells AppError.rate_limited = (refl, refl)
into_response-Tells AppError.jwt = (refl, refl)
into_response-Tells (AppError.database SqlError.row_not_found) = (refl, refl)
into_response-Tells (AppError.database SqlError.unique_violation) = refl
into_response-Tells (AppError.database SqlError.foreign_key_violation) = refl
into_response-Tells (AppError.database SqlError.other) = refl
into_response-Tells AppError.password_hash = refl
into_response-Tells AppError.redis = refl
into_response-Tells AppError.serialization = refl
into_response-Tells (AppError.internal m) = refl
into_response-Tells (AppError.operation m) = (refl, refl)
