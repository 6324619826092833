-- ===== src/Core/Errors.antt =====
-- app/core/exceptions.py, and the exception handlers of app/main.py.
use tenantflow_api.Prelude.{ℕ, ◌≡◌, String, Option, none}

-- What a handler can raise. The first is `AppError`, with its code, message and status.
pub data Error : Type 0 where
  app : String → String → ℕ → Error
  http : ℕ → String → Option ℕ → Error
  integrity : Error
  validation : Error
  value_error : String → Error
  runtime_error : String → Error

pub data Result (A : Type 0) : Type 0 where
  ok : A → Result A
  err : Error → Result A

abbrev pub not_found_error : String → String → Error
not_found_error code message = Error.app code message 404

abbrev pub forbidden_error : String → String → Error
forbidden_error code message = Error.app code message 403

abbrev pub conflict_error : String → String → Error
conflict_error code message = Error.app code message 409

abbrev pub authentication_error : String → Error
authentication_error message = Error.app "AUTHENTICATION_FAILED" message 401

-- the `code` of an error payload; `http 429` is the text HTTP_429
pub data ErrorCode : Type 0 where
  named : String → ErrorCode
  http : ℕ → ErrorCode

pub record ErrorResponse : Type 0 where
  pub status_code : ℕ
  pub code : ErrorCode
  pub message : String
  pub retry_after : Option ℕ

unfoldable pub error_response : Error → ErrorResponse
error_response (Error.app code message status) = record {
  status_code = status;
  code = ErrorCode.named code;
  message = message;
  retry_after = none;
}
error_response (Error.http status detail retry_after) = record {
  status_code = status;
  code = ErrorCode.http status;
  message = detail;
  retry_after = retry_after;
}
error_response Error.integrity = record {
  status_code = 409;
  code = ErrorCode.named "RESOURCE_CONFLICT";
  message = "The requested change conflicts with existing data";
  retry_after = none;
}
error_response Error.validation = record {
  status_code = 422;
  code = ErrorCode.named "VALIDATION_ERROR";
  message = "Request validation failed";
  retry_after = none;
}
error_response _ = record {
  status_code = 500;
  code = ErrorCode.named "INTERNAL_ERROR";
  message = "An unexpected server error occurred";
  retry_after = none;
}

pub err_ok : {A : Type 0} {e : Error} {a : A} → Result.err e ≡ Result.ok a → ⊥
err_ok h = cc
