-- ===== src/Errors/Envelope.antt =====
-- The exception handlers of src/core/errors.py, which render an exception as a JSON error response.
use ai_storybook_storage_ser.Base.{
  ℕ, Text, codes, String, Option, none, some, List, [], ◌∷◌, ◌++◌, text_eq, join, if◌then◌else◌,
}
use ai_storybook_storage_ser.Errors
use ai_storybook_storage_ser.Errors.{FieldError}

-- The `details` of an error: those of a `ServiceError`, or the fields of a request.
pub data Details : Type 0 where
  entries : List (String × String) → Details
  fields : List FieldError → Details

-- The `error` object of the envelope `{"success": false, "error": {…}}`. An empty `details` of a
-- `ServiceError` is left out.
pub record ErrorBody : Type 0 where
  pub code : Text
  pub message : Text
  pub details : Option Details

pub record ErrorResponse : Type 0 where
  pub status_code : ℕ
  pub error : ErrorBody

non_empty : Option (List (String × String)) → Option Details
non_empty none = none
non_empty (some []) = none
non_empty (some (d ∷ ds)) = some (entries (d ∷ ds))

envelope : Errors.ServiceError → ErrorBody
unfolding non_empty
envelope exc = record {
  code = codes exc.code;
  message = codes exc.message;
  details = non_empty exc.details;
}

internal_error : ErrorResponse
internal_error = record {
  status_code = 500;
  error = record {
    code = codes "INTERNAL_ERROR";
    message = codes "Internal server error";
    details = none;
  };
}

-- The parts of a location, without `body`.
without_body : List Text → List Text
without_body [] = []
without_body (p ∷ ps) =
    let rest = without_body ps in if text_eq p (codes "body") then rest else p ∷ rest

located : Text → Text → Text
located [] msg = msg
located (c ∷ loc) msg = (c ∷ loc) ++ (codes ": " ++ msg)

-- The message of `_validation_handler`: that of the first error, behind its location.
unfoldable pub first_message : List FieldError → Text
unfolding located without_body
first_message [] = codes "Validation error"
first_message (e ∷ errors) = located (join b'.' (without_body e.loc)) e.msg

-- Starlette picks the handler of the exception's class; the handler of `Exception` takes the rest.
unfoldable pub handle : Errors.Exn → ErrorResponse
unfolding envelope internal_error first_message
handle (Errors.Exn.service exc) = record { status_code = exc.http_status; error = envelope exc }
handle Errors.Exn.insufficient_storage_error = record {
  status_code = 507;
  error = envelope Errors.insufficient_storage;
}
handle Errors.Exn.storage_io_error = record {
  status_code = 500;
  error = envelope Errors.storage_io;
}
handle (Errors.Exn.request_validation_error errors) = record {
  status_code = 400;
  error = record {
    code = codes "VALIDATION_ERROR";
    message = first_message errors;
    details = some (fields errors);
  };
}
handle _ = internal_error
