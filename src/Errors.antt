-- ===== src/Errors.antt =====
-- src/core/errors.py and src/drivers/errors.py: the service's errors, the exceptions that reach the
-- exception handlers, and the response each handler renders.
pub mod Envelope
use ai_storybook_storage_ser.Base.{ℕ, Text, String, Option, none, List, ◌≡◌, ◌⊎◌, inl, inr, refl}

-- `details` is a dict.
pub record ServiceError : Type 0 where
  pub code : String
  pub http_status : ℕ
  pub message : String
  pub details : Option (List (String × String))

-- The errno values that the source and its file operations tell apart.
pub data Errno : Type 0 where
  enospc enoent enotdir eisdir eexist eacces eio : Errno

-- An error of a request that FastAPI or Pydantic found, as `RequestValidationError.errors()` lists it.
pub record FieldError : Type 0 where
  pub loc : List Text
  pub msg : Text

-- What a handler can raise: the domain error, the two driver errors, and exceptions of Python and
-- of the libraries.
pub data Exn : Type 0 where
  service : ServiceError → Exn
  insufficient_storage_error storage_io_error : Exn
  os_error : Errno → Exn
  request_validation_error : List FieldError → Exn
  value_error type_error key_error attribute_error runtime_error not_implemented_error
        client_disconnect :
      Exn

pub data Result {ℓ} (A : Type ℓ) : Type ℓ where
  ok : A → Result A
  err : Exn → Result A

infixl 5 ◌>>=◌ ◌>>◌
abbrev pub ◌>>=◌ {κ ℓ} : {X : Type κ} {Y : Type ℓ} → Result X → (X → Result Y) → Result Y
ok value >>= next = next value
err raised >>= next = err raised

abbrev pub ◌>>◌ {ℓ} : {B : Type ℓ} → Result (Unit {0}) → Result B → Result B
m >> k = m >>= λ _. k

abbrev service_error : String → ℕ → String → ServiceError
service_error code http_status message = record {
  code = code;
  http_status = http_status;
  message = message;
  details = none;
}

abbrev pub validation_error : String → Exn
validation_error message = service (service_error "VALIDATION_ERROR" 400 message)

abbrev pub unauthorized : Exn
unauthorized = service (service_error "UNAUTHORIZED" 401 "Unauthorized")

abbrev pub prefix_not_allowed : Exn
prefix_not_allowed = service (service_error "PREFIX_NOT_ALLOWED" 403 "Key prefix not writable")

abbrev pub forbidden : Exn
forbidden = service (service_error "FORBIDDEN" 403 "Forbidden")

abbrev pub not_found : Exn
not_found = service (service_error "NOT_FOUND" 404 "Not found")

abbrev pub already_exists : Exn
already_exists = service (service_error "ALREADY_EXISTS" 409 "Object already exists")

abbrev pub payload_too_large : Exn
payload_too_large = service (service_error "PAYLOAD_TOO_LARGE" 413 "Payload too large")

abbrev pub unsupported_media_type : Exn
unsupported_media_type =
    service (service_error "UNSUPPORTED_MEDIA_TYPE" 415 "Unsupported media type")

abbrev pub insufficient_storage : ServiceError
insufficient_storage = service_error "INSUFFICIENT_STORAGE" 507 "Insufficient storage"

abbrev pub storage_io : ServiceError
storage_io = service_error "STORAGE_IO_ERROR" 500 "Storage IO error"

-- A bind that succeeds went through its first step.
pub bind-eq-ok {ℓ κ} :
    {Y : Type κ} {y : Y} {X : Type ℓ} (first : Result X) (next : X → Result Y)
    → (first >>= next) ≡ ok y
    → (x : X) × (first ≡ ok x) × (next x ≡ ok y)
bind-eq-ok (ok start) next passed = (start, refl, passed)
bind-eq-ok (err raised) next passed = cc

pub Result-cases {ℓ} :
    {X : Type ℓ} (r : Result X) → ((x : X) × (r ≡ ok x)) ⊎ ((e : Exn) × (r ≡ err e))
Result-cases (ok x) = inl (x, refl)
Result-cases (err raised) = inr (raised, refl)
