-- ===== src/Errors.antt =====
-- src/application/common/exceptions.py, the other exceptions that the program raises, and those of
-- third-party code that it catches.
use fastapi_claude_template.Prelude.{ℕ, String, Bool, true, false, Option, none, List, [], ◌∷◌}

-- The classes of the hierarchy
pub data Kind : Type 0 where
  app_exception detailed_error unauthorized forbidden not_found bad_request conflict : Kind
  too_many_requests bad_gateway service_unavailable service_not_implemented : Kind

-- `status_code` of each class
unfoldable pub status_code : Kind → ℕ
status_code app_exception = 500
status_code detailed_error = 500
status_code unauthorized = 401
status_code forbidden = 403
status_code not_found = 404
status_code bad_request = 400
status_code conflict = 409
status_code too_many_requests = 429
status_code bad_gateway = 502
status_code service_unavailable = 503
status_code service_not_implemented = 501

-- `expected` of each class
unfoldable pub expected : Kind → Bool
expected app_exception = false
expected bad_gateway = false
expected service_unavailable = false
expected service_not_implemented = false
expected _ = true

abbrev pub Headers : Type 0
Headers = List (String × String)

pub record AppException : Type 0 where
  pub kind : Kind
  pub message : String
  pub headers : Option Headers
  pub additional : List (String × String)

-- `content`: the message, then what `DetailedError` adds
unfoldable pub content : AppException → List (String × String)
content e = ("message", e.message) ∷ e.additional

-- src/infrastructure/http/provider/errors.py: the subclasses of `APIError` and `APIError` itself
pub data ErrorClass : Type 0 where
  api_error bad_request_error not_found_error conflict_error unauthorized_error : ErrorClass
  forbidden_error entity_too_large server_error too_many_requests_error : ErrorClass

pub record ApiError : Type 0 where
  pub class : ErrorClass
  pub status_code : ℕ
  pub content : String
  pub message : String
  pub url : Option String

pub data Failure : Type 0 where
  app : AppException → Failure
  -- src/database/psql/exceptions.py
  invalid_params : String → Failure
  commit_error rollback_error : Failure
  -- sqlalchemy's `IntegrityError`, with the text of its origin, and its other errors
  integrity : String → Failure
  sqlalchemy : String → Failure
  value_error type_error key_error runtime_error : String → Failure
  -- an error of the outgoing HTTP client
  api : ApiError → Failure
  -- provider/errors.py: `NetworkError`
  network_error : String → Failure
  -- anything else
  external : String → Failure

-- `Error(message)`
abbrev pub detailed : Kind → String → Failure
detailed kind message =
    app (record { kind = kind; message = message; headers = none; additional = [] })

-- `AppException()`
abbrev pub default_app_exception : Failure
default_app_exception = detailed app_exception "App Exception"
