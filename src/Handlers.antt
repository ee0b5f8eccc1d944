-- ===== src/Handlers.antt =====
-- src/presentation/http/common/exception_handlers.py: the response that a request gets for each
-- exception. What the handlers write to the log is not modelled.
pub mod Laws
use fastapi_claude_template.Prelude.{
  ℕ, String, Bool, true, false, Option, none, some, List, [], ◌∷◌, Dict, insert, is_empty,
  if◌then◌else◌,
}
use fastapi_claude_template.Errors.{Failure, AppException, app, content, status_code, Headers}
use fastapi_claude_template.Exec.{Exec, pure, ◌>>=◌}
use fastapi_claude_template.World.{World, random_text}

-- A member of the body: a text, or the errors that pydantic lists
pub data Member : Type 0 where
  text : String → Member
  errors : List String → Member

pub record OrjsonResponse : Type 0 where
  pub body : Dict Member
  pub status : ℕ
  pub headers : Option Headers

-- What a request may raise: the exceptions of the program and of the libraries,
-- `RequestValidationError`, and an `HTTPException` with its status and detail
pub data Raised : Type 0 where
  failure : Failure → Raised
  request_validation : List String → Raised
  http_exception : ℕ → String → Raised

abbrev pub texts : Dict String → Dict Member
texts [] = []
texts ((k, v) ∷ d) = (k, text v) ∷ texts d

module _ {C D : Type 0} where
  -- `getattr(request.state, "request_id", None) or uuid4().hex`
  unfoldable pub ticket : Option String → Exec (World C D) String
  ticket none = random_text
  ticket (some request_id) = if is_empty request_id then random_text else pure request_id

  unfoldable pub app_exception_handler :
      Option String → AppException → Exec (World C D) OrjsonResponse
  unfolding ticket content status_code
  app_exception_handler request_id e = do
    ticket ← ticket request_id
    pure (record {
      body = insert "ticket" (text ticket) (texts (content e));
      status = status_code e.kind;
      headers = e.headers;
    })

  unfoldable pub validation_exception_handler :
      Option String → List String → Exec (World C D) OrjsonResponse
  unfolding ticket
  validation_exception_handler request_id found = do
    ticket ← ticket request_id
    pure (record {
      body =
          ("message", text "Validation error")
          ∷ ("detail", errors found)
          ∷ ("ticket", text ticket)
          ∷ [];
      status = 400;
      headers = none;
    })

  unfoldable pub unknown_exception_handler :
      Option String → Failure → Exec (World C D) OrjsonResponse
  unfolding ticket
  unknown_exception_handler request_id e = do
    ticket ← ticket request_id
    pure (record {
      body = ("message", text "Internal Server Error") ∷ ("ticket", text ticket) ∷ [];
      status = 500;
      headers = some (("x-request-id", ticket) ∷ []);
    })

  -- `setup_exception_handlers`: the handler of the nearest class. `default_handler` is the
  -- framework's own for an `HTTPException`, which stays in place.
  unfoldable pub handle :
      (ℕ → String → Exec (World C D) OrjsonResponse)
      → Option String
      → Raised
      → Exec (World C D) OrjsonResponse
  unfolding app_exception_handler validation_exception_handler unknown_exception_handler
  handle default_handler request_id (http_exception status detail) = default_handler status detail
  handle default_handler request_id (request_validation found) =
      validation_exception_handler request_id found
  handle default_handler request_id (failure (app e)) = app_exception_handler request_id e
  handle default_handler request_id (failure f) = unknown_exception_handler request_id f
