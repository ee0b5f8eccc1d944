-- ===== src/Handlers/Laws.antt =====
-- What every error response carries, and what it does not.
use fastapi_claude_template.Prelude.{
  ℕ, ◌≤◌, String, ◌≡◌, refl, Bool, true, false, Option, none, some, [], ◌∷◌, insert, lookup,
  lookup-insert, is_empty, arith, ◌⊎◌, inl, inr,
}
use fastapi_claude_template.Errors.{
  Failure, AppException, Kind, app, content, status_code, invalid_params, commit_error,
  rollback_error, integrity, sqlalchemy, value_error, type_error, key_error, runtime_error, api,
  network_error, external,
}
use fastapi_claude_template.Exec.{ok, Exec}
use fastapi_claude_template.World.{World}
use fastapi_claude_template.Handlers.{
  OrjsonResponse, Raised, text, errors, failure, request_validation, http_exception, texts, ticket,
  handle, app_exception_handler, validation_exception_handler, unknown_exception_handler,
}

-- An exception of the program's own hierarchy
abbrev pub is_app : Failure → Bool
is_app (app e) = true
is_app _ = false

is_app-cases : (f : Failure) → ((e : AppException) × (f ≡ app e)) ⊎ (is_app f ≡ false)
is_app-cases (app e) = inl (e, refl)
is_app-cases (invalid_params _) = inr refl
is_app-cases commit_error = inr refl
is_app-cases rollback_error = inr refl
is_app-cases (integrity _) = inr refl
is_app-cases (sqlalchemy _) = inr refl
is_app-cases (value_error _) = inr refl
is_app-cases (type_error _) = inr refl
is_app-cases (key_error _) = inr refl
is_app-cases (runtime_error _) = inr refl
is_app-cases (api _) = inr refl
is_app-cases (network_error _) = inr refl
is_app-cases (external _) = inr refl

status_code-bounds : (k : Kind) → (400 ≤ status_code k) × (status_code k ≤ 503)
unfolding status_code
status_code-bounds k = ground arith

-- An exception that the service leaves to the framework's own handler
abbrev pub is_http : Raised → Bool
is_http (http_exception status detail) = true
is_http _ = false

module _ {C D : Type 0} (default_handler : ℕ → String → Exec (World C D) OrjsonResponse) where
  handle-unknown :
      (request_id : Option String) (f : Failure)
      → is_app f ≡ false
      → (w : World C D)
      → handle default_handler request_id (failure f) w ≡ unknown_exception_handler request_id f w
  unfolding handle
  handle-unknown request_id (app e) no_app w = cc
  handle-unknown request_id (invalid_params _) no_app w = refl
  handle-unknown request_id commit_error no_app w = refl
  handle-unknown request_id rollback_error no_app w = refl
  handle-unknown request_id (integrity _) no_app w = refl
  handle-unknown request_id (sqlalchemy _) no_app w = refl
  handle-unknown request_id (value_error _) no_app w = refl
  handle-unknown request_id (type_error _) no_app w = refl
  handle-unknown request_id (key_error _) no_app w = refl
  handle-unknown request_id (runtime_error _) no_app w = refl
  handle-unknown request_id (api _) no_app w = refl
  handle-unknown request_id (network_error _) no_app w = refl
  handle-unknown request_id (external _) no_app w = refl

  -- Whatever a request with an id raises but an HTTPException, which the service leaves to the
  -- framework's own handler, the response has a status from 400 to 503 and that id as its `ticket`, and nothing
  -- else changes.
  pub handle-ticket :
      (request_id : String) (raised : Raised) (w : World C D)
      → is_empty request_id ≡ false
      → is_http raised ≡ false
      → (r : OrjsonResponse) × (handle default_handler (some request_id) raised w ≡ (ok r, w))
        × (lookup "ticket" r.body ≡ some (text request_id))
        × (400 ≤ r.status)
        × (r.status ≤ 503)
  unfolding handle app_exception_handler validation_exception_handler unknown_exception_handler
      ticket lookup
  handle-ticket request_id (http_exception status detail) w full handled = cc
  handle-ticket request_id (request_validation found) w full handled = (
    record {
      body =
          ("message", text "Validation error")
          ∷ ("detail", errors found)
          ∷ ("ticket", text request_id)
          ∷ [];
      status = 400;
      headers = none;
    },
    rw full refl,
    refl,
    omega arith,
    omega arith,
  )
  handle-ticket request_id (failure f) w full handled = elim (is_app-cases f) [
    | inl (e, same) ↦
        let (low, high) = status_code-bounds e.kind in
        (
          record {
            body = insert "ticket" (text request_id) (texts (content e));
            status = status_code e.kind;
            headers = e.headers;
          },
          rw (same, handle, full) refl,
          lookup-insert "ticket" "ticket" (text request_id) (texts (content e)),
          low,
          high,
        )
    | inr no_app ↦ (
      record {
        body = ("message", text "Internal Server Error") ∷ ("ticket", text request_id) ∷ [];
        status = 500;
        headers = some (("x-request-id", request_id) ∷ []);
      },
      rw (handle-unknown (some request_id) f no_app w, full) refl,
      refl,
      omega arith,
      omega arith,
    )
  ]
