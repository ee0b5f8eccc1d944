-- ===== src/Clients/Laws.antt =====
-- The logging middleware beside the others.
use fastapi_claude_template.Prelude.{◌≡◌, refl, String, List}
use fastapi_claude_template.Exec.{Exec, ok}
use fastapi_claude_template.Provider.{Request, CallNext}
use fastapi_claude_template.Clients.{RequestLogging, log_fields, request_logging}

module _ {S : Type 0} (info : String → List (String × String) → Exec S (Unit {0})) where
  -- A log that returns leaves the request and the response as they were.
  pub request_logging_lem :
      (self : RequestLogging) (params : Request → String) (call_next : CallNext S)
      (request : Request) (s s' : S)
      → info "outbound_request" (log_fields self (params request) request) s ≡ (ok tt, s')
      → request_logging info self params call_next request s ≡ call_next request s'
  unfolding request_logging
  request_logging_lem self params call_next request s s' h = rw h refl
