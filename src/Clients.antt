-- ===== src/Clients.antt =====
-- src/infrastructure/http/provider/middleware/logging.py and src/infrastructure/http/clients/base.py.
-- The log is structlog's and a parameter, `params` the text of the other arguments of a request;
-- `urljoin` is Python's.
pub mod Laws
use fastapi_claude_template.Prelude.{
  ℕ, String, Bool, true, false, Option, none, some, List, [], ◌∷◌, ◌++◌, is_empty, if◌then◌else◌,
}
use fastapi_claude_template.Exec.{Exec, ◌>>=◌, ◌>>◌}
use fastapi_claude_template.Provider.{Request, Response, CallNext}

-- The logger's name and whether it logs the parameters
pub record RequestLogging : Type 0 where
  pub name : String
  pub detailed : Bool

-- The fields of the entry `outbound_request`
unfoldable pub log_fields : RequestLogging → String → Request → List (String × String)
log_fields self params request =
    if self.detailed
    then ("method", request.method) ∷ ("url", request.url_or_endpoint) ∷ ("params", params) ∷ []
    else ("method", request.method) ∷ ("url", request.url_or_endpoint) ∷ []

module _ {S : Type 0} (info : String → List (String × String) → Exec S (Unit {0})) where
  -- `RequestLoggingMiddleware.__call__`
  unfoldable pub request_logging : RequestLogging → (Request → String) → CallNext S → CallNext S
  unfolding log_fields
  request_logging self params call_next request = do
    info "outbound_request" (log_fields self (params request) request)
    call_next request

-- A client over a provider `P`, given or made by the constructor
pub record Client (P : Type 0) : Type 0 where
  pub provider : P
  pub url : String

module _ {P : Type 0} (provider_url : P → Option String) where
  -- `self._provider.url or self._url`
  unfoldable pub client_url : Client P → String
  client_url self = elim (provider_url self.provider) [
    | none ↦ self.url
    | some url ↦ if is_empty url then self.url else url
  ]

  unfoldable pub endpoint_url : (String → String → String) → Client P → String → String
  unfolding client_url
  endpoint_url urljoin self endpoint = urljoin (client_url self) endpoint

module _ {P S R : Type 0} where
  -- A request is known by what it does with a provider.
  unfoldable pub send : Client P → (P → Exec S R) → Exec S R
  send self request = request self.provider

module _ {P S : Type 0} where
  -- `__aexit__` passes on to the provider's.
  unfoldable pub leave_client : (P → Exec S (Unit {0})) → Client P → Exec S (Unit {0})
  leave_client exit self = exit self.provider
