-- ===== src/Middlewares.antt =====
-- src/presentation/http/common/middlewares: `RequestIDMiddleware` and `AccessLogMiddleware` around an
-- ASGI application. Bytes are texts of characters below 256. The rounding of the duration is left out;
-- the clock of `time.perf_counter` counts from one reading to the next as the environment chooses.
pub mod Laws
use Prim.Native.String
use fastapi_claude_template.Prelude.{
  ℕ, suc, ◌-◌, String, Char, code, Bool, true, false, not, ◌||◌, Option, none, some, List, [], ◌∷◌,
  ◌++◌, leb, nat_beq, ◌<>◌, ◌==◌, decimal, if◌then◌else◌, Dict, insert,
}
use fastapi_claude_template.Errors.{Headers}
use fastapi_claude_template.Exec.{Result, ok, err, Exec, pure, finally, ◌>>=◌, ◌>>◌}

pub record Message : Type 0 where
  pub type_ : String
  pub status : ℕ
  pub headers : Option Headers

pub record Scope : Type 0 where
  pub type_ : String
  pub method : Option String
  pub path : Option String
  pub query_string : Option String
  pub client : Option (String × ℕ)
  pub state : Option (Dict String)

pub data Level : Type 0 where
  error warning info : Level

pub record Entry : Type 0 where
  pub level : Level
  pub method : String
  pub path : String
  pub query : String
  pub status : ℕ
  pub duration : ℕ
  pub client : String

-- The state of a request: the variables that structlog binds, `status_code` of the access log's
-- closure, its log, a clock, the source of `uuid4`, and what else the application and the server have
pub record Http (S : Type 0) : Type 0 where
  pub inner : S
  pub context : Dict String
  pub status_code : ℕ
  pub logs : List Entry
  pub times : ℕ → ℕ
  pub reads : ℕ
  pub entropy : ℕ → String
  pub draws : ℕ

abbrev pub Send : Type 0 → Type 0
Send S = Message → Exec (Http S) (Unit {0})

-- An ASGI application gets the scope, `receive` and `send`.
abbrev pub App : Type 0 → Type 0
App S = Scope → Exec (Http S) Message → Send S → Exec (Http S) (Unit {0})

-- `message.get("headers", [])`
abbrev pub headers_or_nil : Option Headers → Headers
headers_or_nil none = []
headers_or_nil (some h) = h

abbrev pub is_start : Message → Bool
is_start message = message.type_ == "http.response.start"

-- What `send_with_request_id` does to a message
unfoldable pub tag : String → Message → Message
tag request_id message =
    if is_start message
    then record message {
      headers = some (headers_or_nil message.headers ++ (("x-request-id", request_id) ∷ []));
    }
    else message

abbrev pub or_empty : Option String → String
or_empty none = ""
or_empty (some s) = s

abbrev pub or_nil : Option (Dict String) → Dict String
or_nil none = []
or_nil (some d) = d

-- `scope.setdefault("state", {})["request_id"] = request_id`
unfoldable pub with_request_id : String → Scope → Scope
unfolding insert
with_request_id request_id scope = record scope {
  state = some (insert "request_id" request_id (or_nil scope.state));
}

abbrev pub new_request_id : {S : Type 0} → Exec (Http S) String
new_request_id h = (ok (h.entropy h.draws), record h { draws = suc h.draws })

abbrev pub clear_contextvars : {S : Type 0} → Exec (Http S) (Unit {0})
clear_contextvars h = (ok tt, record h { context = [] })

-- `bind_contextvars(request_id=..., method=..., path=...)`
abbrev pub bind_contextvars : {S : Type 0} → String → String → String → Exec (Http S) (Unit {0})
bind_contextvars request_id method path h = (
  ok tt,
  record h {
    context =
        insert "path" path (insert "method" method (insert "request_id" request_id h.context));
  },
)

unfoldable pub request_id_middleware : {S : Type 0} → App S → App S
unfolding tag with_request_id insert
request_id_middleware app scope receive send =
    if not (scope.type_ == "http" || scope.type_ == "websocket") then app scope receive send else do
      request_id ← new_request_id
      let scope' = with_request_id request_id scope
      clear_contextvars
      bind_contextvars request_id (or_empty scope.method) (or_empty scope.path)
      finally (app scope' receive (λ message. send (tag request_id message))) clear_contextvars

-- `time.perf_counter()`
abbrev pub perf_counter : {S : Type 0} → Exec (Http S) ℕ
perf_counter h = (ok (h.times h.reads), record h { reads = suc h.reads })

abbrev pub set_status_code : {S : Type 0} → ℕ → Exec (Http S) (Unit {0})
set_status_code status h = (ok tt, record h { status_code = status })

unfoldable pub send_wrapper : {S : Type 0} → Send S → Send S
send_wrapper send message =
    if is_start message then set_status_code message.status >> send message else send message

-- `if status_code == 0: status_code = 500`
abbrev pub final_status : ℕ → ℕ
final_status status = if nat_beq status 0 then 500 else status

unfoldable pub level_of : ℕ → Level
level_of status = if leb 500 status then error else if leb 400 status then warning else info

-- `.decode("ascii", errors="replace")`
abbrev pub decode_ascii : String → String
decode_ascii String.[] = ""
decode_ascii (String.◌∷◌ c s) =
    let rest = decode_ascii s in if leb 128 (code c) then "�" <> rest else String.◌∷◌ c rest

abbrev pub client_addr : Option (String × ℕ) → String
client_addr none = ""
client_addr (some (host, port)) = host <> ":" <> decimal port

unfoldable pub log_entry : Scope → ℕ → ℕ → Entry
unfolding level_of decimal
log_entry scope status duration = record {
  level = level_of status;
  method = or_empty scope.method;
  path = or_empty scope.path;
  query = decode_ascii (or_empty scope.query_string);
  status = status;
  duration = duration;
  client = client_addr scope.client;
}

abbrev pub log : {S : Type 0} → Entry → Exec (Http S) (Unit {0})
log entry h = (ok tt, record h { logs = h.logs ++ (entry ∷ []) })

-- The body of the `finally`
unfoldable pub write_log : {S : Type 0} → Scope → ℕ → Exec (Http S) (Unit {0})
unfolding log_entry
write_log scope start = do
  end ← perf_counter
  status ← (λ h. (ok (final_status h.status_code), h))
  log (log_entry scope status (end - start))

unfoldable pub access_log_middleware : {S : Type 0} → App S → App S
unfolding send_wrapper write_log
access_log_middleware app scope receive send =
    if not (scope.type_ == "http") then app scope receive send else do
      start ← perf_counter
      set_status_code 0
      finally (app scope receive (send_wrapper send)) (write_log scope start)

-- `setup_global_middlewares`: what is added last is outermost. Starlette's `CORSMiddleware` with
-- its options is the argument.
unfoldable pub setup_global_middlewares : {S : Type 0} → (App S → App S) → App S → App S
unfolding request_id_middleware access_log_middleware
setup_global_middlewares cors app = cors (request_id_middleware (access_log_middleware app))
