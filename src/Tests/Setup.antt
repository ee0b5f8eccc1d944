-- ===== src/Tests/Setup.antt =====
-- The theorems on the bus of the application, the providers, the programs, the queries and the set-up
-- of logging at concrete inputs.
use fastapi_claude_template.Prelude.{
  ℕ, suc, ◌+◌, String, ◌≡◌, ◌↔◌, refl, true, false, none, some, [], ◌∷◌, All, Dict, lookup, inl,
  inr,
}
use fastapi_claude_template.Errors.{key_error}
use fastapi_claude_template.Exec.{ok, err, pure, try_except, ◌>>=◌}
use fastapi_claude_template.Bus
use fastapi_claude_template.Bus.{Dependency, RequestBus, object, UseCase, not_registered}
use fastapi_claude_template.Application.{Given, Constructors, request_bus}
use fastapi_claude_template.Application.Laws.{use_cases, arguments, send-request_bus}
use fastapi_claude_template.Application.Program
use fastapi_claude_template.Application.Program.{Request, Response, Object, login_request, perform}
use fastapi_claude_template.Application.Program.Laws.{send-perform}
use fastapi_claude_template.World.{World}
use fastapi_claude_template.Redis.Memory.{Memory}
use fastapi_claude_template.Tests.Rows.{Rows}
use fastapi_claude_template.Tests.Env.{env, ann_request, start}
use fastapi_claude_template.Contracts.{pos, OffsetContract, validate_pagination, or_default}
use fastapi_claude_template.Contracts.Laws.{ReadsOffset, ReadsLimit, validate_pagination_lem}
use fastapi_claude_template.Db.{desc}
use fastapi_claude_template.Logging.{Logger, Loggers, handler_of, setup_logging}
use fastapi_claude_template.Logging.Laws.{written, setup_logging_once}
use fastapi_claude_template.Settings.{default_app}

-- Objects are numbers, gateways are counted, and a use case answers with its first dependency.
abbrev given : Given ℕ ℕ
given = record {
  hasher = 1;
  cache = 2;
  services = 3;
  database_factory = λ n. (ok (n + 10), suc n);
  event_bus = 4;
}

abbrev constructors : Constructors ℕ ℕ ℕ ℕ
constructors = record { new = λ name d n. (ok (λ q. pure q), n); annotation = λ class. object 0 }

abbrev show : Dependency ℕ ℕ → String
show d = "dependency"

abbrev begin : ℕ
begin = 0

send-request_bus_example :
    (bus : RequestBus ℕ ℕ ℕ ℕ) × (request_bus constructors show given begin ≡ (ok bus, begin))
    × All
        (λ e.
          Bus.send bus e.0 7 5
          ≡ (try_except (arguments given e.1.1 >>= constructors.new e.1.0) (not_registered e.0)
                >>= λ u. u 7)
              5)
        use_cases
    × (Bus.send bus "DeleteUserRequest" 7 5
        ≡ (err (key_error "Use case for `DeleteUserRequest` is not registered"), 5))
unfolding lookup
send-request_bus_example =
    send-request_bus constructors show given 7 "DeleteUserRequest" begin 5 refl

-- A logger that had a handler and kept its records to itself, and the others as they come
abbrev loud : Logger
loud = record { level = 0; handlers = handler_of default_app ∷ []; propagate = false }

abbrev plain : Logger
plain = record { level = 0; handlers = []; propagate = true }

abbrev before : Loggers
before = record { root = loud; named = λ name. plain; structlog = none; capture_warnings = false }

abbrev levels : Dict ℕ
levels = ("DEBUG", 10) ∷ ("INFO", 20) ∷ []

abbrev same : String → String
same s = s

setup_logging_once_example :
    ((setup_logging levels same default_app before).0 ≡ ok tt)
    × (written
          (setup_logging levels same default_app before).1
          ("uvicorn.error" ∷ "uvicorn" ∷ "app" ∷ [])
          20
        ≡ handler_of default_app ∷ [])
unfolding lookup
setup_logging_once_example =
    setup_logging_once levels same default_app 10 20 before
      ("uvicorn.error" ∷ "uvicorn" ∷ "app" ∷ []) refl (inl refl, (inl refl, (inr (refl, refl), tt)))

-- A page of 50
abbrev page : OffsetContract
page = record { order_by = desc; offset = 20; limit = 50 }

validate_pagination_lem_example :
    (validate_pagination none (some (pos 20)) (some (pos 50)) ≡ some page) ↔ (
      (desc ≡ or_default desc none)
      × ReadsOffset (some (pos 20)) 20
      × ReadsLimit (some (pos 50)) 50)
validate_pagination_lem_example = validate_pagination_lem none (some (pos 20)) (some (pos 50)) page

-- A login through the bus, on the services of the examples
abbrev show_object : Dependency (World Memory Rows) Object → String
show_object d = "dependency"

abbrev message : Request
message = login_request ann_request

send-perform_example :
    (bus : RequestBus (World Memory Rows) Object Request Response) × (request_bus
        (Program.constructors env)
        show_object
        Program.given
        begin
      ≡ (ok bus, begin))
    × (Bus.send bus "LoginRequest" message start ≡ perform env message start)
send-perform_example = send-perform env show_object message begin start
