-- ===== src/Entrypoints.antt =====
-- src/entrypoints, src/tasks/broker.py: how the programs start. The server of granian, the brokers of
-- FastStream and taskiq and dishka's containers are parameters; what a program logs as it starts is
-- left out.
pub mod Laws
use fastapi_claude_template.Prelude.{
  ℕ, ◌-◌, String, Bool, true, false, not, ◌&&◌, Option, none, some, List, [], ◌∷◌, ◌++◌, is_empty,
  Dict, ◌==◌, ◌<>◌, if◌then◌else◌,
}
use fastapi_claude_template.Errors.{value_error}
use fastapi_claude_template.Exec.{ok, Exec, pure, raise, finally, ◌>>=◌, ◌>>◌}
use fastapi_claude_template.Logging.{Loggers, setup_logging}
use fastapi_claude_template.Nats.{text_or_none}
use fastapi_claude_template.Settings.{
  Settings, Environment, ServerSettings, NatsSettings, load_settings,
}

pub data Provider : Type 0 where
  settings_provider infrastructure database broker application : Provider
  fastapi faststream taskiq : Provider

-- container.py
unfoldable pub build_container : List Provider → List Provider
build_container extra = settings_provider ∷ infrastructure ∷ database ∷ broker ∷ application ∷ extra

-- What granian's `Server` is given
pub record Server : Type 0 where
  pub target : String
  pub address : String
  pub port : ℕ
  pub workers : ℕ
  pub runtime_threads : ℕ
  pub log_access : Bool
  pub factory : Bool

-- server/utils.py; there is at least one CPU
unfoldable pub workers_count : ℕ → ℕ
workers_count cpu_count = cpu_count - 1

abbrev pub workers_or_count : ℕ → Option ℕ → ℕ
workers_or_count cpu_count none = workers_count cpu_count
workers_or_count cpu_count (some n) = n

-- server/granian.py
unfoldable pub server_of : ℕ → String → ServerSettings → Server
unfolding workers_count
server_of cpu_count target settings = record {
  target = target;
  address = settings.host;
  port = settings.port;
  workers = workers_or_count cpu_count settings.workers;
  runtime_threads = settings.threads;
  log_access = false;
  factory = true;
}

abbrev pub app_factory : String
app_factory = "src.entrypoints.http:create_app_factory"

abbrev pub unsupported : String → String
unsupported type_ =
    "Unsupported server type: '" <> type_ <> "'. "
    <> "Currently only 'granian' server type is supported."

-- The loggers of the process beside what else it has
pub record Process (S : Type 0) : Type 0 where
  pub loggers : Loggers
  pub outside : S

module _ {S : Type 0} where
  abbrev pub on_loggers : Exec Loggers (Unit {0}) → Exec (Process S) (Unit {0})
  on_loggers m p = ((m p.loggers).0, record p { loggers = (m p.loggers).1 })

  abbrev pub on_outside {ℓ} : {A : Type ℓ} → Exec S A → Exec (Process S) A
  on_outside m p = ((m p.outside).0, record p { outside = (m p.outside).1 })

module _ {S : Type 0} (serve : Server → Exec S (Unit {0})) (cpu_count : ℕ) where
  unfoldable pub run_api_granian : String → ServerSettings → Exec S (Unit {0})
  unfolding server_of
  run_api_granian target settings = serve (server_of cpu_count target settings)

  -- http.py: `run`
  unfoldable pub run : Settings → Exec S (Unit {0})
  unfolding run_api_granian
  run settings =
      if settings.server.type_ == "granian"
      then run_api_granian app_factory settings.server
      else raise (value_error (unsupported settings.server.type_))

  module _ (level_names : Dict ℕ) (upper : String → String) (environment : Environment) where
    -- `load_settings()` with no arguments
    abbrev pub loaded : Settings
    loaded = load_settings environment none none none none none none

    -- http.py: `main`
    unfoldable pub main : Exec (Process S) (Unit {0})
    unfolding run
    main = do on_loggers (setup_logging level_names upper loaded.app); on_outside (run loaded)

-- http.py: `create_app`. An application is what FastAPI keeps of it, a parameter.
pub record Fastapi (S A : Type 0) : Type 0 where
  pub new : Settings → Exec S A
  pub setup_dishka : List Provider → A → Exec S A
  pub setup_v1_routers : A → Exec S A
  pub setup_exception_handlers : A → Exec S A
  pub setup_global_middlewares : A → ServerSettings → Exec S A

module _ {S A : Type 0} (api : Fastapi S A) where
  unfoldable pub create_app : Settings → Exec S A
  unfolding build_container
  create_app settings = do
    app ← api.new settings
    app ← api.setup_dishka (build_container (fastapi ∷ [])) app
    app ← api.setup_v1_routers app
    app ← api.setup_exception_handlers app
    api.setup_global_middlewares app settings.server

  module _ (level_names : Dict ℕ) (upper : String → String) (environment : Environment) where
    unfoldable pub create_app_factory : Exec (Process S) A
    unfolding create_app
    create_app_factory =
        let settings = load_settings environment none none none none none none in
        on_loggers (setup_logging level_names upper settings.app)
        >> on_outside (create_app settings)

-- http.py: `lifespan` around what the server does between the start and the stop
module _ {S A : Type 0} where
  unfoldable pub lifespan : Exec S (Unit {0}) → Exec S A → Exec S A
  lifespan close served = finally served close

-- consumers.py: `SASLPlaintext(username, password)` or none
unfoldable pub security : NatsSettings → Option (String × String)
security nats =
    if not (is_empty nats.user) && not (is_empty nats.password)
    then some (nats.user, nats.password)
    else none

-- tasks/broker.py: the user and the password of `create_taskiq_broker`
unfoldable pub taskiq_credentials : NatsSettings → Option String × Option String
taskiq_credentials nats = (text_or_none nats.user, text_or_none nats.password)

-- tasks.py: the events of taskiq with the handlers of `create_tasks`
pub data TaskiqEvent : Type 0 where
  worker_startup client_startup worker_shutdown client_shutdown : TaskiqEvent

module _ {S : Type 0} (close : Exec S (Unit {0})) where
  unfoldable pub on_event : TaskiqEvent → Exec S (Unit {0})
  on_event worker_startup = pure tt
  on_event client_startup = pure tt
  on_event worker_shutdown = close
  on_event client_shutdown = close
