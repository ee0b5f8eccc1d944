-- ===== src/Logging.antt =====
-- src/infrastructure/logging/setup.py. The processors of structlog go by their names; the numbers of
-- the levels and `str.upper` are Python's and come as parameters.
pub mod Laws
use fastapi_claude_template.Prelude.{
  ℕ, String, Bool, true, false, Option, none, some, List, [], ◌∷◌, ◌++◌, Dict, lookup, erase, ◌==◌,
  if◌then◌else◌,
}
use fastapi_claude_template.Errors.{key_error}
use fastapi_claude_template.Exec.{ok, Exec, pure, raise, ◌>>=◌, ◌>>◌}
use fastapi_claude_template.Settings.{AppSettings}

pub data Processor : Type 0 where
  merge_contextvars add_log_level add_logger_name drop_color_message_key : Processor
  time_stamper stack_info_renderer wrap_for_formatter remove_processors_meta : Processor
  exception_renderer json_renderer console_renderer : Processor

-- `ProcessorFormatter` and the handler on the standard output that has it
pub record Formatter : Type 0 where
  pub processors : List Processor
  pub foreign_pre_chain : List Processor

pub record Handler : Type 0 where
  pub formatter : Formatter

pub record Logger : Type 0 where
  pub level : ℕ
  pub handlers : List Handler
  pub propagate : Bool

pub record Structlog : Type 0 where
  pub processors : List Processor
  -- of the filtering bound logger
  pub min_level : ℕ

-- The loggers of the process, the root apart from the named ones, and what structlog is told
pub record Loggers : Type 0 where
  pub root : Logger
  pub named : String → Logger
  pub structlog : Option Structlog
  pub capture_warnings : Bool

-- `_drop_color_message_key` on the event's fields
unfoldable pub drop_color_message : Dict String → Dict String
unfolding erase
drop_color_message event_dict = erase "color_message" event_dict

abbrev pub shared_processors : List Processor
shared_processors =
    merge_contextvars ∷ add_log_level ∷ add_logger_name ∷ drop_color_message_key ∷ time_stamper
    ∷ stack_info_renderer ∷ []

unfoldable pub final_processors : Bool → List Processor
final_processors true =
    (remove_processors_meta ∷ []) ++ (exception_renderer ∷ []) ++ (json_renderer ∷ [])
final_processors false = (remove_processors_meta ∷ []) ++ (console_renderer ∷ [])

abbrev pub info : ℕ
info = 20

abbrev pub warning : ℕ
warning = 30

abbrev pub noisy_loggers : Dict ℕ
noisy_loggers =
    ("uvicorn", info)
    ∷ ("uvicorn.error", info)
    ∷ ("uvicorn.access", warning)
    ∷ ("granian", info)
    ∷ ("granian.access", warning)
    ∷ ("sqlalchemy.engine", warning)
    ∷ ("aiosqlite", warning)
    ∷ ("asyncio", warning)
    ∷ ("httpx", warning)
    ∷ ("aiohttp.access", warning)
    ∷ []

abbrev pub tamed : ℕ → Logger
tamed level = record { level = level; handlers = []; propagate = true }

-- The body of the loop and the loop of `_tame_noisy_loggers`
unfoldable pub tame : String → ℕ → (String → Logger) → String → Logger
tame name level loggers other = if name == other then tamed level else loggers other

unfoldable pub tame_noisy_loggers : Dict ℕ → (String → Logger) → String → Logger
unfolding tame
tame_noisy_loggers [] loggers = loggers
tame_noisy_loggers ((name, level) ∷ more) loggers =
    tame_noisy_loggers more (tame name level loggers)

abbrev pub handler_of : AppSettings → Handler
handler_of app = record {
  formatter = record {
    processors = final_processors app.production;
    foreign_pre_chain = shared_processors;
  };
}

-- What `setup_logging` does once the level is known
unfoldable pub configured : AppSettings → ℕ → Loggers → Loggers
unfolding final_processors tame_noisy_loggers
configured app level loggers = record {
  structlog =
      some
        (record { processors = shared_processors ++ (wrap_for_formatter ∷ []); min_level = level });
  root = record loggers.root { handlers = [] ++ (handler_of app ∷ []); level = level };
  named = tame_noisy_loggers noisy_loggers loggers.named;
  capture_warnings = true;
}

module _ (level_names : Dict ℕ) (upper : String → String) where
  -- `logging.getLevelNamesMapping()[settings.app.log_level.upper()]`
  abbrev pub level_or_raise : String → Option ℕ → Exec Loggers ℕ
  level_or_raise name none = raise (key_error name)
  level_or_raise name (some level) = pure level

  unfoldable pub setup_logging : AppSettings → Exec Loggers (Unit {0})
  unfolding configured lookup
  setup_logging app = do
    level ← level_or_raise (upper app.log_level) (lookup (upper app.log_level) level_names)
    λ loggers. (ok tt, configured app level loggers)
