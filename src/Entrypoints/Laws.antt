-- ===== src/Entrypoints/Laws.antt =====
-- What is served, when nothing is, and who connects with which credentials.
use fastapi_claude_template.Prelude.{
  ℕ, String, ◌≡◌, refl, Bool, true, false, Option, none, some, Dict, lookup, ◌==◌, is_empty,
  Bool-cases, Option-cases, inl, inr, if◌then◌else◌, arith,
}
use fastapi_claude_template.Errors.{value_error, key_error}
use fastapi_claude_template.Exec.{Exec, raise}
use fastapi_claude_template.Settings.{Settings, Environment, NatsSettings, load_settings}
use fastapi_claude_template.Logging.{setup_logging}
use fastapi_claude_template.Entrypoints.{
  Server, server_of, run, run_api_granian, main, app_factory, unsupported, Process, security,
  taskiq_credentials, workers_or_count,
}

module _ {S : Type 0} (serve : Server → Exec S (Unit {0})) (cpu_count : ℕ) (level_names : Dict ℕ)
    (upper : String → String) (environment : Environment) where
  -- The outcome of the program on what lies outside of it
  abbrev pub outcome : Settings → Option ℕ → Exec S (Unit {0})
  outcome settings none = raise (key_error (upper settings.app.log_level))
  outcome settings (some level) =
      if settings.server.type_ == "granian"
      then serve (record {
        target = app_factory;
        address = settings.server.host;
        port = settings.server.port;
        workers = workers_or_count cpu_count settings.server.workers;
        runtime_threads = settings.server.threads;
        log_access = false;
        factory = true;
      })
      else raise (value_error (unsupported settings.server.type_))

  -- The program serves the factory of the application on the host, the port, the workers and the
  -- threads of the settings, when its server is granian and its log level has a name. A level without
  -- a name is a KeyError and another server a ValueError, and then nothing is served.
  pub main_lem :
      (p : Process S)
      → let settings = load_settings environment none none none none none none in
        let level = lookup (upper settings.app.log_level) level_names in
        ((main serve cpu_count level_names upper environment p).0
          ≡ (outcome settings level p.outside).0)
        × ((main serve cpu_count level_names upper environment p).1.outside
            ≡ (outcome settings level p.outside).1)
  unfolding main run run_api_granian server_of setup_logging
  main_lem p =
      let settings = load_settings environment none none none none none none in
      elim (Option-cases (lookup (upper settings.app.log_level) level_names)) [
        | inl e ↦ rw e (refl, refl)
        | inr (level, e) ↦ rw e (elim (Bool-cases (settings.server.type_ == "granian")) [
          | inl h ↦ rw h (refl, refl)
          | inr h ↦ rw h (refl, refl)
        ])
      ]

-- Both or neither
abbrev pub both_set : Option String × Option String → Option (String × String)
both_set (none, password) = none
both_set (some user, none) = none
both_set (some user, some password) = some (user, password)

-- The consumers connect with the user and the password that the tasks connect with when both are set;
-- when one of them is empty the consumers give neither, and the tasks the other one.
pub security_lem : (nats : NatsSettings) → security nats ≡ both_set (taskiq_credentials nats)
unfolding security taskiq_credentials
security_lem nats = split_on (is_empty nats.user) (is_empty nats.password) refl refl
  where
    split_on :
        (b c : Bool)
        → is_empty nats.user ≡ b
        → is_empty nats.password ≡ c
        → security nats ≡ both_set (taskiq_credentials nats)
    split_on true c e f = ground arith
    split_on false true e f = ground arith
    split_on false false e f = ground arith
