-- ===== src/Migrations/Runs.antt =====
-- src/migrations/env.py: how a run is set up and what it leaves. Alembic's context, which runs the
-- revisions in a transaction, and the engine's connections are parameters.
pub mod Laws
use Prim.Native.String
use fastapi_claude_template.Prelude.{
  ℕ, suc, ◌+◌, ◌-◌, ◌*◌, String, ◌≡◌, Bool, true, false, not, ◌&&◌, Option, none, some, List, [],
  ◌∷◌, is_empty, code, leb, ltb, nat_beq, decimal, ◌<>◌, if◌then◌else◌, Char,
}
use fastapi_claude_template.Errors.{Failure}
use fastapi_claude_template.Exec.{Result, ok, err, Exec, ◌>>=◌, ◌>>◌}

-- What `context.configure` is told
pub data Configuration : Type 0 where
  -- `url=url`, with literal binds
  by_url : String → Configuration
  -- `connection=connection`, with `add_number_to_migrations` as the hook
  by_connection : Configuration

-- The database, and how many engines and connections are open
pub record Env (S : Type 0) : Type 0 where
  pub db : S
  pub configured : Option Configuration
  pub engines : ℕ
  pub connections : ℕ

-- `context.run_migrations()`, and `with context.begin_transaction():` around a body
pub record Context (S : Type 0) : Type 0 where
  pub run_migrations : Option Configuration → Exec S (Unit {0})
  pub begin_transaction : Exec S (Unit {0}) → Exec S (Unit {0})
  -- `await engine.connect()`
  pub connect : Exec S (Unit {0})

-- A transaction ends by a commit, or by a rollback that undoes the body's statements.
pub record IsTransactional {S : Type 0} (context : Context S) : Type 0 where
  pub committed :
      (m : Exec S (Unit {0})) (s s' : S)
      → m s ≡ (ok tt, s')
      → context.begin_transaction m s ≡ (ok tt, s')
  pub rolled_back :
      (m : Exec S (Unit {0})) (e : Failure) (s s' : S)
      → m s ≡ (err e, s')
      → context.begin_transaction m s ≡ (err e, s)

-- `if not (url := config.get_main_option(…)): url = load_settings().db.url`
unfoldable pub database_url : Option String → String → String
database_url none settings_url = settings_url
database_url (some url) settings_url = if is_empty url then settings_url else url

module _ {S : Type 0} where
  abbrev pub on_database : Exec S (Unit {0}) → Exec (Env S) (Unit {0})
  on_database m env = ((m env.db).0, record env { db = (m env.db).1 })

  abbrev pub configure : Configuration → Exec (Env S) (Unit {0})
  configure c env = (ok tt, record env { configured = some c })

  abbrev pub open_engine : Exec (Env S) (Unit {0})
  open_engine env = (ok tt, record env { engines = env.engines + 1 })

  -- `await connectable.dispose()`
  abbrev pub dispose : Exec (Env S) (Unit {0})
  dispose env = (ok tt, record env { engines = env.engines - 1 })

  abbrev pub open_connection : Exec (Env S) (Unit {0})
  open_connection env = (ok tt, record env { connections = env.connections + 1 })

  -- `__aexit__` of the connection, on both ways out
  abbrev pub close_connection : Result (Unit {0}) × Env S → Result (Unit {0}) × Env S
  close_connection (r, env) = (r, record env { connections = env.connections - 1 })

module _ {S : Type 0} (context : Context S) where
  unfoldable pub run_in_transaction : Exec (Env S) (Unit {0})
  run_in_transaction env =
      on_database (context.begin_transaction (context.run_migrations env.configured)) env

  unfoldable pub run_migrations_offline : String → Exec (Env S) (Unit {0})
  unfolding run_in_transaction
  run_migrations_offline url = do configure (by_url url); run_in_transaction

  unfoldable pub do_run_migrations : Exec (Env S) (Unit {0})
  unfolding run_in_transaction
  do_run_migrations = do configure by_connection; run_in_transaction

  -- `async with connectable.connect() as connection: body`
  abbrev pub with_connection : Exec (Env S) (Unit {0}) → Exec (Env S) (Unit {0})
  with_connection body = do
    on_database context.connect
    λ env. close_connection ((open_connection >> body) env)

  unfoldable pub run_async_migrations : Exec (Env S) (Unit {0})
  unfolding do_run_migrations
  run_async_migrations = do open_engine; with_connection do_run_migrations; dispose

  -- `connection` says whether the configuration's attributes hold one.
  unfoldable pub run_migrations_online : Bool → Exec (Env S) (Unit {0})
  unfolding do_run_migrations run_async_migrations
  run_migrations_online true = do_run_migrations
  run_migrations_online false = run_async_migrations

  -- The end of the module
  unfoldable pub main : Bool → Bool → String → Exec (Env S) (Unit {0})
  unfolding run_migrations_online run_migrations_offline
  main is_offline_mode connection url =
      if is_offline_mode then run_migrations_offline url else run_migrations_online connection
