-- ===== src/Providers.antt =====
-- src/infrastructure/provider.py, src/database/psql/provider.py with connection.py,
-- src/infrastructure/broker/provider.py and the factory of src/database/psql/__init__.py: what is
-- opened for the life of the application and how it is closed. A provider that yields in a
-- `try … finally` is a function of what runs while it is suspended there. When and in which order
-- dishka asks for them and resumes them is dishka's. The libraries' constructors are parameters.
use fastapi_claude_template.Prelude.{ℕ, String, Bool, true, Option, if◌then◌else◌}
use fastapi_claude_template.Exec.{Result, ok, err, Exec, pure, raise, finally, ◌>>=◌, ◌>>◌}
use fastapi_claude_template.Formatter.{Piece}
use fastapi_claude_template.Nats.{NatsClient, create_nats_connection}
use fastapi_claude_template.Settings.{Settings, DatabaseSettings, RedisSettings, url}

-- The clients of the libraries
pub record Clients (S : Type 0) : Type 0 where
  -- `Redis(host=…, port=…, password=…, decode_responses=True)` and its `close`
  pub redis : String → ℕ → Option String → Bool → Exec S (Unit {0})
  pub redis_close : Exec S (Unit {0})
  -- `close_session` of the `AiohttpProvider`
  pub close_session : Exec S (Unit {0})
  -- `create_async_engine(url, pool_size=…, max_overflow=…, pool_pre_ping=…)` and `dispose`
  pub create_async_engine : String → ℕ → ℕ → Bool → Exec S (Unit {0})
  pub dispose : Exec S (Unit {0})
  pub nats : NatsClient S
  pub is_closed : S → Bool
  pub drain : Exec S (Unit {0})

abbrev pub returned : {S A : Type 0} → Result A → Exec S A
returned (ok a) = pure a
returned (err e) = raise e

module _ {S : Type 0} (clients : Clients S) (other_field : Piece → Result String) where
  -- `get_redis`
  unfoldable pub get_redis : RedisSettings → Exec S (Unit {0})
  get_redis settings = clients.redis settings.host settings.port settings.password true

  -- `create_sa_engine` for `DatabaseProvider.engine`
  unfoldable pub create_sa_engine : DatabaseSettings → Exec S (Unit {0})
  create_sa_engine db = do
    address ← returned (url other_field db)
    clients.create_async_engine address db.connection_pool_size db.connection_max_overflow
        db.connection_pool_pre_ping

  abbrev drain_open : Exec S (Unit {0})
  drain_open s = if clients.is_closed s then pure tt s else clients.drain s

module _ {S A : Type 0} (clients : Clients S) (other_field : Piece → Result String) where
  -- `InfrastructureProvider.cache`
  unfoldable pub cache : Settings → Exec S A → Exec S A
  unfolding get_redis
  cache settings using = do
    get_redis clients other_field settings.redis
    finally using clients.redis_close

  -- `InfrastructureProvider.aiohttp_provider`; its constructor opens nothing.
  unfoldable pub aiohttp_provider : Exec S A → Exec S A
  aiohttp_provider using = finally using clients.close_session

  -- `DatabaseProvider.engine`
  unfoldable pub engine : Settings → Exec S A → Exec S A
  unfolding create_sa_engine
  engine settings using = do
    create_sa_engine clients other_field settings.db
    finally using clients.dispose

  -- `BrokerProvider.nats_broker`
  unfoldable pub nats_broker : Settings → Exec S A → Exec S A
  nats_broker settings using = do
    create_nats_connection clients.nats settings.nats.servers settings.nats.user
        settings.nats.password
    finally using (drain_open clients other_field)

-- `create_database_factory(manager, session_factory)`: each call makes a session, a manager over it
-- and a gateway with no repositories.
module _ {S Session Manager Database : Type 0} where
  unfoldable pub create_database_factory :
      (Session → Manager) → Exec S Session → (Manager → Database) → Exec S Database
  create_database_factory manager session_factory gateway = do
    session ← session_factory
    pure (gateway (manager session))
