-- ===== src/Lib.antt =====
-- Verification of the FastAPI template: the accounts, sessions, guards and endpoints of the service,
-- modelled over the Redis server, the database and the clock that they use.
--
-- A coroutine is a function of a world to a result and a world (Exec, World): a raise keeps the writes
-- made before it. Third-party code is a parameter, and what is documented of it is a record of laws:
-- the redis client (Redis, with a store in memory that meets the laws), PyJWT (Jwt), the SQLAlchemy
-- session (Db), Argon2, pydantic's JSON and orjson. Times are whole numbers of microseconds, in the
-- rate limit of seconds; the clock shows any times that the environment chooses. Numbers are not
-- bounded, as Python's are not. The loops run over lists and texts; only the formatter counts depth,
-- three levels as Python's `string.Formatter` has it, and two are enough for templates of plain fields.
--
-- The parts, with the paths of the code:
-- Errors: src/application/common/exceptions.py, src/database/psql/exceptions.py and
--   src/infrastructure/http/provider/errors.py.
-- Cache: src/infrastructure/cache/redis.py. Keys: src/common/tools/cache.py.
-- Jwt: src/infrastructure/security/jwt.py.
-- Auth: src/application/v1/services/auth.py, `AuthService`. It keeps a list of pairs, fingerprint and
--   refresh token, under each user's UUID. Auth/Pairs has the separator, Auth/Sessions the login,
--   Auth/Verify the tokens, Auth/Refresh and Auth/Rotation the refresh, Auth/Logout the logout.
-- Db: src/database/psql. Db/Manager is manager.py, whose `async with` is `within`; Db/Crud, Db/Users,
--   Db/Roles and Db/Result are repositories/ and the decorator of tools.py.
-- UseCases: src/application/v1/usecases, a module for each use case, and security/argon2.py.
-- RateLimit: src/presentation/http/common/guards/rate_limit.py.
-- Guard: src/presentation/http/v1/guards/auth.py. Endpoints: src/presentation/http/v1/endpoints.
-- Handlers: src/presentation/http/common/exception_handlers.py.
-- Provider: src/infrastructure/http/provider, the middlewares of the outgoing HTTP client;
--   Provider/Aiohttp the life of its session, Provider/Aiohttp/Requests the requests over it
--   (its Calls those with the middlewares), and Provider/Aiohttp/Proxies the connectors of proxies.
-- Clients: src/infrastructure/http/clients/base.py and the logging middleware of the provider.
-- Formatter: src/common/tools/formatter.py with the parts of `string.Formatter` under it.
-- ResponseCache: src/presentation/http/common/wrapper/cache.py, on Formatter, Keys and Cache;
--   ResponseCache/Template has its keys, ResponseCache/Sending the bus with the cache around it.
-- Middlewares: src/presentation/http/common/middlewares, around any ASGI application.
-- Bus: src/application/common/bus, the request bus; Bus/Events the event bus, over the brokers of
--   Nats (src/infrastructure/broker/nats) and the events of Events
--   (src/application/common/events/broker.py). A set of Python's is a list in the order of iteration.
-- Settings: src/settings/core.py. Wiring: src/common/di/container.py, src/common/tools/singleton.py
--   and the gateway of src/database/psql/__init__.py.
-- Models: src/database/psql/models with src/common/tools/text.py; Models/Dump is `as_dict`.
-- Migrations: migrations/versions, the two revisions, over the schemas of Migrations/Catalogs and what
--   Migrations/Database assumes of alembic's operations; Migrations/Runs and Migrations/Numbers are
--   migrations/env.py.
-- Routing: the routers of src/presentation/http/v1/endpoints, the guards of which are Guard's.
-- Contracts: src/presentation/http/v1/contracts. Serializers: presentation/http/common/serializers.
-- Providers: the yielding providers of src/infrastructure and src/database/psql.
-- Application: src/application/provider.py and the registration of the use cases on Bus;
--   Application/Program puts the use cases of UseCases behind it.
-- Logging: src/infrastructure/logging/setup.py. Entrypoints: src/entrypoints and src/tasks/broker.py.
-- Argon2: src/infrastructure/security/argon2.py. Files: src/common/tools/files.py.
-- Prelude has the shared helpers, Tests the examples.
--
-- Not modelled: FastAPI's matching of paths and reading of requests, dishka's resolution of
-- dependencies and its order of closing them, filters of loggers, what the programs log as they
-- start, and the construction of FastStream's and taskiq's objects, which only call libraries; the
-- quoting of `urllib.parse.urljoin` and the attributes that a field of a template may read, which
-- are parameters; headers and cookies of aiohttp's responses; the relationships of the models. Keys
-- of the cache that expire are not: a law shows the store right after a command. Nor is the time
-- that `close_session` sleeps.
pub mod Prelude
pub mod Exec
pub mod Errors
pub mod Redis
pub mod Cache
pub mod World
pub mod Jwt
pub mod Auth
pub mod Db
pub mod Keys
pub mod UseCases
pub mod RateLimit
pub mod Provider
pub mod Handlers
pub mod Guard
pub mod Endpoints
pub mod Tests
pub mod Formatter
pub mod ResponseCache
pub mod Middlewares
pub mod Bus
pub mod Events
pub mod Nats
pub mod Settings
pub mod Wiring
pub mod Clients
pub mod Models
pub mod Migrations
pub mod Routing
pub mod Logging
pub mod Providers
pub mod Application
pub mod Contracts
pub mod Entrypoints
pub mod Argon2
pub mod Files
pub mod Serializers
