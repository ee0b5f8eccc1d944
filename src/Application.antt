-- ===== src/Application.antt =====
-- src/application/provider.py and src/application/v1/usecases/__init__.py: the bus that serves the use
-- cases, with the dependencies of the application, and the event bus of
-- src/infrastructure/broker/provider.py. The parameters of a use case are the fields of its dataclass,
-- each with its annotation, a class.
pub mod Laws
pub mod Program
use fastapi_claude_template.Prelude.{String, List, [], ◌∷◌, map, Dict}
use fastapi_claude_template.Exec.{Exec, pure, ◌>>=◌}
use fastapi_claude_template.Bus.{
  Dependency, callable, object, UseCase, UseCaseClass, RequestBus, builder, register,
}
use fastapi_claude_template.Bus
use fastapi_claude_template.Bus.Events
use fastapi_claude_template.Bus.Events.{Broker, Registry}
use fastapi_claude_template.Events.{BrokerEvent}
use fastapi_claude_template.Nats.{NatsClient, nats_broker, jet_stream_broker}

-- What the provider is given: the hasher, the cache, the services and the event bus as objects, and
-- the factory that makes a gateway on the database
pub record Given (S V : Type 0) : Type 0 where
  pub hasher : V
  pub cache : V
  pub services : V
  pub database_factory : Exec S V
  pub event_bus : V

-- The constructors of the use cases, by the names of their classes, and the classes that annotate
-- their fields
pub record Constructors (S V Q R : Type 0) : Type 0 where
  pub new : String → Dict V → Exec S (UseCase S Q R)
  pub annotation : String → Dependency S V

module _ {S V : Type 0} where
  -- `builder().dependencies(…)`: the factory is callable, the objects are not
  abbrev pub given_dependencies : Given S V → Dict (Dependency S V)
  given_dependencies given =
      ("hasher", object given.hasher)
      ∷ ("cache", object given.cache)
      ∷ ("services", object given.services)
      ∷ ("database", callable given.database_factory)
      ∷ ("event_bus", object given.event_bus)
      ∷ []

module _ {S V Q R : Type 0} (c : Constructors S V Q R) where
  abbrev field_of : String → String → String × Dependency S V
  field_of name class = (name, c.annotation class)

  -- `class Name(UseCase[…])` with its fields
  abbrev pub use_case : String → List (String × Dependency S V) → UseCaseClass S V Q R
  use_case name params = record { params = params; new = c.new name }

  abbrev pub services : String × Dependency S V
  services = field_of "services" "ServiceGateway"

  abbrev pub database : String × Dependency S V
  database = field_of "database" "DBGateway"

  abbrev pub hasher : String × Dependency S V
  hasher = field_of "hasher" "Hasher"

  abbrev pub cache : String × Dependency S V
  cache = field_of "cache" "StrCache"

  unfoldable pub register_use_case : UseCaseClass S V Q R
  register_use_case = use_case "RegisterUseCase" (database ∷ cache ∷ [])

  unfoldable pub login_use_case : UseCaseClass S V Q R
  login_use_case = use_case "LoginUseCase" (services ∷ database ∷ hasher ∷ [])

  unfoldable pub logout_use_case : UseCaseClass S V Q R
  logout_use_case = use_case "LogoutUseCase" (services ∷ [])

  unfoldable pub refresh_token_use_case : UseCaseClass S V Q R
  refresh_token_use_case = use_case "RefreshTokenUseCase" (services ∷ [])

  unfoldable pub confirm_register_use_case : UseCaseClass S V Q R
  confirm_register_use_case =
      use_case "ConfirmRegisterUseCase" (services ∷ database ∷ hasher ∷ cache ∷ [])

  unfoldable pub permission_use_case : UseCaseClass S V Q R
  permission_use_case = use_case "PermissionUseCase" (services ∷ database ∷ [])

  unfoldable pub create_user_use_case : UseCaseClass S V Q R
  create_user_use_case = use_case "CreateUserUseCase" (database ∷ hasher ∷ [])

  unfoldable pub select_user_use_case : UseCaseClass S V Q R
  select_user_use_case = use_case "SelectUserUseCase" (database ∷ [])

  unfoldable pub select_many_user_use_case : UseCaseClass S V Q R
  select_many_user_use_case = use_case "SelectManyUserUseCase" (database ∷ [])

  unfoldable pub update_user_use_case : UseCaseClass S V Q R
  update_user_use_case = use_case "UpdateUserUseCase" (database ∷ hasher ∷ [])

  module _ {T : Type 0} (show : Dependency S V → String) where
    unfoldable pub setup_use_cases : RequestBus S V Q R → Exec T (RequestBus S V Q R)
    unfolding register register_use_case login_use_case logout_use_case refresh_token_use_case
        confirm_register_use_case permission_use_case create_user_use_case select_user_use_case
        select_many_user_use_case update_user_use_case
    setup_use_cases bus = do
      bus ← register show "RegisterRequest" register_use_case bus
      bus ← register show "LoginRequest" login_use_case bus
      bus ← register show "LogoutRequest" logout_use_case bus
      bus ← register show "RefreshTokenRequest" refresh_token_use_case bus
      bus ← register show "ConfirmRegisterRequest" confirm_register_use_case bus
      bus ← register show "PermissionRequest" permission_use_case bus
      bus ← register show "CreateUserRequest" create_user_use_case bus
      bus ← register show "SelectUserRequest" select_user_use_case bus
      bus ← register show "SelectManyUserRequest" select_many_user_use_case bus
      register show "UpdateUserRequest" update_user_use_case bus

    -- `ApplicationProvider.request_bus`
    unfoldable pub request_bus : Given S V → Exec T (RequestBus S V Q R)
    unfolding setup_use_cases
    request_bus given = setup_use_cases (builder (given_dependencies given))

-- `BrokerProvider.event_bus`, with the brokers in one of the orders of the set
module _ {S T : Type 0} where
  unfoldable pub event_bus : NatsClient S → Exec T (Registry S BrokerEvent)
  unfolding Bus.Events.build
  event_bus nats = Bus.Events.build (nats_broker nats ∷ jet_stream_broker nats ∷ []) []
