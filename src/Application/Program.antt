-- ===== src/Application/Program.antt =====
-- The use cases of UseCases behind the application's bus: the requests of
-- src/application/v1/usecases/auth and user, what each class does with its own, and the objects that
-- the container gives. An object is known by what it is; all gateways are on one database.
pub mod Laws
use fastapi_claude_template.Prelude.{
  String, Bool, true, false, ◌&&◌, Option, none, some, List, [], ◌∷◌, Dict, lookup, ◌==◌,
  if◌then◌else◌,
}
use fastapi_claude_template.Errors.{type_error}
use fastapi_claude_template.Exec.{Exec, pure, raise, ◌>>=◌}
use fastapi_claude_template.World.{World}
use fastapi_claude_template.Auth.{TokensExpire}
use fastapi_claude_template.Db.{RoleName}
use fastapi_claude_template.Bus.{Dependency, UseCase, object}
use fastapi_claude_template.Providers.{create_database_factory}
use fastapi_claude_template.Application.{Given, Constructors}
use fastapi_claude_template.UseCases.{Env, UserResult, RegisterRequest}
use fastapi_claude_template.UseCases.Register
use fastapi_claude_template.UseCases.Login
use fastapi_claude_template.UseCases.Logout.{logout}
use fastapi_claude_template.UseCases.Refresh.{refresh_token}
use fastapi_claude_template.UseCases.Confirm.{confirm}
use fastapi_claude_template.UseCases.Permission.{permission}
use fastapi_claude_template.UseCases.Users.{
  UpdateUserRequest, OffsetPagination, OffsetResult, create_user, select_user, select_many_users,
  update_user,
}

pub data Request : Type 0 where
  register_request login_request : RegisterRequest → Request
  logout_request : (user_uuid refresh_token : String) → Request
  refresh_token_request : (fingerprint refresh_token : String) → Request
  confirm_register_request : (code : String) → Request
  permission_request : (permissions : List (Option RoleName)) (access_token : String) → Request
  create_user_request : (login password role_uuid : String) → Request
  select_user_request : (loads : List String) (user_uuid login : Option String) → Request
  select_many_user_request :
      (loads : List String) (login role_uuid : Option String) → OffsetPagination → Request
  update_user_request : UpdateUserRequest → Request

pub data Response : Type 0 where
  status : Bool → Response
  tokens : TokensExpire → Response
  user : UserResult → Response
  users : OffsetResult UserResult → Response

-- `type(message)`
abbrev pub type_name : Request → String
type_name (register_request _) = "RegisterRequest"
type_name (login_request _) = "LoginRequest"
type_name (logout_request _ _) = "LogoutRequest"
type_name (refresh_token_request _ _) = "RefreshTokenRequest"
type_name (confirm_register_request _) = "ConfirmRegisterRequest"
type_name (permission_request _ _) = "PermissionRequest"
type_name (create_user_request _ _ _) = "CreateUserRequest"
type_name (select_user_request _ _ _) = "SelectUserRequest"
type_name (select_many_user_request _ _ _ _) = "SelectManyUserRequest"
type_name (update_user_request _) = "UpdateUserRequest"

-- The class whose `__call__` takes the request, `UseCase[…]`
abbrev pub class_name : Request → String
class_name (register_request _) = "RegisterUseCase"
class_name (login_request _) = "LoginUseCase"
class_name (logout_request _ _) = "LogoutUseCase"
class_name (refresh_token_request _ _) = "RefreshTokenUseCase"
class_name (confirm_register_request _) = "ConfirmRegisterUseCase"
class_name (permission_request _ _) = "PermissionUseCase"
class_name (create_user_request _ _ _) = "CreateUserUseCase"
class_name (select_user_request _ _ _) = "SelectUserUseCase"
class_name (select_many_user_request _ _ _ _) = "SelectManyUserUseCase"
class_name (update_user_request _) = "UpdateUserUseCase"

pub data Object : Type 0 where
  hasher cache services gateway event_bus : Object

-- The name under which a use case takes an object
abbrev pub is_named : String → Object → Bool
is_named name hasher = name == "hasher"
is_named name cache = name == "cache"
is_named name services = name == "services"
is_named name gateway = name == "database"
is_named name event_bus = name == "event_bus"

abbrev pub all_named : Dict Object → Bool
all_named [] = true
all_named ((name, o) ∷ d) = is_named name o && all_named d

module _ {C D : Type 0} (env : Env C D) where
  -- What the use cases do, each with its own request
  unfoldable pub perform : Request → Exec (World C D) Response
  perform (register_request r) = do b ← Register.register env r; pure (status b)
  perform (login_request r) = do t ← Login.login env r; pure (tokens t)
  perform (logout_request user_uuid token) = do b ← logout env user_uuid token; pure (status b)
  perform (refresh_token_request fingerprint token) = do
    t ← refresh_token env fingerprint token
    pure (tokens t)
  perform (confirm_register_request code) = do t ← confirm env code; pure (tokens t)
  perform (permission_request permissions token) = do
    u ← permission env permissions token
    pure (user u)
  perform (create_user_request login password role_uuid) = do
    u ← create_user env login password role_uuid
    pure (user u)
  perform (select_user_request loads user_uuid login) = do
    u ← select_user env loads user_uuid login
    pure (user u)
  perform (select_many_user_request loads login role_uuid pagination) = do
    us ← select_many_users env loads login role_uuid pagination
    pure (users us)
  perform (update_user_request r) = do u ← update_user env r; pure (user u)

  -- A use case of a class takes the requests of its class only.
  abbrev pub use_case_of : String → UseCase (World C D) Request Response
  use_case_of name q =
      if name == class_name q then perform q else raise (type_error "unexpected request")

  -- The constructor of a class, on objects of the types that its fields have
  abbrev pub construct :
      String → Dict Object → Exec (World C D) (UseCase (World C D) Request Response)
  construct name d =
      if all_named d then pure (use_case_of name) else raise (type_error "unexpected argument")

  abbrev pub constructors : Constructors (World C D) Object Request Response
  constructors = record { new = construct; annotation = λ class. object event_bus }

-- What the container gives; the database's factory makes a gateway and does nothing else, since a
-- session connects when it is first used.
abbrev pub given : {C D : Type 0} → Given (World C D) Object
given = record {
  hasher = hasher;
  cache = cache;
  services = services;
  database_factory =
      create_database_factory (λ (session : Unit {0}). session) (pure tt) (λ manager. gateway);
  event_bus = event_bus;
}
