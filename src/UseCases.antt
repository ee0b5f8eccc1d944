-- ===== src/UseCases.antt =====
-- src/application/v1: what the use cases are built from, their requests and their results.
pub mod Cache
pub mod Register
pub mod Confirm
pub mod Login
pub mod Logout
pub mod Refresh
pub mod Permission
pub mod Users
use Prim.Native.String.{count}
use fastapi_claude_template.Prelude.{
  ℕ, String, Bool, true, false, ◌&&◌, Option, none, some, List, leb, if◌then◌else◌,
}
use fastapi_claude_template.Errors.{Failure, external}
use fastapi_claude_template.Exec.{Exec, pure, raise, ◌>>=◌}
use fastapi_claude_template.Db.{Session, Role, User, RoleName, role_text}
use fastapi_claude_template.Auth
use fastapi_claude_template.World.{World, random_text}

-- src/application/v1/constants.py
abbrev pub min_password_length : ℕ
min_password_length = 8

abbrev pub max_password_length : ℕ
max_password_length = 32

abbrev pub max_login_length : ℕ
max_login_length = 128

-- results/role.py, results/user.py
pub record RoleResult : Type 0 where
  pub uuid : String
  pub name : String

pub record UserResult : Type 0 where
  pub uuid : String
  pub login : String
  pub active : Bool
  pub role : Option RoleResult

abbrev role_result : Option Role → Option RoleResult
role_result none = none
role_result (some r) = some (record { uuid = r.uuid; name = role_text r.name })

-- `UserResult(**user.as_dict())`: the fields that the result has, a relation only if it was loaded
unfoldable pub user_result : User → UserResult
user_result user = record {
  uuid = user.uuid;
  login = user.login;
  active = user.active;
  role = role_result user.role;
}

-- usecases/auth/register.py and login.py: the same fields and bounds
pub record RegisterRequest : Type 0 where
  pub login : String
  pub password : String
  pub fingerprint : String

-- What pydantic checks when the request is made
abbrev pub is_valid_request : RegisterRequest → Bool
is_valid_request r =
    leb (count r.login) max_login_length
    && leb min_password_length (count r.password)
    && leb (count r.password) max_password_length

pub data Verified : Type 0 where
  matched mismatch verification_error invalid_hash : Verified

-- Third-party code that the use cases reach: the Argon2 hasher, whose salt is random, and pydantic's
-- JSON of a request, where `none` is a `ValidationError`.
pub record Env (C D : Type 0) : Type 0 where
  pub auth : Auth.Deps C
  pub session : Session D
  pub hash : String → String → String
  pub verify : String → String → Verified
  pub dump_json : RegisterRequest → String
  pub validate_json : String → Option RegisterRequest

-- src/infrastructure/security/argon2.py: any other exception of the hasher is not caught.
abbrev password_verified {ℓ} : {S : Type ℓ} → Verified → Exec S Bool
password_verified matched = pure true
password_verified mismatch = pure false
password_verified verification_error = pure false
password_verified invalid_hash = raise (external "InvalidHashError")

module _ {C D : Type 0} (env : Env C D) where
  unfoldable pub hash_password : String → Exec (World C D) String
  hash_password plain = do salt ← random_text; pure (env.hash salt plain)

  unfoldable pub verify_password : String → String → Exec (World C D) Bool
  verify_password hashed plain = password_verified (env.verify hashed plain)
