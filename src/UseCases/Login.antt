-- ===== src/UseCases/Login.antt =====
-- src/application/v1/usecases/auth/login.py
pub mod Laws
use fastapi_claude_template.Prelude.{String, Bool, true, false, not, Option, none, some, List, []}
use fastapi_claude_template.Errors.{detailed, forbidden, unauthorized}
use fastapi_claude_template.Exec.{Exec, raise_if, ◌>>=◌, ◌>>◌}
use fastapi_claude_template.World.{World, on_db}
use fastapi_claude_template.Auth
use fastapi_claude_template.Auth.{TokensExpire}
use fastapi_claude_template.Db.{User}
use fastapi_claude_template.Db.Manager.{within_session}
use fastapi_claude_template.Db.Result.{result}
use fastapi_claude_template.Db.Users
use fastapi_claude_template.UseCases.{Env, RegisterRequest, verify_password}

module _ {C D : Type 0} (env : Env C D) where
  unfoldable pub find_user : List String → Option String → Option String → Exec (World C D) User
  find_user loads user_uuid login = do
    found ← on_db (Users.select env.session loads user_uuid login)
    result found

  -- `LoginRequest` has the fields of `RegisterRequest`.
  unfoldable pub login : RegisterRequest → Exec (World C D) TokensExpire
  login request = do
    user ← within_session env.session (find_user [] none (some request.login))
    raise_if (not user.active) (detailed forbidden "You have been blocked")
    verified ← verify_password env user.password request.password
    raise_if (not verified) (detailed unauthorized "Incorrect password or login")
    Auth.login env.auth request.fingerprint user.uuid
