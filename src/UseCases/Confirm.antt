-- ===== src/UseCases/Confirm.antt =====
-- src/application/v1/usecases/auth/confirm.py
pub mod Laws
use fastapi_claude_template.Prelude.{
  String, Bool, true, Option, none, some, List, [], ◌∷◌, is_empty, if◌then◌else◌,
}
use fastapi_claude_template.Errors.{Failure, detailed, not_found, external}
use fastapi_claude_template.Exec.{Exec, pure, raise, ◌>>=◌, ◌>>◌}
use fastapi_claude_template.World.{World, on_cache, on_db}
use fastapi_claude_template.Auth
use fastapi_claude_template.Auth.{TokensExpire}
use fastapi_claude_template.Cache
use fastapi_claude_template.Jwt.{or_raise}
use fastapi_claude_template.Db.{User, RoleName, text}
use fastapi_claude_template.Db.Manager.{within}
use fastapi_claude_template.Db.Result.{result}
use fastapi_claude_template.Db.Roles
use fastapi_claude_template.Db.Users
use fastapi_claude_template.UseCases.{Env, RegisterRequest, hash_password}
use fastapi_claude_template.UseCases.Register.{code_key}

abbrev pub invalid_code : Failure
invalid_code = detailed not_found "Code has expire or invalid"

-- `if not cached_data:`, where `None` and the empty text are false
abbrev pub cached_or_raise : {S : Type 0} → Option String → Exec S String
cached_or_raise none = raise invalid_code
cached_or_raise (some s) = if is_empty s then raise invalid_code else pure s

module _ {C D : Type 0} (env : Env C D) where
  -- The body of `async with self.database:`
  unfoldable pub create_user : RegisterRequest → Exec (World C D) User
  create_user cached_user = do
    found ← on_db (Roles.select env.session [] none (some RoleName.user))
    role ← result found
    hashed ← hash_password env cached_user.password
    created ← on_db (
        Users.create env.session (
          ("login", text cached_user.login)
          ∷ ("password", text hashed)
          ∷ ("role_uuid", text role.uuid)
          ∷ []))
    result created

  unfoldable pub confirm : String → Exec (World C D) TokensExpire
  confirm code = do
    cached ← on_cache (Cache.get env.auth.redis (code_key code))
    cached_data ← cached_or_raise cached
    on_cache (Cache.delete env.auth.redis (code_key code ∷ []))
    cached_user ← or_raise (external "ValidationError") (env.validate_json cached_data)
    user ← within env.session (create_user cached_user)
    Auth.login env.auth cached_user.fingerprint user.uuid
