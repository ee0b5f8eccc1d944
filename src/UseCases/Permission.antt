-- ===== src/UseCases/Permission.antt =====
-- src/application/v1/usecases/auth/permission.py
pub mod Laws
use fastapi_claude_template.Prelude.{
  String, Bool, true, false, not, ◌&&◌, Option, none, some, List, [], ◌∷◌, any, ◌==◌,
}
use fastapi_claude_template.Errors.{detailed, forbidden, unauthorized, service_not_implemented}
use fastapi_claude_template.Exec.{Exec, pure, raise, raise_if, ◌>>=◌, ◌>>◌}
use fastapi_claude_template.World.{World}
use fastapi_claude_template.Jwt.{access}
use fastapi_claude_template.Auth
use fastapi_claude_template.Db.{User, Role, RoleName, role_text}
use fastapi_claude_template.Db.Manager.{within_session}
use fastapi_claude_template.UseCases.{Env, UserResult, user_result}
use fastapi_claude_template.UseCases.Login.{find_user}

-- `if allowed_roles := request.permissions: if name not in allowed_roles:`. A permission is a role's
-- name or `None`, which no role has.
abbrev pub is_named : Option RoleName → Role → Bool
is_named none r = false
is_named (some name) r = role_text name == role_text r.name

abbrev pub is_denied : List (Option RoleName) → Role → Bool
is_denied [] r = false
is_denied (p ∷ ps) r = not (any (λ q. is_named q r) (p ∷ ps))

module _ {C D : Type 0} (env : Env C D) where
  unfoldable pub check_role : List (Option RoleName) → Option Role → Exec (World C D) (Unit {0})
  check_role permissions none = raise (detailed service_not_implemented "Role not found")
  check_role permissions (some role) =
      raise_if (is_denied permissions role) (detailed unauthorized "Not Allowed")

  unfoldable pub permission : List (Option RoleName) → String → Exec (World C D) UserResult
  permission permissions access_token = do
    user_uuid ← Auth.verify_token env.auth access_token access
    within_session env.session do
      user ← find_user env ("role" ∷ []) (some user_uuid) none
      raise_if (not user.active) (detailed forbidden "You have been blocked")
      check_role permissions user.role
      pure (user_result user)
