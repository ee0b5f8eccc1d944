-- ===== src/UseCases/Logout.antt =====
-- src/application/v1/usecases/auth/logout.py
use fastapi_claude_template.Prelude.{String, Bool, is_empty}
use fastapi_claude_template.Errors.{detailed, unauthorized}
use fastapi_claude_template.Exec.{Exec, raise_if, ◌>>◌}
use fastapi_claude_template.World.{World}
use fastapi_claude_template.Auth
use fastapi_claude_template.UseCases.{Env}

module _ {C D : Type 0} (env : Env C D) where
  unfoldable pub logout : String → String → Exec (World C D) Bool
  logout user_uuid refresh_token = do
    raise_if (is_empty refresh_token) (detailed unauthorized "Not allowed")
    Auth.invalidate_refresh env.auth refresh_token user_uuid
