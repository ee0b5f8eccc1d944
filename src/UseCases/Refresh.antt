-- ===== src/UseCases/Refresh.antt =====
-- src/application/v1/usecases/auth/refresh.py
use fastapi_claude_template.Prelude.{String, is_empty}
use fastapi_claude_template.Errors.{detailed, unauthorized}
use fastapi_claude_template.Exec.{Exec, raise_if, ◌>>◌}
use fastapi_claude_template.World.{World}
use fastapi_claude_template.Auth
use fastapi_claude_template.Auth.{TokensExpire}
use fastapi_claude_template.UseCases.{Env}

module _ {C D : Type 0} (env : Env C D) where
  unfoldable pub refresh_token : String → String → Exec (World C D) TokensExpire
  refresh_token fingerprint token = do
    raise_if (is_empty token) (detailed unauthorized "Not allowed")
    Auth.verify_refresh env.auth fingerprint token
