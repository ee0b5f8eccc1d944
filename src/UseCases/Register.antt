-- ===== src/UseCases/Register.antt =====
-- src/application/v1/usecases/auth/register.py
pub mod Laws
use fastapi_claude_template.Prelude.{String, Bool, true, Option, some, List, [], ◌∷◌}
use fastapi_claude_template.Errors.{detailed, conflict}
use fastapi_claude_template.Exec.{Exec, pure, raise_if, ◌>>=◌, ◌>>◌}
use fastapi_claude_template.World.{World, on_cache, on_db, random_text}
use fastapi_claude_template.Cache
use fastapi_claude_template.Keys.{default_cache_key_builder}
use fastapi_claude_template.Db.Manager.{within_session}
use fastapi_claude_template.Db.Result.{result}
use fastapi_claude_template.Db.Users
use fastapi_claude_template.UseCases.{Env, RegisterRequest}

abbrev pub code_key : String → String
code_key code = default_cache_key_builder [] (("code", code) ∷ [])

module _ {C D : Type 0} (env : Env C D) where
  unfoldable pub login_taken : String → Exec (World C D) Bool
  login_taken login =
      within_session env.session do found ← on_db (Users.exists env.session login); result found

  unfoldable pub register : RegisterRequest → Exec (World C D) Bool
  register request = do
    user ← login_taken request.login
    raise_if user (detailed conflict "User already exists")
    code ← random_text
    on_cache (Cache.set env.auth.redis (code_key code) (env.dump_json request) (some 600))
    pure true
