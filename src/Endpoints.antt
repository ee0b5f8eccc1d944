-- ===== src/Endpoints.antt =====
-- src/presentation/http/v1/endpoints: the endpoints of users and their sessions, and their contracts.
-- `request_bus.send` hands a request to its use case; routing is FastAPI's.
pub mod Laws
use fastapi_claude_template.Prelude.{
  ℕ, String, Bool, true, false, Option, none, some, List, [], ◌∷◌, Dict, lookup,
}
use fastapi_claude_template.Exec.{Exec, pure, ◌>>=◌}
use fastapi_claude_template.World.{World}
use fastapi_claude_template.Auth.{TokensExpire}
use fastapi_claude_template.Db.{RoleName}
use fastapi_claude_template.Guard.{authorize}
use fastapi_claude_template.UseCases.{Env, RegisterRequest, UserResult, RoleResult}
use fastapi_claude_template.UseCases.Register.{register}
use fastapi_claude_template.UseCases.Confirm.{confirm}
use fastapi_claude_template.UseCases.Login
use fastapi_claude_template.UseCases.Logout.{logout}
use fastapi_claude_template.UseCases.Refresh.{refresh_token}
use fastapi_claude_template.UseCases.Users.{
  Field, unset, UpdateUserRequest, OffsetPagination, OffsetResult, map_result, select_user,
  select_many_users, update_user,
}

-- `response.set_cookie`, and `response.delete_cookie`
pub data Cookie : Type 0 where
  set_cookie :
      (name value : String) (expires : ℕ) (httponly secure : Bool) (samesite : String) → Cookie
  delete_cookie : String → Cookie

pub record OkResponse (A : Type 0) : Type 0 where
  pub body : A
  pub cookies : List Cookie

abbrev ok_response : {A : Type 0} → A → OkResponse A
ok_response body = record { body = body; cookies = [] }

-- contracts/user.py
pub record UserContract : Type 0 where
  pub uuid : String
  pub login : String
  pub active : Bool
  pub role : Option RoleResult

unfoldable pub model_validate : UserResult → UserContract
model_validate r = record { uuid = r.uuid; login = r.login; active = r.active; role = r.role }

pub record AdminUpdateUser : Type 0 where
  pub password : Field String
  pub role_uuid : Field String
  pub active : Field Bool

-- `OkResponse(contracts.Token(...))` and the cookie, which three endpoints set alike
unfoldable pub token_response : Bool → TokensExpire → OkResponse String
token_response production result = record {
  body = result.tokens.access;
  cookies =
      set_cookie "refresh_token" result.tokens.refresh result.refresh_expire true production "lax"
      ∷ [];
}

abbrev or_empty : Option String → String
or_empty none = ""
or_empty (some c) = c

-- `request.cookies.get("refresh_token", "")`
abbrev pub refresh_cookie : Dict String → String
refresh_cookie cookies = or_empty (lookup "refresh_token" cookies)

module _ {C D : Type 0} (env : Env C D) where
  -- endpoints/public/auth.py
  unfoldable pub register_endpoint : RegisterRequest → Exec (World C D) (OkResponse Bool)
  register_endpoint body = do status ← register env body; pure (ok_response status)

  module _ (production : Bool) where
    unfoldable pub confirm_register_endpoint : String → Exec (World C D) (OkResponse String)
    unfolding token_response
    confirm_register_endpoint code = do
      result ← confirm env code
      pure (token_response production result)

    unfoldable pub login_endpoint : RegisterRequest → Exec (World C D) (OkResponse String)
    unfolding token_response
    login_endpoint body = do result ← Login.login env body; pure (token_response production result)

    unfoldable pub refresh_endpoint : String → Dict String → Exec (World C D) (OkResponse String)
    unfolding token_response lookup
    refresh_endpoint fingerprint cookies = do
      result ← refresh_token env fingerprint (refresh_cookie cookies)
      pure (token_response production result)

  module _ (scheme_param : Option String → String × String) where
    -- endpoints/user/auth.py
    unfoldable pub logout_endpoint :
        Option String → Dict String → Exec (World C D) (OkResponse Bool)
    unfolding lookup
    logout_endpoint header cookies = do
      user ← authorize scheme_param env [] header
      status ← logout env user.uuid (refresh_cookie cookies)
      pure (record { body = status; cookies = delete_cookie "refresh_token" ∷ [] })

    -- endpoints/user/me.py
    unfoldable pub get_me_endpoint : Option String → Exec (World C D) (OkResponse UserContract)
    unfolding model_validate
    get_me_endpoint header = do
      user ← authorize scheme_param env [] header
      result ← select_user env ("role" ∷ []) (some user.uuid) none
      pure (ok_response (model_validate result))

    unfoldable pub update_self_endpoint :
        Field String → Option String → Exec (World C D) (OkResponse UserContract)
    unfolding model_validate
    update_self_endpoint password header = do
      user ← authorize scheme_param env [] header
      result ←
          update_user env (record {
            user_uuid = user.uuid;
            password = password;
            role_uuid = unset;
            active = unset;
          })
      pure (ok_response (model_validate result))

  -- endpoints/admin/user.py, behind the guard of its router
  unfoldable pub select_users_endpoint :
      Option String
      → Option String
      → OffsetPagination
      → List String
      → Exec (World C D) (OkResponse (OffsetResult UserContract))
  unfolding model_validate
  select_users_endpoint login role_uuid pagination loads = do
    result ← select_many_users env loads login role_uuid pagination
    pure (ok_response (map_result model_validate result))

  unfoldable pub select_user_endpoint :
      String → List String → Exec (World C D) (OkResponse UserContract)
  unfolding model_validate
  select_user_endpoint user_uuid loads = do
    result ← select_user env loads (some user_uuid) none
    pure (ok_response (model_validate result))

  unfoldable pub update_user_endpoint :
      String → AdminUpdateUser → Exec (World C D) (OkResponse UserContract)
  unfolding model_validate
  update_user_endpoint user_uuid body = do
    result ← update_user env (record {
      user_uuid = user_uuid;
      password = body.password;
      role_uuid = body.role_uuid;
      active = body.active;
    })
    pure (ok_response (model_validate result))
