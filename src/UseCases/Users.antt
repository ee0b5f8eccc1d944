-- ===== src/UseCases/Users.antt =====
-- src/application/v1/usecases/user: create, select, select_many and update.
pub mod Laws
use fastapi_claude_template.Prelude.{ℕ, String, Bool, Option, none, some, List, [], ◌∷◌, ◌++◌, map}
use fastapi_claude_template.Exec.{Exec, pure, ◌>>=◌}
use fastapi_claude_template.World.{World, on_db}
use fastapi_claude_template.Db.{User, Values, Value, text, flag, null, OrderBy}
use fastapi_claude_template.Db.Manager.{within, within_session}
use fastapi_claude_template.Db.Result.{result}
use fastapi_claude_template.Db.Users
use fastapi_claude_template.UseCases.{Env, UserResult, user_result, hash_password}
use fastapi_claude_template.UseCases.Login.{find_user}

-- usecases/user/update.py: a field that was not sent, was sent as null, or has a value
pub data Field (A : Type 0) : Type 0 where
  unset : Field A
  sent_null : Field A
  sent : A → Field A

pub record UpdateUserRequest : Type 0 where
  pub user_uuid : String
  pub password : Field String
  pub role_uuid : Field String
  pub active : Field Bool

-- src/application/common/pagination.py
pub record OffsetPagination : Type 0 where
  pub order_by : OrderBy
  pub offset : ℕ
  pub limit : Option ℕ

-- results/base.py
pub record OffsetResult (A : Type 0) : Type 0 where
  pub items : List A
  pub offset : ℕ
  pub limit : Option ℕ
  pub total : ℕ

unfoldable pub map_result : {A B : Type 0} → (A → B) → OffsetResult A → OffsetResult B
map_result fn r = record {
  items = map fn r.items;
  offset = r.offset;
  limit = r.limit;
  total = r.total;
}

-- One field of `model_dump(exclude_unset=True)`
abbrev pub dump_field : {A : Type 0} → String → (A → Value) → Field A → Values
dump_field name value unset = []
dump_field name value sent_null = (name, null) ∷ []
dump_field name value (sent a) = (name, value a) ∷ []

module _ {C D : Type 0} (env : Env C D) where
  unfoldable pub create_user : String → String → String → Exec (World C D) UserResult
  create_user login password role_uuid = within env.session do
    hashed ← hash_password env password
    created ← on_db (
        Users.create env.session
          (("login", text login) ∷ ("password", text hashed) ∷ ("role_uuid", text role_uuid) ∷ []))
    user ← result created
    pure (user_result user)

  unfoldable pub select_user :
      List String → Option String → Option String → Exec (World C D) UserResult
  select_user loads user_uuid login =
      within_session env.session
        do user ← find_user env loads user_uuid login; pure (user_result user)

  unfoldable pub select_many_users :
      List String
      → Option String
      → Option String
      → OffsetPagination
      → Exec (World C D) (OffsetResult UserResult)
  select_many_users loads login role_uuid pagination = within_session env.session do
    found ← on_db (
        Users.select_many env.session loads login role_uuid pagination.order_by pagination.offset
          pagination.limit)
    (total, users) ← result found
    pure (record {
      items = map user_result users;
      offset = pagination.offset;
      limit = pagination.limit;
      total = total;
    })

  -- A password that was sent and is not null is hashed.
  unfoldable pub dump_password : Field String → Exec (World C D) Values
  dump_password (sent plain) = do
    hashed ← hash_password env plain
    pure (("password", text hashed) ∷ [])
  dump_password unset = pure []
  dump_password sent_null = pure (("password", null) ∷ [])

  unfoldable pub update_user : UpdateUserRequest → Exec (World C D) UserResult
  update_user request = within env.session do
    password ← dump_password request.password
    let fields =
        password
        ++ dump_field "role_uuid" text request.role_uuid
        ++ dump_field "active" flag request.active
    updated ← on_db (Users.update env.session request.user_uuid fields)
    user ← result updated
    pure (user_result user)
