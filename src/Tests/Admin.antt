-- ===== src/Tests/Admin.antt =====
-- The theorems on the routes, over routers that keep what they are given, and an administrator.
use fastapi_claude_template.Prelude.{
  String, ◌≡◌, refl, true, Option, none, some, List, [], ◌∷◌, ◌++◌, map, ◌⊎◌, inl, inr,
}
use text.Mathlib.Text.{starts_with}
use fastapi_claude_template.Exec.{ok, Exec, pure}
use fastapi_claude_template.World.{World}
use fastapi_claude_template.Redis.Memory.{Memory, empty_memory}
use fastapi_claude_template.Jwt.{access}
use fastapi_claude_template.Auth
use fastapi_claude_template.Auth.{TokensExpire}
use fastapi_claude_template.Db.{RoleName, Role, User}
use fastapi_claude_template.UseCases.Login
use fastapi_claude_template.UseCases.Login.{find_user}
use fastapi_claude_template.Guard.{is_bearer, authorize}
use fastapi_claude_template.Routing.{
  Route, Guard, Routers, IsFastapi, under, setup_v1_routers, run_guards, update_user, documentation,
  get, patch,
}
use fastapi_claude_template.Routing.Laws.{
  setup_v1_routers_lem, guards_of, parameters_of, In, is_for_admins, admin_sound,
}
use fastapi_claude_template.Tests.Rows.{Rows}
use fastapi_claude_template.Tests.Env.{deps, env, ann, ann_request, world_of, value, no_tokens}
use fastapi_claude_template.Tests.UseCases.{program}

record Router : Type 0 where
  prefix : String
  dependencies : List Guard
  routes : List Route

abbrev routers : Routers Router
routers = record {
  router = λ p ds. record { prefix = p; dependencies = ds; routes = [] };
  add_route = λ x r. record r { routes = r.routes ++ under r.prefix r.dependencies x ∷ [] };
  include_router =
      λ other r. record r { routes = r.routes ++ map (under r.prefix r.dependencies) other.routes };
}

abbrev routers-IsFastapi : IsFastapi routers
routers-IsFastapi = record {
  prefix = λ r. r.prefix;
  dependencies = λ r. r.dependencies;
  routes = λ r. r.routes;
  router_lem = λ p ds. (refl, refl, refl);
  add_route_lem = λ x r. (refl, refl, refl);
  include_router_lem = λ other r. (refl, refl, refl);
}

abbrev docs : Route
docs = record {
  method = get;
  path = "/docs";
  dependencies = [];
  parameters = [];
  endpoint = documentation;
}

abbrev app : Router
app = record { prefix = ""; dependencies = []; routes = docs ∷ [] }

abbrev update_route : Route
update_route = record {
  method = patch;
  path = "/v1/admin/users/{user_uuid}";
  dependencies = (RoleName.admin ∷ []) ∷ [];
  parameters = [];
  endpoint = update_user;
}

setup_v1_routers_lem_example :
    In update_route (docs ∷ [])
    ⊎ ((starts_with "/v1/admin/users/{user_uuid}" "/v1/" ≡ true)
        × ((RoleName.admin ∷ []) ∷ [] ≡ guards_of update_user)
        × ([] ≡ parameters_of update_user)
        × (starts_with "/v1/admin/users/{user_uuid}" "/v1/admin" ≡ is_for_admins update_user))
unfolding setup_v1_routers
setup_v1_routers_lem_example =
    setup_v1_routers_lem routers routers-IsFastapi app update_route refl refl
      (inr (inr (inr (inr (inr (inr (inr (inr (inr (inr (inr (inl refl))))))))))))

abbrev boss : User
boss = record ann { role = some (record { uuid = "r0"; name = RoleName.admin }) }

abbrev begin : World Memory Rows
begin = world_of empty_memory (boss ∷ [])

abbrev logged : TokensExpire
logged = value no_tokens (Login.login env ann_request begin).0

abbrev after_login : World Memory Rows
after_login = (Login.login env ann_request begin).1

abbrev bearer : Option String → String × String
bearer header = ("Bearer", logged.tokens.access)

abbrev answer : Exec (World Memory Rows) String
answer = pure "done"

abbrev served : World Memory Rows
served =
    (run_guards (λ roles. authorize bearer env roles (some "Bearer x")) update_route.dependencies
      after_login).1

admin_sound_example :
    (tok u : String) × (v : World Memory Rows) × (user : User) × (role : Role) × (is_bearer "Bearer"
      ≡ true)
    × (logged.tokens.access ≡ tok)
    × (Auth.verify_token deps tok access after_login ≡ (ok u, v))
    × ((find_user env ("role" ∷ []) (some u) none v).0 ≡ ok user)
    × (user.active ≡ true)
    × (user.role ≡ some role)
    × (role.name ≡ RoleName.admin)
unfolding program setup_v1_routers run_guards
admin_sound_example =
    admin_sound routers routers-IsFastapi env bearer app update_route (some "Bearer x") answer
      after_login served "done" refl refl (refl, tt)
      (inr (inr (inr (inr (inr (inr (inr (inr (inr (inr (inr (inl refl)))))))))))) refl refl
