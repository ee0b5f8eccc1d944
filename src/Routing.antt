-- ===== src/Routing.antt =====
-- src/presentation/http/v1/endpoints: the routers, which endpoint each route calls and behind which
-- guards. FastAPI's routers are a parameter; `IsFastapi` states what its documentation says of a
-- prefix, of the dependencies of a router and of including one router in another.
pub mod Laws
use fastapi_claude_template.Prelude.{
  String, ◌≡◌, Bool, true, false, List, [], ◌∷◌, ◌++◌, map, ◌<>◌, Option,
}
use fastapi_claude_template.Exec.{ok, Exec, pure, ◌>>=◌, ◌>>◌}
use fastapi_claude_template.Db.{RoleName, admin}

pub data Method : Type 0 where
  get post patch : Method

-- The functions that the routes are decorators of
pub data Endpoint : Type 0 where
  healthcheck register confirm_register login refresh logout : Endpoint
  get_me update_self select_users select_user update_user : Endpoint
  -- a page that FastAPI itself adds, as those of the documentation
  documentation : Endpoint

-- A dependency `Require(Authorization(*roles))`, by its roles
abbrev pub Guard : Type 0
Guard = List RoleName

pub record Route : Type 0 where
  pub method : Method
  pub path : String
  pub dependencies : List Guard
  -- the guards that the endpoint's function has among its parameters
  pub parameters : List Guard
  pub endpoint : Endpoint

-- `@router.get(path)`
abbrev pub route : Method → String → Endpoint → Route
route method path endpoint = record {
  method = method;
  path = path;
  dependencies = [];
  parameters = [];
  endpoint = endpoint;
}

-- The same for a function with the parameter `user: Annotated[UserResult, Require(Authorization())]`
abbrev pub user_route : Method → String → Endpoint → Route
user_route method path endpoint = record (route method path endpoint) { parameters = [] ∷ [] }

pub record Routers (R : Type 0) : Type 0 where
  -- `APIRouter(prefix=…, dependencies=…)`
  pub router : String → List Guard → R
  pub add_route : Route → R → R
  -- `router.include_router(other)`
  pub include_router : R → R → R

-- A route under the prefix and behind the dependencies of a router
abbrev pub under : String → List Guard → Route → Route
under prefix guards x = record x {
  path = prefix <> x.path;
  dependencies = guards ++ x.dependencies;
}

pub record IsFastapi {R : Type 0} (f : Routers R) : Type 0 where
  pub prefix : R → String
  pub dependencies : R → List Guard
  pub routes : R → List Route
  pub router_lem :
      (p : String) (ds : List Guard)
      → (prefix (f.router p ds) ≡ p)
        × (dependencies (f.router p ds) ≡ ds)
        × (routes (f.router p ds) ≡ [])
  pub add_route_lem :
      (x : Route) (r : R)
      → (prefix (f.add_route x r) ≡ prefix r)
        × (dependencies (f.add_route x r) ≡ dependencies r)
        × (routes (f.add_route x r) ≡ routes r ++ under (prefix r) (dependencies r) x ∷ [])
  pub include_router_lem :
      (other r : R)
      → (prefix (f.include_router other r) ≡ prefix r)
        × (dependencies (f.include_router other r) ≡ dependencies r)
        × (routes (f.include_router other r)
            ≡ routes r ++ map (under (prefix r) (dependencies r)) (routes other))

-- The dependencies of a route, one after another
module _ {S A : Type 0} (authorize : Guard → Exec S A) where
  unfoldable pub run_guards : List Guard → Exec S (Unit {0})
  run_guards [] = pure tt
  run_guards (guard ∷ guards) = do authorize guard; run_guards guards

module _ {R : Type 0} (f : Routers R) where
  open f use {router, add_route, include_router}

  -- public/healthcheck.py, public/auth.py
  unfoldable pub healthcheck_router : R
  healthcheck_router = add_route (route get "" healthcheck) (router "/healthcheck" [])

  unfoldable pub public_auth_router : R
  public_auth_router = add_route (route post "/refresh" refresh) (
      add_route (route post "/login" login) (
        add_route (route post "/register/confirm" confirm_register)
          (add_route (route post "/register" register) (router "/auth" []))))

  unfoldable pub setup_public_router : R
  unfolding healthcheck_router public_auth_router
  setup_public_router =
      include_router public_auth_router (include_router healthcheck_router (router "" []))

  -- user/me.py, user/auth.py
  unfoldable pub user_me_router : R
  user_me_router =
      add_route (user_route patch "" update_self)
        (add_route (user_route get "" get_me) (router "/users/me" []))

  unfoldable pub user_auth_router : R
  user_auth_router = add_route (user_route post "/logout" logout) (router "/auth" [])

  unfoldable pub setup_user_router : R
  unfolding user_me_router user_auth_router
  setup_user_router =
      include_router user_auth_router (include_router user_me_router (router "" ([] ∷ [])))

  -- admin/user.py
  unfoldable pub admin_user_router : R
  admin_user_router = add_route (route patch "/{user_uuid}" update_user) (
      add_route (route get "/{user_uuid}" select_user)
        (add_route (route get "" select_users) (router "/users" [])))

  unfoldable pub setup_admin_router : R
  unfolding admin_user_router
  setup_admin_router = include_router admin_user_router (router "/admin" ((admin ∷ []) ∷ []))

  unfoldable pub setup_internal_router : R
  setup_internal_router = router "/internal" []

  unfoldable pub setup_v1_routers : R → R
  unfolding setup_public_router setup_user_router setup_admin_router setup_internal_router
  setup_v1_routers app =
      include_router
        (include_router setup_internal_router (
          include_router setup_admin_router (
            include_router setup_user_router
              (include_router setup_public_router (router "/v1" [])))))
        app
