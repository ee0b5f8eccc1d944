-- ===== src/Routing/Laws.antt =====
-- Which routes the application serves, and who gets past their guards.
use text.Mathlib.Text.{starts_with}
use fastapi_claude_template.Prelude.{
  String, ◌≡◌, refl, sym, ◌∙◌, subst, Bool, true, false, ◌||◌, Option, List, [], ◌∷◌, ◌++◌, map,
  ◌⊎◌, inl, inr, ◌==◌, some, none, All, if◌then◌else◌,
}
use fastapi_claude_template.Exec.{ok, Exec, ◌>>◌}
use fastapi_claude_template.Exec.Laws.{bind-eq-ok, run-cases}
use fastapi_claude_template.World.{World}
use fastapi_claude_template.Jwt.{access}
use fastapi_claude_template.Auth
use fastapi_claude_template.Db.{RoleName, admin, role_text, Role, User}
use fastapi_claude_template.UseCases.{Env}
use fastapi_claude_template.UseCases.Login.{find_user}
use fastapi_claude_template.Guard.{is_bearer, authorize}
use fastapi_claude_template.Guard.Laws.{authorize_sound}
use fastapi_claude_template.Routing.{
  Route, Endpoint, healthcheck, register, confirm_register, login, refresh, Guard, Routers,
  IsFastapi, under, run_guards, setup_v1_routers, setup_public_router, setup_user_router,
  setup_admin_router, setup_internal_router, healthcheck_router, public_auth_router, user_me_router,
  user_auth_router, admin_user_router, route, user_route, documentation, get, post, patch, logout,
  get_me, update_self, select_users, select_user, update_user,
}

abbrev pub In : {A : Type 0} → A → List A → Type 0
In x [] = ⊥
In x (y ∷ ys) = (x ≡ y) ⊎ In x ys

All-In : (P : Route → Type 0) (x : Route) (xs : List Route) → All P xs → In x xs → P x
All-In P x [] h i = absurd i
All-In P x (y ∷ ys) h (inl e) = subst P (sym e) h.0
All-In P x (y ∷ ys) h (inr i) = All-In P x ys h.1 i

In-append : {A : Type 0} (x : A) (xs ys : List A) → In x (xs ++ ys) → In x xs ⊎ In x ys
In-append x [] ys i = inr i
In-append x (z ∷ xs) ys (inl e) = inl (inl e)
In-append x (z ∷ xs) ys (inr i) = elim (In-append x xs ys i) [
  | inl there ↦ inl (inr there)
  | inr later ↦ inr later
]

-- What anyone may call
abbrev pub is_public : Endpoint → Bool
is_public healthcheck = true
is_public register = true
is_public confirm_register = true
is_public login = true
is_public refresh = true
is_public documentation = true
is_public _ = false

-- Whose function asks for the user itself
abbrev pub parameters_of : Endpoint → List Guard
parameters_of get_me = [] ∷ []
parameters_of update_self = [] ∷ []
parameters_of logout = [] ∷ []
parameters_of _ = []

abbrev pub is_for_admins : Endpoint → Bool
is_for_admins select_users = true
is_for_admins select_user = true
is_for_admins update_user = true
is_for_admins _ = false

-- The guards that an endpoint stands behind
abbrev pub guards_of : Endpoint → List Guard
guards_of endpoint =
    if is_public endpoint then [] else if is_for_admins endpoint then (admin ∷ []) ∷ [] else [] ∷ []

admin_named :
    (name : RoleName) → ((role_text admin == role_text name) || false) ≡ true → name ≡ admin
admin_named admin h = refl
admin_named RoleName.user h = cc

module _ {R : Type 0} (f : Routers R) (l : IsFastapi f) where
  open l use {prefix, dependencies, routes}

  -- A router with all that it serves
  record Is (r : R) (p : String) (ds : List Guard) (xs : List Route) : Type 0 where
    has_prefix : prefix r ≡ p
    has_dependencies : dependencies r ≡ ds
    has_routes : routes r ≡ xs

  made : (p : String) (ds : List Guard) → Is (f.router p ds) p ds []
  made p ds = record {
    has_prefix = (l.router_lem p ds).0;
    has_dependencies = (l.router_lem p ds).1;
    has_routes = (l.router_lem p ds).2;
  }

  added :
      (x : Route) {r : R} {p : String} {ds : List Guard} {xs : List Route}
      → Is r p ds xs
      → Is (f.add_route x r) p ds (xs ++ under p ds x ∷ [])
  added x {r} h = record {
    has_prefix = (l.add_route_lem x r).0 ∙ h.has_prefix;
    has_dependencies = (l.add_route_lem x r).1 ∙ h.has_dependencies;
    has_routes = (l.add_route_lem x r).2 ∙ rw (h.has_prefix, h.has_dependencies, h.has_routes) refl;
  }

  included :
      {r r' : R} {p p' : String} {ds ds' : List Guard} {xs xs' : List Route}
      → Is r' p' ds' xs'
      → Is r p ds xs
      → Is (f.include_router r' r) p ds (xs ++ map (under p ds) xs')
  included {r} {r'} h' h = record {
    has_prefix = (l.include_router_lem r' r).0 ∙ h.has_prefix;
    has_dependencies = (l.include_router_lem r' r).1 ∙ h.has_dependencies;
    has_routes =
        (l.include_router_lem r' r).2
        ∙ rw (h.has_prefix, h.has_dependencies, h.has_routes, h'.has_routes) refl;
  }

  v1-Is :
      (app : R) (own : List Route)
      → Is app "" [] own
      → (xs : List Route) × Is (setup_v1_routers f app) "" [] (own ++ xs)
  unfolding setup_v1_routers setup_public_router setup_user_router setup_admin_router
      setup_internal_router healthcheck_router public_auth_router user_me_router user_auth_router
      admin_user_router
  v1-Is app own h = (
    _,
    included
        (included (made "/internal" []) (
          included
            (included
              (added (route patch "/{user_uuid}" update_user) (
                added (route get "/{user_uuid}" select_user)
                  (added (route get "" select_users) (made "/users" []))))
              (made "/admin" ((admin ∷ []) ∷ [])))
            (included
              (included (added (user_route post "/logout" logout) (made "/auth" [])) (
                included
                  (added (user_route patch "" update_self)
                    (added (user_route get "" get_me) (made "/users/me" [])))
                  (made "" ([] ∷ []))))
              (included
                (included
                  (added (route post "/refresh" refresh) (
                    added (route post "/login" login) (
                      added (route post "/register/confirm" confirm_register)
                        (added (route post "/register" register) (made "/auth" [])))))
                  (included (added (route get "" healthcheck) (made "/healthcheck" []))
                    (made "" [])))
                (made "/v1" [])))))
        h,
  )

  -- Every route that the set-up adds to those that the application has lies under /v1 and gets from
  -- its routers exactly the guards that its endpoint calls for: none for the health check, the
  -- registration, its confirmation, the login and the refresh, one that names Admin for the three of
  -- the administrators, which are the ones under /v1/admin, and one without roles for the others,
  -- whose functions ask for a second one without roles themselves.
  pub setup_v1_routers_lem :
      (app : R) (x : Route)
      → prefix app ≡ ""
      → dependencies app ≡ []
      → In x (routes (setup_v1_routers f app))
      → In x (routes app)
        ⊎ ((starts_with x.path "/v1/" ≡ true)
            × (x.dependencies ≡ guards_of x.endpoint)
            × (x.parameters ≡ parameters_of x.endpoint)
            × (starts_with x.path "/v1/admin" ≡ is_for_admins x.endpoint))
  unfolding v1-Is
  setup_v1_routers_lem app x no_prefix no_dependencies i =
      let (xs, is) = v1-Is app (routes app) (record {
        has_prefix = no_prefix;
        has_dependencies = no_dependencies;
        has_routes = refl;
      }) in
      elim (In-append x (routes app) xs (subst (In x) is.has_routes i)) [
        | inl own ↦ inl own
        | inr new ↦ inr (
            All-In
              (λ x.
                (starts_with x.path "/v1/" ≡ true)
                × (x.dependencies ≡ guards_of x.endpoint)
                × (x.parameters ≡ parameters_of x.endpoint)
                × (starts_with x.path "/v1/admin" ≡ is_for_admins x.endpoint))
              x xs
              (
                (refl, refl, refl, refl),
                (
                  (refl, refl, refl, refl),
                  (
                    (refl, refl, refl, refl),
                    (
                      (refl, refl, refl, refl),
                      (
                        (refl, refl, refl, refl),
                        (
                          (refl, refl, refl, refl),
                          (
                            (refl, refl, refl, refl),
                            (
                              (refl, refl, refl, refl),
                              (
                                (refl, refl, refl, refl),
                                ((refl, refl, refl, refl), ((refl, refl, refl, refl), tt)),
                              ),
                            ),
                          ),
                        ),
                      ),
                    ),
                  ),
                ),
              )
              new)
      ]

  admin_guards : (e : Endpoint) → is_for_admins e ≡ true → guards_of e ≡ (admin ∷ []) ∷ []
  admin_guards healthcheck h = cc
  admin_guards register h = cc
  admin_guards confirm_register h = cc
  admin_guards login h = cc
  admin_guards refresh h = cc
  admin_guards logout h = cc
  admin_guards get_me h = cc
  admin_guards update_self h = cc
  admin_guards select_users h = refl
  admin_guards select_user h = refl
  admin_guards update_user h = refl
  admin_guards documentation h = cc

  admin_behind :
      (app : R) (x : Route)
      → prefix app ≡ ""
      → dependencies app ≡ []
      → All (λ y. starts_with y.path "/v1/admin" ≡ false) (routes app)
      → In x (routes (setup_v1_routers f app))
      → starts_with x.path "/v1/admin" ≡ true
      → x.dependencies ≡ (admin ∷ []) ∷ []
  admin_behind app x no_prefix no_dependencies outside i under_admin =
      elim (setup_v1_routers_lem app x no_prefix no_dependencies i) [
        | inl own ↦
            let no =
              All-In (λ y. starts_with y.path "/v1/admin" ≡ false) x (routes app) outside own in
            cc
        | inr (_, guarded, _, for_admins) ↦
            guarded ∙ admin_guards x.endpoint (sym for_admins ∙ under_admin)
      ]

  module _ {C D A : Type 0} (env : Env C D) (scheme_param : Option String → String × String) where
    -- When the application had no route under /v1/admin before the set-up, a request to a route under
    -- /v1/admin that is answered carries, as a bearer, an access token that
    -- the session service verifies, of a user that the database returned for the token's UUID, who
    -- is active and an administrator.
    pub admin_sound :
        (app : R) (x : Route) (header : Option String) (handler : Exec (World C D) A)
        (w w' : World C D) (a : A)
        → prefix app ≡ ""
        → dependencies app ≡ []
        → All (λ y. starts_with y.path "/v1/admin" ≡ false) (routes app)
        → In x (routes (setup_v1_routers f app))
        → starts_with x.path "/v1/admin" ≡ true
        → (run_guards (λ roles. authorize scheme_param env roles header) x.dependencies >> handler)
            w
          ≡ (ok a, w')
        → (token u : String) × (v : World C D) × (user : User) × (role : Role) × (is_bearer
              (scheme_param header).0
            ≡ true)
          × ((scheme_param header).1 ≡ token)
          × (Auth.verify_token env.auth token access w ≡ (ok u, v))
          × ((find_user env ("role" ∷ []) (some u) none v).0 ≡ ok user)
          × (user.active ≡ true)
          × (user.role ≡ some role)
          × (role.name ≡ admin)
    unfolding run_guards
    admin_sound app x header handler w w' a no_prefix no_dependencies outside i under_admin h =
        let behind = admin_behind app x no_prefix no_dependencies outside i under_admin in
        let (_, guards, _) =
          bind-eq-ok (run_guards (λ roles. authorize scheme_param env roles header) x.dependencies)
            (λ _. handler) w h in
        let run = run_guards (λ roles. authorize scheme_param env roles header) in
        let passed : (run ((admin ∷ []) ∷ []) w).0 ≡ ok tt =
          subst (λ ds. (run ds w).0 ≡ ok tt) behind guards in
        elim (run-cases (authorize scheme_param env (admin ∷ []) header w)) [
          | inr (e, v, refused) ↦ cc (rw refused at passed)
          | inl (r, v, let_in) ↦
              let (
                token, u, v', user, role, bearer, shown, verified, found, active, loaded, named, _,
              ) =
                authorize_sound scheme_param env admin [] header w v r let_in in
              (
                token,
                u,
                v',
                user,
                role,
                bearer,
                shown,
                verified,
                found,
                active,
                loaded,
                admin_named role.name named,
              )
        ]
