-- ===== src/Application/Program/Laws.antt =====
-- A request that is sent through the bus has the outcome of its use case.
use fastapi_claude_template.Prelude.{
  String, ◌≡◌, refl, lookup, insert, Option, some, List, map, inl, inr,
}
use fastapi_claude_template.Exec.{ok, pure, ◌>>=◌}
use fastapi_claude_template.Exec.Laws.{run-cases}
use fastapi_claude_template.Db.{RoleName}
use fastapi_claude_template.Guard.{extract_bearer, authorize}
use fastapi_claude_template.World.{World}
use fastapi_claude_template.Bus.{
  Dependency, RequestBus, resolved, register, predict_dependency_or_raise, get_use_case, send,
}
use fastapi_claude_template.Providers.{create_database_factory}
use fastapi_claude_template.UseCases.{Env}
use fastapi_claude_template.Application.{
  request_bus, setup_use_cases, register_use_case, login_use_case, logout_use_case,
  refresh_token_use_case, confirm_register_use_case, permission_use_case, create_user_use_case,
  select_user_use_case, select_many_user_use_case, update_user_use_case,
}
use fastapi_claude_template.Application.Program.{
  Request, Response, Object, type_name, perform, constructors, given, register_request,
  login_request, logout_request, refresh_token_request, confirm_register_request,
  permission_request, create_user_request, select_user_request, select_many_user_request,
  update_user_request, user,
}

module _ {C D T : Type 0} (env : Env C D) (show : Dependency (World C D) Object → String) where
  -- The application's bus is built without an effect, and a request that is sent through it does what
  -- its use case does with it, and nothing else.
  pub send-perform :
      (q : Request) (t : T) (w : World C D)
      → (bus : RequestBus (World C D) Object Request Response) × (request_bus
            (constructors env)
            show
            given
            t
          ≡ (ok bus, t))
        × (send bus (type_name q) q w ≡ perform env q w)
  unfolding request_bus setup_use_cases register predict_dependency_or_raise send get_use_case
      resolved lookup insert create_database_factory register_use_case login_use_case
      logout_use_case refresh_token_use_case confirm_register_use_case permission_use_case
      create_user_use_case select_user_use_case select_many_user_use_case update_user_use_case
  send-perform (register_request r) t w = (_, refl, refl)
  send-perform (login_request r) t w = (_, refl, refl)
  send-perform (logout_request u k) t w = (_, refl, refl)
  send-perform (refresh_token_request f k) t w = (_, refl, refl)
  send-perform (confirm_register_request c) t w = (_, refl, refl)
  send-perform (permission_request ps k) t w = (_, refl, refl)
  send-perform (create_user_request l p r) t w = (_, refl, refl)
  send-perform (select_user_request ls u l) t w = (_, refl, refl)
  send-perform (select_many_user_request ls l r p) t w = (_, refl, refl)
  send-perform (update_user_request r) t w = (_, refl, refl)

module _ {C D : Type 0} (env : Env C D) where
  -- The guard of an endpoint is the permission request sent through a bus that
  -- serves each request by its use case.
  pub send-authorize :
      (scheme_param : Option String → String × String) (roles : List RoleName)
      (header : Option String) (bus : RequestBus (World C D) Object Request Response)
      (w : World C D)
      → ((q : Request) (v : World C D) → send bus (type_name q) q v ≡ perform env q v)
      → (do
        token ← extract_bearer scheme_param header
        send bus "PermissionRequest" (permission_request (map some roles) token))
          w
        ≡ (do u ← authorize scheme_param env roles header; pure (user u)) w
  unfolding authorize perform
  send-authorize scheme_param roles header bus w sends =
      elim (run-cases (extract_bearer scheme_param header w)) [
        | inl (token, v, e) ↦ rw e (sends (permission_request (map some roles) token) v)
        | inr (f, v, e) ↦ rw e refl
      ]
