-- ===== src/Application/Laws.antt =====
-- Which use case each request reaches, and with what.
use fastapi_claude_template.Prelude.{
  String, ◌≡◌, refl, none, List, [], ◌∷◌, All, Dict, lookup, insert, dict_keys, sym, ap, Bool-cases,
  inl, inr, ◌<>◌, ◌==◌, if◌then◌else◌,
}
use fastapi_claude_template.Errors.{key_error}
use fastapi_claude_template.Exec.{ok, err, Exec, pure, try_except, ◌>>=◌}
use fastapi_claude_template.Bus.{
  Dependency, RequestBus, resolved, register, predict_dependency_or_raise, get_use_case, send,
  not_registered,
}
use fastapi_claude_template.Application.{
  Given, Constructors, request_bus, setup_use_cases, register_use_case, login_use_case,
  logout_use_case, refresh_token_use_case, confirm_register_use_case, permission_use_case,
  create_user_use_case, select_user_use_case, select_many_user_use_case, update_user_use_case,
}

-- The requests, the class of the use case that serves each, and what that class is given
abbrev pub use_cases : Dict (String × List String)
use_cases =
    ("RegisterRequest", ("RegisterUseCase", "database" ∷ "cache" ∷ []))
    ∷ ("LoginRequest", ("LoginUseCase", "services" ∷ "database" ∷ "hasher" ∷ []))
    ∷ ("LogoutRequest", ("LogoutUseCase", "services" ∷ []))
    ∷ ("RefreshTokenRequest", ("RefreshTokenUseCase", "services" ∷ []))
    ∷ (
      "ConfirmRegisterRequest",
      ("ConfirmRegisterUseCase", "services" ∷ "database" ∷ "hasher" ∷ "cache" ∷ []),
    )
    ∷ ("PermissionRequest", ("PermissionUseCase", "services" ∷ "database" ∷ []))
    ∷ ("CreateUserRequest", ("CreateUserUseCase", "database" ∷ "hasher" ∷ []))
    ∷ ("SelectUserRequest", ("SelectUserUseCase", "database" ∷ []))
    ∷ ("SelectManyUserRequest", ("SelectManyUserUseCase", "database" ∷ []))
    ∷ ("UpdateUserRequest", ("UpdateUserUseCase", "database" ∷ "hasher" ∷ []))
    ∷ []

module _ {S V : Type 0} (given : Given S V) where
  -- What is given under a name: a new gateway for the database, the one object for the others
  abbrev pub given_as : String → Exec S V
  given_as name =
      if name == "database"
      then given.database_factory
      else if name == "hasher"
      then pure given.hasher
      else if name == "cache"
      then pure given.cache
      else pure given.services

  abbrev pub arguments : List String → Exec S (Dict V)
  arguments [] = pure []
  arguments (name ∷ names) = do v ← given_as name; vs ← arguments names; pure ((name, v) ∷ vs)

not_found :
    {A B : Type 0} (k : String) (d : Dict A) (e : Dict B)
    → dict_keys d ≡ dict_keys e
    → lookup k d ≡ none
    → lookup k e ≡ none
unfolding lookup dict_keys
not_found k [] [] same h = refl
not_found k [] (x ∷ e) same h = cc
not_found k (x ∷ d) [] same h = cc
not_found k ((i, v) ∷ d) ((j, w) ∷ e) same h = elim (Bool-cases (i == k)) [
  | inl found ↦ cc (rw found at h)
  | inr other ↦
      rw (ap (λ n. n == k) (sym (first_key same)), other)
        (not_found k d e (other_keys same) (rw other at h))
]
  where
    first_key : {i j : String} {is js : List String} → i ∷ is ≡ j ∷ js → i ≡ j
    first_key h = cc

    other_keys : {i j : String} {is js : List String} → i ∷ is ≡ j ∷ js → is ≡ js
    other_keys h = cc

module _ {S V Q R T : Type 0} (c : Constructors S V Q R) (show : Dependency S V → String) where
  built :
      (given : Given S V) (message : Q) (t : T) (s : S)
      → (bus : RequestBus S V Q R) × (request_bus c show given t ≡ (ok bus, t))
        × All
            (λ e.
              send bus e.0 message s
              ≡ (try_except (arguments given e.1.1 >>= c.new e.1.0) (not_registered e.0) >>= λ u.
                    u message)
                  s)
            use_cases
        × (dict_keys use_cases ≡ dict_keys bus.registry)
  unfolding request_bus setup_use_cases register predict_dependency_or_raise send get_use_case
      resolved lookup insert dict_keys register_use_case login_use_case logout_use_case
      refresh_token_use_case confirm_register_use_case permission_use_case create_user_use_case
      select_user_use_case select_many_user_use_case update_user_use_case
  built given message t s = (
    _,
    refl,
    (refl, (refl, (refl, (refl, (refl, (refl, (refl, (refl, (refl, (refl, tt)))))))))),
    refl,
  )

  -- The application's bus is built without an error or an effect. Each of the ten requests makes the
  -- use case of its own class anew, with a new gateway where it takes one and the application's
  -- hasher, cache and services, and is handed to it; a request of any other type is a KeyError.
  pub send-request_bus :
      (given : Given S V) (message : Q) (other : String) (t : T) (s : S)
      → lookup other use_cases ≡ none
      → (bus : RequestBus S V Q R) × (request_bus c show given t ≡ (ok bus, t))
        × All
            (λ e.
              send bus e.0 message s
              ≡ (try_except (arguments given e.1.1 >>= c.new e.1.0) (not_registered e.0) >>= λ u.
                    u message)
                  s)
            use_cases
        × (send bus other message s
            ≡ (err (key_error ("Use case for `" <> other <> "` is not registered")), s))
  unfolding send get_use_case
  send-request_bus given message other t s h =
      let (bus, returned, served, keys) = built given message t s in
      (bus, returned, served, rw (not_found other use_cases bus.registry keys h) refl)
