-- ===== src/UseCases/Cache.antt =====
-- Which parts of the use cases leave the cache alone.
use fastapi_claude_template.Prelude.{
  String, ◌≡◌, refl, ◌∙◌, Bool, Option, none, some, List, [], ◌∷◌, arith,
}
use fastapi_claude_template.Exec.{Result, ok, err, Exec, continue, ◌>>=◌}
use fastapi_claude_template.World.{World, on_db}
use fastapi_claude_template.Db.{Session, User, Role, RoleName, text}
use fastapi_claude_template.Db.Users
use fastapi_claude_template.Db.Roles
use fastapi_claude_template.Db.Result.{result, RepositoryResult}
use fastapi_claude_template.Db.Manager.{
  within, within_session, finish, close_after, create_transaction,
}
use fastapi_claude_template.UseCases.{Env, RegisterRequest, hash_password}
use fastapi_claude_template.UseCases.Login.{find_user}
use fastapi_claude_template.UseCases.Register.{login_taken}
use fastapi_claude_template.UseCases.Confirm.{create_user}

module _ {C D : Type 0} where
  abbrev pub KeepsCache : {A : Type 0} → Exec (World C D) A → Type 0
  KeepsCache m = (w : World C D) → (m w).1.cache ≡ w.cache

  module _ {A B : Type 0} where
    continue-cache :
        (f : A → Exec (World C D) B)
        → ((a : A) → KeepsCache (f a))
        → (r : Result A) (w : World C D) → (continue f (r, w)).1.cache ≡ w.cache
    continue-cache f keeps (ok a) w = keeps a w
    continue-cache f keeps (err e) w = refl

    pub bind-KeepsCache :
        (m : Exec (World C D) A) (f : A → Exec (World C D) B)
        → KeepsCache m
        → ((a : A) → KeepsCache (f a))
        → KeepsCache (m >>= f)
    bind-KeepsCache m f first rest w = continue-cache f rest (m w).0 (m w).1 ∙ first w

  module _ {A : Type 0} (session : Session D) (body : Exec (World C D) A)
      (keeps : KeepsCache body) where
    close_after-cache : (r : Result A) → KeepsCache (close_after session r)
    unfolding close_after
    close_after-cache (ok a) w = ground arith
    close_after-cache (err e) w = ground arith

    pub within_session-KeepsCache : KeepsCache (within_session session body)
    unfolding within_session
    within_session-KeepsCache w = close_after-cache (body w).0 (body w).1 ∙ keeps w

    finish-cache : (t : Bool) (r : Result A) → KeepsCache (finish session t r)
    unfolding finish
    finish-cache t (ok a) w = ground arith
    finish-cache t (err e) w = ground arith

    pub within-KeepsCache : KeepsCache (within session body)
    unfolding within
    within-KeepsCache =
        bind-KeepsCache (on_db (create_transaction session)) _ (λ w. refl)
          λ t w. finish-cache t (body w).0 (body w).1 ∙ keeps w

  result-KeepsCache : {A : Type 0} (r : RepositoryResult A) → KeepsCache (result r)
  unfolding result
  result-KeepsCache r w = ground arith

  module _ (env : Env C D) where
    pub find_user-KeepsCache :
        (loads : List String) (user_uuid login : Option String)
        → KeepsCache (find_user env loads user_uuid login)
    unfolding find_user
    find_user-KeepsCache loads user_uuid login =
        bind-KeepsCache (on_db (Users.select env.session loads user_uuid login)) _ (λ w. refl)
          λ found. result-KeepsCache found

    pub login_taken-KeepsCache : (login : String) → KeepsCache (login_taken env login)
    unfolding login_taken
    login_taken-KeepsCache login = within_session-KeepsCache env.session _ (
        bind-KeepsCache (on_db (Users.exists env.session login)) _ (λ w. refl)
          λ found. result-KeepsCache found)

    abbrev store_user : RegisterRequest → Role → String → Exec D (RepositoryResult User)
    store_user request role hashed = Users.create env.session (
        ("login", text request.login)
        ∷ ("password", text hashed)
        ∷ ("role_uuid", text role.uuid)
        ∷ [])

    pub create_user-KeepsCache : (request : RegisterRequest) → KeepsCache (create_user env request)
    unfolding create_user hash_password
    create_user-KeepsCache request =
        bind-KeepsCache {B = User} (on_db (Roles.select env.session [] none (some RoleName.user)))
          (λ found. result found >>= λ role. hash_password env request.password >>= λ hashed.
            on_db (store_user request role hashed) >>= λ created. result created)
          (λ w. refl)
          λ found.
            bind-KeepsCache {A = Role} {B = User} (result found)
              (λ role. hash_password env request.password >>= λ hashed.
                on_db (store_user request role hashed) >>= λ created. result created)
              (result-KeepsCache found)
              λ role.
                bind-KeepsCache {B = User} (hash_password env request.password)
                  (λ hashed. on_db (store_user request role hashed) >>= λ created. result created)
                  (λ w. refl)
                  λ hashed.
                    bind-KeepsCache {B = User} (on_db (store_user request role hashed))
                      (λ created. result created) (λ w. refl)
                      λ created. result-KeepsCache {A = User} created
