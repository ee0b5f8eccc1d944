-- ===== src/Tests/UseCases.antt =====
-- The use cases' theorems at concrete inputs.
use fastapi_claude_template.Prelude.{
  ℕ, ◌≡◌, ◌≢◌, ◌⊎◌, refl, sym, ap, String, true, Option, none, some, [], ◌∷◌,
}
use fastapi_claude_template.Errors.{Failure, detailed, forbidden, integrity}
use fastapi_claude_template.Exec.{Result, ok, err, continue, Exec}
use fastapi_claude_template.World.{World}
use fastapi_claude_template.Redis.{is_literal}
use fastapi_claude_template.Redis.Memory.{
  Memory, memory_redis, strings, lists, memory_redis-IsRedis,
}
use fastapi_claude_template.Cache
use fastapi_claude_template.Cache.Laws.{delete-matched}
use fastapi_claude_template.Jwt.{access, CipherSettings}
use fastapi_claude_template.Auth
use fastapi_claude_template.Auth.{TokensExpire}
use fastapi_claude_template.Auth.Sessions.{IsUser}
use fastapi_claude_template.Db.{User, Role, RoleName}
use fastapi_claude_template.Db.Crud
use fastapi_claude_template.Db.Users
use fastapi_claude_template.Db.Roles
use fastapi_claude_template.Db.Manager.{
  within, within, within_session, finish, close_after, commit, rollback, create_transaction,
  close_transaction, leave, leave_raising,
}
use fastapi_claude_template.Db.Manager.Atomic.{within_atomic}
use fastapi_claude_template.Db.Result.{on_integrity, result, violated, exception_map}
use fastapi_claude_template.Db.Result.Laws.{on_integrity_lem, Reported}
use fastapi_claude_template.Guard.{authorize, extract_bearer, is_bearer}
use fastapi_claude_template.Guard.Laws.{authorize_sound, is_one_of}
use fastapi_claude_template.Keys.{default_cache_key_builder}
use fastapi_claude_template.UseCases.{
  Env, UserResult, user_result, RegisterRequest, matched, hash_password, verify_password,
}
use fastapi_claude_template.UseCases.Register.{login_taken, register}
use fastapi_claude_template.UseCases.Confirm
use fastapi_claude_template.UseCases.Confirm.{invalid_code, confirm}
use fastapi_claude_template.UseCases.Confirm.Laws.{
  spent, open_account, confirm_once, confirm-register,
}
use fastapi_claude_template.UseCases.Login
use fastapi_claude_template.UseCases.Login.{find_user}
use fastapi_claude_template.UseCases.Login.Laws.{found, login_sound}
use fastapi_claude_template.UseCases.Permission.{permission, check_role}
use fastapi_claude_template.UseCases.Users.{
  create_user, update_user, dump_password, UpdateUserRequest, unset, sent,
}
use fastapi_claude_template.UseCases.Users.Laws.{update_user-hashed, sent_update}
use fastapi_claude_template.Endpoints.{OkResponse, login_endpoint, refresh_endpoint}
use fastapi_claude_template.Endpoints.Laws.{refresh_endpoint-login_endpoint, handed_out, stored}
use fastapi_claude_template.Tests.Codec.{ciphers}
use fastapi_claude_template.Tests.Rows.{Rows, rows_session, rows_session-IsTransactional}
use fastapi_claude_template.Tests.Env.{
  deps, env, ann, ann_request, start, fresh, value, no_tokens, engine,
}

unfoldable pub program : Unit {0}
unfolding engine Crud.insert Crud.select Crud.update Crud.delete Crud.exists Crud.count Users.create
    Users.select Users.update Users.exists Roles.select within within_session finish close_after
    commit rollback create_transaction close_transaction leave leave_raising on_integrity result
    violated exception_map default_cache_key_builder user_result hash_password verify_password
    login_taken register Confirm.create_user confirm find_user Login.login permission check_role
    create_user update_user dump_password authorize extract_bearer is_bearer
program = tt

-- A registration, and what the check of the login leaves
abbrev checked : World Memory Rows
checked = (login_taken env "ann" fresh).1

abbrev registered : World Memory Rows
registered = (register env ann_request fresh).1

confirm_once_example :
    (r : Result User) × (v : World Memory Rows) × (open_account env memory_redis-IsRedis ann_request
        (spent env memory_redis-IsRedis "s" registered)
      ≡ (r, v))
    × (confirm env "s" registered ≡ continue (λ user. Auth.login deps "fp" user.uuid) (r, v))
    × (confirm env "s" v ≡ (err invalid_code, v))
unfolding program
confirm_once_example =
    confirm_once env memory_redis-IsRedis "s" "ann" ann_request registered refl refl refl refl refl

confirm-register_example :
    confirm env "s" registered
    ≡ continue
        (λ user. Auth.login deps "fp" user.uuid)
        (open_account env memory_redis-IsRedis ann_request
          (spent env memory_redis-IsRedis "s" registered))
unfolding program
confirm-register_example =
    confirm-register env memory_redis-IsRedis ann_request fresh checked refl refl refl

-- Ann's login, and one with a wrong password
abbrev logged : TokensExpire
logged = value no_tokens (Login.login env ann_request start).0

abbrev after_login : World Memory Rows
after_login = (Login.login env ann_request start).1

abbrev wrong_request : RegisterRequest
wrong_request = record { login = "ann"; password = "wrong horse"; fingerprint = "fp" }

login_sound_example :
    (user : User) × (v : World Memory Rows) × (found env ann_request start ≡ (ok user, v))
    × (user.active ≡ true)
    × (env.verify user.password "correct horse" ≡ matched)
    × (Auth.login deps "fp" user.uuid v ≡ (ok logged, after_login))
unfolding program
login_sound_example = login_sound env ann_request start logged after_login refl

found-IsUser :
    (user : User) (v : World Memory Rows)
    → found env wrong_request start ≡ (ok user, v)
    → IsUser deps memory_redis-IsRedis user.uuid v
unfolding program
found-IsUser user v e = record {
  literal = ap (λ p. is_literal (value ann p.0).uuid) (sym e);
  no_string = ap (λ p. strings p.1.cache (value ann p.0).uuid) (sym e);
}

-- The refresh with the token of that login
abbrev renewed : TokensExpire
renewed = value no_tokens (Auth.verify_refresh deps "fp" logged.tokens.refresh after_login).0

abbrev after_refresh : World Memory Rows
after_refresh = (Auth.verify_refresh deps "fp" logged.tokens.refresh after_login).1

refresh_endpoint-login_endpoint_example :
    (r : OkResponse String) × (login_endpoint env true ann_request start ≡ (ok r, after_login))
    × (r ≡ handed_out env true logged)
    × (refresh_endpoint env true "fp" (stored r.cookies (("theme", "dark") ∷ [])) after_login
        ≡ (ok (handed_out env true renewed), after_refresh))
unfolding program
refresh_endpoint-login_endpoint_example =
    refresh_endpoint-login_endpoint env true ann_request "fp" (("theme", "dark") ∷ []) start
      after_login after_refresh logged renewed refl refl refl

-- A request with the access token of that login
abbrev token : String
token = logged.tokens.access

abbrev shown : UserResult
unfolding program
shown = user_result ann

abbrev permitted : World Memory Rows
permitted = (permission env (some RoleName.user ∷ []) token after_login).1

abbrev bearer : Option String → String × String
bearer header = ("Bearer", token)

authorize_sound_example :
    (tok u : String) × (v : World Memory Rows) × (user : User) × (role : Role) × (is_bearer "Bearer"
      ≡ true)
    × (token ≡ tok)
    × (Auth.verify_token deps tok access after_login ≡ (ok u, v))
    × ((find_user env ("role" ∷ []) (some u) none v).0 ≡ ok user)
    × (user.active ≡ true)
    × (user.role ≡ some role)
    × (is_one_of (RoleName.user ∷ []) role ≡ true)
    × (shown ≡ user_result user)
unfolding program shown
authorize_sound_example =
    authorize_sound bearer env RoleName.user [] (some "Bearer x") after_login permitted shown refl

-- Ann's login is taken, so a second account with it is refused.
abbrev clash : World Memory Rows
clash = (create_user env "ann" "correct horse" "r1" start).1

-- A block that writes and raises, and one that writes and returns
abbrev write : World Memory Rows → World Memory Rows
write w = record w { db = record w.db { seen = [] } }

abbrev failing : Exec (World Memory Rows) ℕ
failing w = (err (detailed forbidden "No"), write w)

abbrev returning : Exec (World Memory Rows) ℕ
returning w = (ok 7, write w)

within_atomic_example : (within rows_session failing start).1.db.stored ≡ start.db.stored
unfolding program
within_atomic_example =
    within_atomic rows_session rows_session-IsTransactional failing start
      (within rows_session failing start).1 (detailed forbidden "No") (λ d. refl) (λ w. refl) refl

abbrev joined : World Memory Rows
joined = record start { db = record start.db { open_ = true } }

-- A statement that violates the constraint of `login`
abbrev violating : Exec Rows ℕ
violating d = (err (integrity "ix_user_login"), d)

on_integrity_lem_example :
    ((a : ℕ) × (s' : Rows) × (violating start.db ≡ (ok a, s'))
      × (on_integrity ("login" ∷ []) violating start.db ≡ (ok a, s')))
    ⊎ ((origin : String) × (f : Failure) × (s' : Rows) × (violating start.db
          ≡ (err (integrity origin), s'))
        × (on_integrity ("login" ∷ []) violating start.db ≡ (err f, s'))
        × Reported ("login" ∷ []) origin f)
    ⊎ ((f : Failure) × (s' : Rows) × (violating start.db ≡ (err f, s'))
        × ((o : String) → f ≢ integrity o)
        × (on_integrity ("login" ∷ []) violating start.db ≡ (err f, s')))
on_integrity_lem_example = on_integrity_lem ("login" ∷ []) violating start.db

delete-matched_example :
    ((Cache.delete memory_redis ("*" ∷ []) registered.cache).0 ≡ ok tt)
    × (strings (Cache.delete memory_redis ("*" ∷ []) registered.cache).1 "code:s" ≡ none)
    × (lists (Cache.delete memory_redis ("*" ∷ []) registered.cache).1 "code:s" ≡ [])
unfolding program
delete-matched_example =
    delete-matched memory_redis memory_redis-IsRedis ("*" ∷ []) registered.cache "code:s"

-- The settings' defaults
abbrev unset_ciphers : CipherSettings
unset_ciphers = record ciphers { access_token_expire_seconds = 0; refresh_token_expire_seconds = 0 }

abbrev unset_deps : Auth.Deps Memory
unset_deps = record deps { ciphers = unset_ciphers }

-- An update of a user that does not exist
abbrev unknown : UpdateUserRequest
unknown = record {
  user_uuid = "zz";
  password = sent "new password";
  role_uuid = unset;
  active = unset;
}

-- A hasher that looks at no more than the salt
abbrev careless : Env Memory Rows
careless = record env { hash = λ salt plain. salt }

update_user-hashed_example :
    (update_user careless unknown start
      ≡ within careless.session (sent_update careless unknown) start)
    × (update_user careless (record unknown { password = sent "one" }) start
        ≡ update_user careless (record unknown { password = sent "two" }) start)
update_user-hashed_example = update_user-hashed careless unknown "one" "two" start (λ salt. refl)
