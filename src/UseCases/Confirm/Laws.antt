-- ===== src/UseCases/Confirm/Laws.antt =====
-- A confirmation spends its code, and gives back the request that was registered.
use fastapi_claude_template.Prelude.{
  String, ◌≡◌, refl, ap, ◌∙◌, true, false, none, some, [], ◌∷◌, arith, eq_refl, is_empty,
}
use fastapi_claude_template.Exec.{Result, ok, err, continue}
use fastapi_claude_template.Redis.{IsRedis, is_literal}
use fastapi_claude_template.Cache
use fastapi_claude_template.Cache.Laws
use fastapi_claude_template.World.{World}
use fastapi_claude_template.Auth
use fastapi_claude_template.Auth.{TokensExpire}
use fastapi_claude_template.Db.{User}
use fastapi_claude_template.Db.Manager.{within}
use fastapi_claude_template.UseCases.{Env, RegisterRequest}
use fastapi_claude_template.UseCases.Cache.{within-KeepsCache, create_user-KeepsCache}
use fastapi_claude_template.UseCases.Register.{code_key, login_taken, register}
use fastapi_claude_template.UseCases.Register.Laws.{register-stores}
use fastapi_claude_template.UseCases.Confirm.{invalid_code, create_user, confirm}

module _ {C D : Type 0} (env : Env C D) (redis : IsRedis env.auth.redis) where
  open redis use {strings, lists}

  -- A code that the cache does not hold is refused, and nothing happens.
  pub confirm-missing :
      (code : String) (w : World C D)
      → strings w.cache (code_key code) ≡ none
      → lists w.cache (code_key code) ≡ []
      → confirm env code w ≡ (err invalid_code, w)
  unfolding confirm Cache.get
  confirm-missing code w missing bare =
      rw (redis.get_lem (code_key code) w.cache bare, missing) refl

  -- The world once the code is deleted
  abbrev pub spent : String → World C D → World C D
  spent code w = record w { cache = (Cache.delete env.auth.redis (code_key code ∷ []) w.cache).1 }

  -- What follows
  abbrev pub open_account : RegisterRequest → World C D → Result User × World C D
  open_account request v = within env.session (create_user env request) v

  confirm_lem :
      (code raw : String) (request : RegisterRequest) (w : World C D)
      → strings w.cache (code_key code) ≡ some raw
      → lists w.cache (code_key code) ≡ []
      → is_empty raw ≡ false
      → env.validate_json raw ≡ some request
      → confirm env code w
        ≡ continue
            (λ user. Auth.login env.auth request.fingerprint user.uuid)
            (open_account request (spent code w))
  unfolding confirm Cache.get
  confirm_lem code raw request w held bare full valid =
      rw
        (
          redis.get_lem (code_key code) w.cache bare,
          held,
          full,
          Laws.delete_ok env.auth.redis redis (code_key code ∷ []) w.cache,
          valid,
        )
        refl

  -- Confirming a held code creates the account of the stored request and logs its user in, and the
  -- code is spent by then: in the state after the transaction, whatever its outcome, the same code is
  -- refused.
  pub confirm_once :
      (code raw : String) (request : RegisterRequest) (w : World C D)
      → is_literal (code_key code) ≡ true
      → strings w.cache (code_key code) ≡ some raw
      → lists w.cache (code_key code) ≡ []
      → is_empty raw ≡ false
      → env.validate_json raw ≡ some request
      → (r : Result User) × (v : World C D) × (open_account request (spent code w) ≡ (r, v))
        × (confirm env code w
            ≡ continue (λ user. Auth.login env.auth request.fingerprint user.uuid) (r, v))
        × (confirm env code v ≡ (err invalid_code, v))
  confirm_once code raw request w literal held bare full valid =
      let key = code_key code in
      let after = open_account request (spent code w) in
      let same : after.1.cache ≡ (spent code w).cache =
        within-KeepsCache env.session (create_user env request) (create_user-KeepsCache env request)
          (spent code w) in
      let gone : strings (spent code w).cache key ≡ none = ground (
        arith,
        Laws.strings-delete_literal env.auth.redis redis key w.cache key literal,
        eq_refl key,
      ) in
      let empty : lists (spent code w).cache key ≡ [] = ground (
        arith,
        Laws.lists-delete_literal env.auth.redis redis key w.cache key literal,
        eq_refl key,
      ) in
      (
        after.0,
        after.1,
        refl,
        confirm_lem code raw request w held bare full valid,
        confirm-missing code after.1 (ap (λ c. strings c key) same ∙ gone)
            (ap (λ c. lists c key) same ∙ empty),
      )

  -- Registering and then confirming the code that was drawn opens the account of that very request,
  -- where pydantic reads back the JSON that it wrote.
  pub confirm-register :
      (request : RegisterRequest) (w v : World C D)
      → login_taken env request.login w ≡ (ok false, v)
      → is_empty (env.dump_json request) ≡ false
      → env.validate_json (env.dump_json request) ≡ some request
      → confirm env (v.entropy v.draws) (register env request w).1
        ≡ continue
            (λ user. Auth.login env.auth request.fingerprint user.uuid)
            (open_account request (spent (v.entropy v.draws) (register env request w).1))
  confirm-register request w v free full valid =
      let key = code_key (v.entropy v.draws) in
      let (done, stored, bare) = register-stores env redis request w v key free in
      confirm_lem (v.entropy v.draws) (env.dump_json request) request (register env request w).1
        (rw (eq_refl key) at stored) (rw (eq_refl key) at bare) full valid
