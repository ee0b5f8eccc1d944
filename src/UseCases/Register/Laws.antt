-- ===== src/UseCases/Register/Laws.antt =====
-- What a registration leaves in the cache.
use fastapi_claude_template.Prelude.{
  suc, String, ◌≡◌, refl, sym, ap, ◌∙◌, true, false, some, [], if◌then◌else◌, ◌==◌,
}
use fastapi_claude_template.Errors.{detailed, conflict}
use fastapi_claude_template.Exec.{Result, ok, err}
use fastapi_claude_template.Redis.{IsRedis}
use fastapi_claude_template.Cache
use fastapi_claude_template.World.{World}
use fastapi_claude_template.UseCases.{Env, RegisterRequest}
use fastapi_claude_template.UseCases.Cache.{login_taken-KeepsCache}
use fastapi_claude_template.UseCases.Register.{code_key, login_taken, register}

module _ {C D : Type 0} (env : Env C D) (redis : IsRedis env.auth.redis) where
  open redis use {strings, lists}

  module _ (request : RegisterRequest) (w v : World C D) where
    abbrev put : Result (Unit {0}) × C
    put =
        env.auth.redis.set (code_key (v.entropy v.draws)) (env.dump_json request) (some 600) v.cache

    register_lem :
        login_taken env request.login w ≡ (ok false, v)
        → register env request w ≡ (ok true, record v { draws = suc v.draws; cache = put.1 })
    unfolding register Cache.set
    register_lem free =
        rw
          (
            free,
            redis.set_ok (code_key (v.entropy v.draws)) (env.dump_json request) (some 600) v.cache
                refl,
          )
          refl

    -- The login is free: the request is stored under the key of the code that was drawn, and no other
    -- key changes.
    pub register-stores :
        (j : String)
        → login_taken env request.login w ≡ (ok false, v)
        → ((register env request w).0 ≡ ok true)
          × (strings (register env request w).1.cache j ≡ (
              if code_key (v.entropy v.draws) == j
              then some (env.dump_json request)
              else strings w.cache j))
          × (lists (register env request w).1.cache j
              ≡ (if code_key (v.entropy v.draws) == j then [] else lists w.cache j))
    register-stores j free =
        let key = code_key (v.entropy v.draws) in
        let same : v.cache ≡ w.cache =
          ap (λ p. p.1.cache) (sym free) ∙ login_taken-KeepsCache env request.login w in
        let sent = env.dump_json request in
        let done = register_lem free in
        (
          ap (λ p. p.0) done,
          ap (λ p. strings p.1.cache j) done
              ∙ redis.strings-set key sent (some 600) v.cache j refl
              ∙ ap (λ c. if key == j then some sent else strings c j) same,
          ap (λ p. lists p.1.cache j) done
              ∙ redis.lists-set key sent (some 600) v.cache j refl
              ∙ ap (λ c. if key == j then [] else lists c j) same,
        )

    -- The login is taken: the request is refused with a conflict and the cache stays as it was.
    pub register-taken :
        login_taken env request.login w ≡ (ok true, v)
        → (register env request w ≡ (err (detailed conflict "User already exists"), v))
          × (v.cache ≡ w.cache)
    unfolding register
    register-taken taken = (
      rw taken refl,
      ap (λ p. p.1.cache) (sym taken) ∙ login_taken-KeepsCache env request.login w,
    )
