-- ===== src/UseCases/Login/Laws.antt =====
-- When a login is granted, and what a refused one leaves behind.
use fastapi_claude_template.Prelude.{
  ◌≡◌, refl, sym, ap, ◌∙◌, true, not, none, some, [], arith, inl, inr, Bool-cases,
}
use fastapi_claude_template.Errors.{Failure, detailed, forbidden, unauthorized}
use fastapi_claude_template.Exec.{Result, ok, err, Exec, raise_if, ◌>>=◌, ◌>>◌}
use fastapi_claude_template.Exec.Laws.{run-cases}
use fastapi_claude_template.Redis.{IsRedis}
use fastapi_claude_template.World.{World}
use fastapi_claude_template.Auth
use fastapi_claude_template.Auth.{TokensExpire}
use fastapi_claude_template.Auth.Sessions.{IsUser, sessions-login_failed}
use fastapi_claude_template.Db.{User}
use fastapi_claude_template.Db.Manager.{within_session}
use fastapi_claude_template.UseCases.{Env, RegisterRequest, matched, verify_password}
use fastapi_claude_template.UseCases.Cache.{within_session-KeepsCache, find_user-KeepsCache}
use fastapi_claude_template.UseCases.Login.{find_user, login}

module _ {C D : Type 0} (env : Env C D) (request : RegisterRequest) (w : World C D) where
  abbrev pub found : Result User × World C D
  found = within_session env.session (find_user env [] none (some request.login)) w

  opened : User → Exec (World C D) TokensExpire
  unfolding verify_password
  opened user = do
    raise_if (not user.active) (detailed forbidden "You have been blocked")
    verified ← verify_password env user.password request.password
    raise_if (not verified) (detailed unauthorized "Incorrect password or login")
    Auth.login env.auth request.fingerprint user.uuid

  login_lem :
      (user : User) (v : World C D) → found ≡ (ok user, v) → login env request w ≡ opened user v
  unfolding login opened
  login_lem user v e = rw e refl

  opened-eq-ok :
      (user : User) (v w' : World C D) (r : TokensExpire)
      → opened user v ≡ (ok r, w')
      → (user.active ≡ true)
        × (env.verify user.password request.password ≡ matched)
        × (Auth.login env.auth request.fingerprint user.uuid v ≡ (ok r, w'))
  unfolding opened verify_password
  opened-eq-ok user v w' r h = ground arith

  -- A login that returned is one of a user that the database returned for the login, who is active,
  -- whose stored hash the hasher accepted for the password, and the session service opened it.
  pub login_sound :
      (r : TokensExpire) (w' : World C D)
      → login env request w ≡ (ok r, w')
      → (user : User) × (v : World C D) × (found ≡ (ok user, v))
        × (user.active ≡ true)
        × (env.verify user.password request.password ≡ matched)
        × (Auth.login env.auth request.fingerprint user.uuid v ≡ (ok r, w'))
  unfolding login
  login_sound r w' h = elim (run-cases found) [
    | inr (f, v, e) ↦ cc (rw (e, login) at h)
    | inl (user, v, e) ↦
        let (active, matches, granted) = opened-eq-ok user v w' r (sym (login_lem user v e) ∙ h) in
        (user, v, e, active, matches, granted)
  ]

  opened-eq-err :
      (redis : IsRedis env.auth.redis) (user : User) (v w' : World C D) (f : Failure)
      → IsUser env.auth redis user.uuid v
      → opened user v ≡ (err f, w')
      → w'.cache ≡ v.cache
  unfolding opened verify_password
  opened-eq-err redis user v w' f known h = elim (Bool-cases user.active) [
    | inr blocked ↦ ground arith
    | inl active ↦
        ground
          (arith, sessions-login_failed env.auth redis request.fingerprint user.uuid v f w' known)
  ]

  -- A login that is refused, for whatever reason, changes nothing in the cache.
  pub login-refused :
      (redis : IsRedis env.auth.redis) (f : Failure) (w' : World C D)
      → ((user : User) (v : World C D) → found ≡ (ok user, v) → IsUser env.auth redis user.uuid v)
      → login env request w ≡ (err f, w')
      → w'.cache ≡ w.cache
  unfolding login
  login-refused redis f w' known h = elim (run-cases found) [
    | inr (g, v, e) ↦ ap (λ p. p.1.cache) (sym (rw (e, login) at h)) ∙ kept v (ap (λ p. p.1) e)
    | inl (user, v, e) ↦
        opened-eq-err redis user v w' f (known user v e) (sym (login_lem user v e) ∙ h)
        ∙ kept v (ap (λ p. p.1) e)
  ]
    where
      kept : (v : World C D) → found.1 ≡ v → v.cache ≡ w.cache
      kept v same =
          ap (λ x. x.cache) (sym same)
          ∙ within_session-KeepsCache env.session _
              (find_user-KeepsCache env [] none (some request.login)) w
