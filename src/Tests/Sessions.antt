-- ===== src/Tests/Sessions.antt =====
-- The session service's theorems, at a login and what follows it.
use fastapi_claude_template.Prelude.{
  suc, ◌≡◌, ◌≢◌, refl, String, true, false, not, [], ◌∷◌, keep, All, arith, ◌==◌, eq_iff,
  if◌then◌else◌,
}
use fastapi_claude_template.Errors.{detailed, forbidden}
use fastapi_claude_template.Exec.{ok, err}
use fastapi_claude_template.World.{World}
use fastapi_claude_template.Redis.Memory.{Memory, memory_redis-IsRedis}
use fastapi_claude_template.Jwt.{access, refresh}
use fastapi_claude_template.Auth
use fastapi_claude_template.Auth.{TokensExpire, default_tokens_count}
use fastapi_claude_template.Auth.Pairs.{split, pair_of, split-pair_of}
use fastapi_claude_template.Auth.Refresh.{IsPair}
use fastapi_claude_template.Auth.Sessions.{IsUser, sessions, sessions-login}
use fastapi_claude_template.Auth.Verify.{verify_token-issued}
use fastapi_claude_template.Auth.Rotation.{verify_refresh-login, verify_refresh_once}
use fastapi_claude_template.Auth.Separator.{verify_refresh-unclean}
use fastapi_claude_template.Auth.Logout.{sessions-invalidate_refresh, without_token}
use fastapi_claude_template.Tests.Codec.{spelling-IsPyJwt}
use fastapi_claude_template.Tests.Rows.{Rows}
use fastapi_claude_template.Tests.Env.{
  deps, deps-IsIssuing, start, start-IsUser, value, no_tokens, engine,
}

-- Ann's first login
abbrev logged : TokensExpire
logged = value no_tokens (Auth.login deps "fp" "u" start).0

abbrev after_login : World Memory Rows
after_login = (Auth.login deps "fp" "u" start).1

split-pair_of_example : split (pair_of "fp" "tok") ≡ "fp" ∷ "tok" ∷ []
split-pair_of_example = split-pair_of "fp" "tok" refl refl

sessions-login_example : sessions deps memory_redis-IsRedis after_login "u" ≡ (
    if "u" == "u"
    then pair_of "fp" logged.tokens.refresh
      ∷ (if false then [] else sessions deps memory_redis-IsRedis start "u")
    else sessions deps memory_redis-IsRedis start "u")
unfolding engine
sessions-login_example =
    sessions-login deps memory_redis-IsRedis "fp" "u" start logged after_login start-IsUser refl "u"

-- The refresh of that login, and the worlds that the verification leaves
abbrev first : String
first = logged.tokens.refresh

abbrev verified : World Memory Rows
verified = (Auth.verify_token deps first refresh after_login).1

abbrev refreshed : TokensExpire
refreshed = value no_tokens (Auth.verify_refresh deps "fp" first after_login).0

abbrev after_refresh : World Memory Rows
after_refresh = (Auth.verify_refresh deps "fp" first after_login).1

abbrev verified_again : World Memory Rows
verified_again = (Auth.verify_token deps first refresh after_refresh).1

after_login-IsPair : All IsPair (sessions deps memory_redis-IsRedis after_login "u")
unfolding engine
after_login-IsPair =
    (record { fingerprint = "fp"; token = first; clean = refl; plain = refl; made = refl }, tt)

after_login-IsUser : IsUser deps memory_redis-IsRedis "u" after_login
unfolding engine
after_login-IsUser = record { literal = refl; no_string = refl }

apart : (a b : String) → (a == b) ≡ false → a ≢ b
apart a b h e = cc (h, (eq_iff a b).1 e)

rotated : refreshed.tokens.refresh ≢ first
unfolding engine
rotated = apart refreshed.tokens.refresh first refl

verify_token-issued_example :
    (Auth.verify_token deps first refresh after_login
      ≡ (ok "u", record after_login { reads = suc after_login.reads }))
    × (Auth.verify_token deps first access after_login ≡ (
      err (detailed forbidden "Invalid token"),
      record after_login { reads = suc after_login.reads },
    ))
unfolding engine
verify_token-issued_example =
    verify_token-issued deps spelling-IsPyJwt refresh access "u" (record start { reads = 2 })
      (record start { reads = 3 }) after_login logged.refresh_expire first (λ e. cc) refl refl
      (omega arith) (omega arith)

verify_refresh-login_example :
    (s : TokensExpire) × (v' : World Memory Rows) × (Auth.verify_refresh deps "fp" first after_login
      ≡ (ok s, v'))
    × (sessions deps memory_redis-IsRedis v' "u"
        ≡ pair_of "fp" s.tokens.refresh
          ∷ keep
              (λ x. not (x == pair_of "fp" first))
              (sessions deps memory_redis-IsRedis after_login "u"))
unfolding engine
verify_refresh-login_example =
    verify_refresh-login deps spelling-IsPyJwt memory_redis-IsRedis "fp" "u" start after_login
      after_login logged deps-IsIssuing start-IsUser refl refl refl refl (omega arith) (omega arith)

verify_refresh_once_example :
    ((Auth.verify_refresh deps "fp" first after_refresh).0
      ≡ err (detailed forbidden "Token is not valid anymore"))
    × (sessions deps memory_redis-IsRedis (Auth.verify_refresh deps "fp" first after_refresh).1 "u"
        ≡ [])
unfolding engine
verify_refresh_once_example =
    verify_refresh_once deps spelling-IsPyJwt memory_redis-IsRedis "fp" first "u" after_login
      verified after_refresh after_refresh verified_again refreshed deps-IsIssuing
      after_login-IsUser after_login-IsPair refl refl rotated refl refl

-- A login whose fingerprint ends in a colon
abbrev broken : TokensExpire
broken = value no_tokens (Auth.login deps "fp:" "u" start).0

abbrev after_broken : World Memory Rows
after_broken = (Auth.login deps "fp:" "u" start).1

abbrev broken_verified : World Memory Rows
broken_verified = (Auth.verify_token deps broken.tokens.refresh refresh after_broken).1

verify_refresh-unclean_example :
    (m : String) × ((Auth.verify_refresh deps "fp:" broken.tokens.refresh after_broken).0
      ≡ err (detailed forbidden m))
    × (sessions deps memory_redis-IsRedis
          (Auth.verify_refresh deps "fp:" broken.tokens.refresh after_broken).1
          "u"
        ≡ [])
unfolding engine
verify_refresh-unclean_example =
    verify_refresh-unclean deps memory_redis-IsRedis "fp:" "u" start after_broken after_broken
      broken_verified broken start-IsUser refl refl refl refl refl

sessions-invalidate_refresh_example :
    ((Auth.invalidate_refresh deps first "u" after_login).0 ≡ ok true)
    × (sessions deps memory_redis-IsRedis (Auth.invalidate_refresh deps first "u" after_login).1 "u"
        ≡ without_token first
            (sessions deps memory_redis-IsRedis after_login "u")
            (sessions deps memory_redis-IsRedis after_login "u"))
unfolding engine
sessions-invalidate_refresh_example =
    sessions-invalidate_refresh deps memory_redis-IsRedis first "u" "u" after_login verified refl
      after_login-IsPair refl
