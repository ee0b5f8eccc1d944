-- ===== src/Auth/Logout.antt =====
-- What `invalidate_refresh` does to the user's list.
use fastapi_claude_template.Prelude.{
  String, ◌≡◌, refl, sym, ap, ◌∙◌, Bool, true, false, not, none, List, [], ◌∷◌, keep, All, ◌==◌,
  eq_refl, if◌then◌else◌, arith, Bool-cases, inl, inr,
}
use fastapi_claude_template.Exec.{ok}
use fastapi_claude_template.Redis.{IsRedis}
use fastapi_claude_template.Cache.Laws
use fastapi_claude_template.World.{World}
use fastapi_claude_template.Jwt.{refresh}
use fastapi_claude_template.Auth.{Deps, drop_token, verify_token, invalidate_refresh}
use fastapi_claude_template.Auth.Pairs.{split}
use fastapi_claude_template.Auth.Verify.{cache-verify_token}
use fastapi_claude_template.Auth.Sessions.{sessions}
use fastapi_claude_template.Auth.Refresh.{IsPair, split-IsPair}

abbrev has_token : String → List String → Bool
has_token token (_ ∷ b ∷ _) = b == token
has_token token _ = false

-- The first pair with the token goes, and every copy of it.
abbrev pub without_token : String → List String → List String → List String
without_token token all [] = all
without_token token all (pair ∷ pairs) =
    let rest = without_token token all pairs in
    if has_token token (split pair) then keep (λ x. not (x == pair)) all else rest

module _ {C D : Type 0} (deps : Deps C) (redis : IsRedis deps.redis) where
  open redis use {strings, lists}

  -- Over pairs that are not broken, the loop drops that pair from the user's list alone.
  drop_token_lem :
      (u token : String) (pairs : List String) (w : World C D)
      → strings w.cache u ≡ none
      → All IsPair pairs
      → ((drop_token deps u token pairs w).0 ≡ ok tt)
        × (lists (drop_token deps u token pairs w).1.cache u
            ≡ without_token token (lists w.cache u) pairs)
  unfolding drop_token
  drop_token_lem u token [] w no_string h = (refl, refl)
  drop_token_lem u token (pair ∷ pairs) w no_string (p, h) = elim (Bool-cases (p.token == token)) [
    | inl e ↦
        rw (split-IsPair p, drop_token, e)
          (
            Laws.discard_ok deps.redis redis u w.cache no_string pair,
            Laws.lists-discard deps.redis redis u w.cache no_string pair u ∙ (rw (eq_refl u)),
          )
    | inr e ↦ rw (split-IsPair p, drop_token, e) (drop_token_lem u token pairs w no_string h)
  ]

  -- When the user's key holds no text and every pair on the user's list is a token with a
  -- fingerprint that splits rightly, a logout with a valid refresh token returns true and takes the
  -- first pair with that token, with its copies, off the list; if none has it the list stays.
  pub sessions-invalidate_refresh :
      (token u v : String) (w y : World C D)
      → strings w.cache u ≡ none
      → All IsPair (sessions deps redis w u)
      → verify_token deps token refresh w ≡ (ok v, y)
      → ((invalidate_refresh deps token u w).0 ≡ ok true)
        × (sessions deps redis (invalidate_refresh deps token u w).1 u
            ≡ without_token token (sessions deps redis w u) (sessions deps redis w u))
  unfolding invalidate_refresh
  sessions-invalidate_refresh token u v w y no_string pairs verified =
      let kept : y.cache ≡ w.cache =
        sym (ap (λ p. p.1.cache) verified) ∙ cache-verify_token deps token refresh w in
      let no_string_y : strings y.cache u ≡ none = rw kept no_string in
      let (done, left) = drop_token_lem u token (lists y.cache u) y no_string_y (rw kept pairs) in
      rw (verified, Laws.get_list_lem deps.redis redis u y.cache no_string_y)
        (ground (arith, done, left, ap (λ c. lists c u) kept))
