-- ===== src/Auth/Separator.antt =====
-- A fingerprint that the separator cannot be found behind, at a login and the refresh after it.
use fastapi_claude_template.Prelude.{
  String, ◌≡◌, sym, ap, ◌∙◌, ◌≢◌, false, none, some, List, [], ◌∷◌, head?, ◌==◌, eq_refl, eq_iff,
  arith, ◌⊎◌, inl, inr,
}
use fastapi_claude_template.Errors.{detailed, forbidden}
use fastapi_claude_template.Exec.{ok, err}
use fastapi_claude_template.Redis.{IsRedis}
use fastapi_claude_template.Cache.Laws
use fastapi_claude_template.World.{World}
use fastapi_claude_template.Jwt.{refresh}
use fastapi_claude_template.Auth.{
  Deps, TokensExpire, delete, find_verified, broken_separator, login, verify_token, verify_refresh,
}
use fastapi_claude_template.Auth.Pairs.{split, pair_of, is_clean, split-pair_of_unclean}
use fastapi_claude_template.Auth.Verify.{cache-verify_token}
use fastapi_claude_template.Auth.Sessions.{IsUser, sessions, login-IsLogin}

module _ {C D : Type 0} (deps : Deps C) (redis : IsRedis deps.redis) where
  open redis use {strings, lists}

  abbrev Missed : String → String → String → String → World C D → Type 0
  Missed u fp token pair y =
      (find_verified deps u fp token (pair ∷ []) y ≡ (ok none, y))
      ⊎ (find_verified deps u fp token (pair ∷ []) y
          ≡ (err (detailed forbidden broken_separator), (delete deps u y).1))

  Missed-parts :
      (u fp token pair : String) (y : World C D) (parts : List String)
      → split pair ≡ parts
      → head? parts ≢ some fp
      → Missed u fp token pair y
  unfolding find_verified
  Missed-parts u fp token pair y [] e differs =
      inr (rw (e, find_verified) (ground (arith, Laws.delete_ok deps.redis redis (u ∷ []) y.cache)))
  Missed-parts u fp token pair y (a ∷ []) e differs =
      inr (rw (e, find_verified) (ground (arith, Laws.delete_ok deps.redis redis (u ∷ []) y.cache)))
  Missed-parts u fp token pair y (a ∷ b ∷ rest) e differs =
      let other : (a == fp) ≡ false = ground (arith, eq_iff a fp) in
      inl (rw (e, find_verified, other))

  refused :
      (u fp token pair : String) (x y : World C D)
      → strings y.cache u ≡ none
      → lists y.cache u ≡ pair ∷ []
      → verify_token deps token refresh x ≡ (ok u, y)
      → Missed u fp token pair y
      → (m : String) × (verify_refresh deps fp token x
          ≡ (err (detailed forbidden m), (delete deps u y).1))
  unfolding verify_refresh
  refused u fp token pair x y no_string one verified (inl e) = (
    "Token is not valid anymore",
    rw (verified, Laws.get_list_lem deps.redis redis u y.cache no_string, one, e)
        (ground (arith, Laws.delete_ok deps.redis redis (u ∷ []) y.cache)),
  )
  refused u fp token pair x y no_string one verified (inr e) = (
    broken_separator,
    rw (verified, Laws.get_list_lem deps.redis redis u y.cache no_string, one, e),
  )

  -- After a first login with such a fingerprint, the refresh token of that login is never accepted
  -- with the fingerprint: while the token is valid the refresh is forbidden, and it empties the
  -- user's list.
  pub verify_refresh-unclean :
      (fp u : String) (w w' x y : World C D) (r : TokensExpire)
      → IsUser deps redis u w
      → is_clean fp ≡ false
      → sessions deps redis w u ≡ []
      → login deps fp u w ≡ (ok r, w')
      → x.cache ≡ w'.cache
      → verify_token deps r.tokens.refresh refresh x ≡ (ok u, y)
      → (m : String) × ((verify_refresh deps fp r.tokens.refresh x).0 ≡ err (detailed forbidden m))
        × (sessions deps redis (verify_refresh deps fp r.tokens.refresh x).1 u ≡ [])
  verify_refresh-unclean fp u w w' x y r user dirty empty h same verified =
      let t = r.tokens.refresh in
      let l = login-IsLogin deps redis fp u w user h in
      let kept : y.cache ≡ w'.cache =
        sym (ap (λ p. p.1.cache) verified) ∙ cache-verify_token deps t refresh x ∙ same in
      let one : lists y.cache u ≡ pair_of fp t ∷ [] =
        rw kept (ground (arith, l.stored u, eq_refl u, empty)) in
      let (m, e) = refused u fp t (pair_of fp t) x y (rw kept l.no_string) one verified (
        Missed-parts u fp t (pair_of fp t) y _ (λ _. split (pair_of fp t))
          (split-pair_of_unclean fp t dirty)) in
      (
        m,
        ap (λ p. p.0) e,
        ap (λ p. lists p.1.cache u) e
            ∙ Laws.lists-delete_literal deps.redis redis u y.cache u user.literal
            ∙ (rw (eq_refl u)),
      )
