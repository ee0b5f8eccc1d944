-- ===== src/Auth/Rotation.antt =====
-- What a refresh needs, what it leaves behind, and the same refresh again.
use mathlib.Core.Path.{subst₂}
use fastapi_claude_template.Prelude.{
  suc, ◌≤◌, ◌<◌, ◌*◌, ◌/◌, String, ◌≡◌, refl, sym, ap, subst, ◌∙◌, ◌≢◌, true, false, not, none,
  some, List, [], ◌∷◌, length, ltb, keep, All, All-keep, ◌==◌, eq_refl, eq_iff, if◌then◌else◌,
  arith, Bool-cases, Option-cases, inl, inr, no_colon,
}
use fastapi_claude_template.Errors.{detailed, forbidden}
use fastapi_claude_template.Exec.{ok, err}
use fastapi_claude_template.Exec.Laws.{ok_path}
use fastapi_claude_template.Redis.{IsRedis}
use fastapi_claude_template.Cache.Laws
use fastapi_claude_template.World.{World, microseconds}
use fastapi_claude_template.Jwt.{access, refresh}
use fastapi_claude_template.Jwt.Laws.{IsPyJwt, create_ok}
use fastapi_claude_template.Auth.{
  Deps, TokensExpire, find_verified, login, verify_token, verify_refresh,
}
use fastapi_claude_template.Auth.Pairs.{split, pair_of, is_clean, split-pair_of}
use fastapi_claude_template.Auth.Verify.{cache-verify_token, verify_token-issued}
use fastapi_claude_template.Auth.Sessions.{IsUser, sessions, read, login-IsLogin}
use fastapi_claude_template.Auth.Refresh.{
  holds, IsPair, holds-eq, find_pair, find_verified_lem, find_verified-head, IsIssuing, new_refresh,
  verify_refresh_lem, sessions-refreshed, strings-refreshed, verify_refresh_missing,
}

-- What is found is made of the fingerprint and the token.
find_pair-eq :
    (fp token : String) (l : List String) (pair : String)
    → All IsPair l
    → find_pair fp token l ≡ some pair
    → (pair ≡ pair_of fp token) × (is_clean fp ≡ true) × (no_colon token ≡ true)
find_pair-eq fp token [] pair h e = cc
find_pair-eq fp token (x ∷ l) pair (p, h) e = elim (Bool-cases (holds fp token (split x))) [
  | inr other ↦ find_pair-eq fp token l pair h (rw other at e)
  | inl same ↦
      let (same_fp, same_token) = holds-eq p fp token same in
      let found : x ≡ pair = ground (arith, rw same at e) in
      (
        sym found ∙ p.made ∙ ap (λ f. pair_of f p.token) same_fp ∙ ap (pair_of fp) same_token,
        sym (ap is_clean same_fp) ∙ p.clean,
        sym (ap no_colon same_token) ∙ p.plain,
      )
]

-- Once every copy of it is gone, nothing is found.
find_pair-keep :
    (fp token : String) (l : List String)
    → All IsPair l
    → find_pair fp token (keep (λ x. not (x == pair_of fp token)) l) ≡ none
find_pair-keep fp token [] h = refl
find_pair-keep fp token (x ∷ l) (p, h) = elim (Bool-cases (x == pair_of fp token)) [
  | inl same ↦ rw same (find_pair-keep fp token l h)
  | inr other ↦ elim (Bool-cases (holds fp token (split x))) [
    | inr differs ↦ rw (other, differs) (find_pair-keep fp token l h)
    | inl same ↦
        let (same_fp, same_token) = holds-eq p fp token same in
        let made : x ≡ pair_of fp token =
          p.made ∙ ap (λ f. pair_of f p.token) same_fp ∙ ap (pair_of fp) same_token in
        cc ((eq_iff x (pair_of fp token)).1 made)
  ]
]

-- Nor when a pair with another token is put in front.
find_pair-rotated :
    (fp token new : String) (l : List String)
    → is_clean fp ≡ true
    → no_colon new ≡ true
    → new ≢ token
    → All IsPair l
    → find_pair fp token (pair_of fp new ∷ keep (λ x. not (x == pair_of fp token)) l) ≡ none
find_pair-rotated fp token new l clean plain fresh pairs =
    let missed : holds fp token (split (pair_of fp new)) ≡ false =
      rw (split-pair_of fp new clean plain) (ground (arith, eq_iff new token)) in
    rw missed (find_pair-keep fp token l pairs)

module _ {C D : Type 0} (deps : Deps C) (laws : IsPyJwt deps.jwt deps.ciphers)
    (redis : IsRedis deps.redis) where
  open redis use {strings, lists}

  -- When both tokens have a lifetime and the user's id is a UUID without pattern characters, the
  -- key of which holds no text, the refresh token of a login with a fingerprint that splits rightly
  -- is accepted with it from its issue until it expires, in whole seconds, if the cache is as the
  -- login left it; new tokens are issued and in the user's list the new pair has taken the place of
  -- every copy of the old one.
  pub verify_refresh-login :
      (fp u : String) (w w' v : World C D) (r : TokensExpire)
      → IsIssuing deps
      → IsUser deps redis u w
      → deps.parse_uuid u ≡ some u
      → is_clean fp ≡ true
      → login deps fp u w ≡ (ok r, w')
      → v.cache ≡ w'.cache
      → w.times (suc w.reads) ≤ v.times v.reads
      → v.times v.reads < r.refresh_expire / microseconds * microseconds
      → (s : TokensExpire) × (v' : World C D) × (verify_refresh deps fp r.tokens.refresh v
          ≡ (ok s, v'))
        × (sessions deps redis v' u
            ≡ pair_of fp s.tokens.refresh
              ∷ keep (λ x. not (x == pair_of fp r.tokens.refresh)) (sessions deps redis v u))
  verify_refresh-login fp u w w' v r issuing user uuid clean h same before after =
      let l = login-IsLogin deps redis fp u w user h in
      let (verified, _) =
        verify_token-issued deps laws refresh access u (read deps redis w) _ v r.refresh_expire
          r.tokens.refresh (λ e. cc) uuid l.refresh_issued before after in
      let t = r.tokens.refresh in
      let no_string : strings v.cache u ≡ none = rw same l.no_string in
      let signed : t ≡ new_refresh deps laws redis u w = cc (
        l.refresh_issued,
        create_ok deps.jwt deps.ciphers laws refresh u none (read deps redis w) issuing.refresh,
      ) in
      let plain : no_colon t ≡ true = rw signed (laws.plain _) in
      let rest : List String = (if ltb 5 (length (lists w.cache u)) then [] else lists w.cache u) in
      let stored : lists v.cache u ≡ pair_of fp t ∷ rest =
        ground (arith, l.stored u, eq_refl u, ap (λ c. lists c u) same) in
      let found : find_verified deps u fp t (lists v.cache u) (read deps redis v)
          ≡ (ok (some (pair_of fp t)), read deps redis v) =
        rw stored (find_verified-head deps u fp t rest (read deps redis v) clean plain) in
      let seen =
        sessions-refreshed deps laws redis fp t u (pair_of fp t) v (read deps redis v) issuing
          no_string verified found u in
      (
        _,
        _,
        verify_refresh_lem deps laws redis fp t u (pair_of fp t) v (read deps redis v) issuing
            no_string verified found,
        ground (arith, seen, eq_refl u),
      )

  -- What a fingerprint and a token that were refreshed with left in the user's list.
  module _ (fp token u : String) (w v : World C D) (issuing : IsIssuing deps)
      (no_string : strings v.cache u ≡ none)
      (verified : verify_token deps token refresh w ≡ (ok u, v))
      (pairs : All IsPair (lists v.cache u)) where
    refreshed_cases :
        (r : TokensExpire) (w' : World C D)
        → verify_refresh deps fp token w ≡ (ok r, w')
        → (is_clean fp ≡ true)
          × (no_colon token ≡ true)
          × (strings w'.cache u ≡ none)
          × (no_colon r.tokens.refresh ≡ true)
          × (lists w'.cache u
              ≡ pair_of fp r.tokens.refresh
                ∷ keep (λ x. not (x == pair_of fp token)) (lists v.cache u))
    refreshed_cases r w' h = elim (Option-cases (find_pair fp token (lists v.cache u))) [
      | inl missing ↦ cc (
        verify_refresh_missing deps laws redis fp token u w v no_string verified
            (looked_up ∙ ap (λ o. (ok o, v)) missing),
        h,
      )
      | inr (pair, e) ↦
          let (made, clean, plain) = find_pair-eq fp token (lists v.cache u) pair pairs e in
          let found = looked_up ∙ ap (λ o. (ok o, v)) (e ∙ ap some made) in
          let done =
            verify_refresh_lem deps laws redis fp token u (pair_of fp token) w v issuing no_string
              verified found in
          let seen =
            sessions-refreshed deps laws redis fp token u (pair_of fp token) w v issuing no_string
              verified found u in
          let same = sym done ∙ h in
          let result = ok_path (ap (λ p. p.0) same) in
          (
            clean,
            plain,
            subst (λ (w' : World C D). strings w'.cache u ≡ none) (ap (λ p. p.1) same)
                (strings-refreshed deps laws redis fp token u (pair_of fp token) w v issuing
                  no_string verified found),
            subst (λ (r : TokensExpire). no_colon r.tokens.refresh ≡ true) result (laws.plain _),
            subst₂
                (λ (r : TokensExpire) (w' : World C D).
                  lists w'.cache u
                  ≡ pair_of fp r.tokens.refresh
                    ∷ keep (λ x. not (x == pair_of fp token)) (lists v.cache u))
                result (ap (λ p. p.1) same) (ground (arith, seen, eq_refl u)),
          )
    ]
      where
        looked_up :
            find_verified deps u fp token (lists v.cache u) v
            ≡ (ok (find_pair fp token (lists v.cache u)), v)
        looked_up = find_verified_lem deps u fp token (lists v.cache u) v pairs

  -- When both tokens have a lifetime, the user's id has no pattern characters, its key holds no
  -- text and every pair on the user's list is a token with a fingerprint that splits rightly, a
  -- refresh token is good once: after verify_refresh returned a new token, another one than the
  -- old, and as long as the cache is as it left it, the same fingerprint and token are refused
  -- although the token is still valid, and the refusal empties the user's list.
  pub verify_refresh_once :
      (fp token u : String) (w v w' x y : World C D) (r : TokensExpire)
      → IsIssuing deps
      → IsUser deps redis u w
      → All IsPair (sessions deps redis w u)
      → verify_token deps token refresh w ≡ (ok u, v)
      → verify_refresh deps fp token w ≡ (ok r, w')
      → r.tokens.refresh ≢ token
      → x.cache ≡ w'.cache
      → verify_token deps token refresh x ≡ (ok u, y)
      → ((verify_refresh deps fp token x).0 ≡ err (detailed forbidden "Token is not valid anymore"))
        × (sessions deps redis (verify_refresh deps fp token x).1 u ≡ [])
  verify_refresh_once fp token u w v w' x y r issuing user pairs verified h fresh same again =
      let kept_w : v.cache ≡ w.cache =
        sym (ap (λ p. p.1.cache) verified) ∙ cache-verify_token deps token refresh w in
      let kept_x : y.cache ≡ w'.cache =
        sym (ap (λ p. p.1.cache) again) ∙ cache-verify_token deps token refresh x ∙ same in
      let pairs_v : All IsPair (lists v.cache u) = rw kept_w pairs in
      let (clean, plain, no_string, plain', left) =
        refreshed_cases fp token u w v issuing (rw kept_w user.no_string) verified pairs_v r w' h in
      let left_y : lists y.cache u
          ≡ pair_of fp r.tokens.refresh
            ∷ keep (λ x. not (x == pair_of fp token)) (lists v.cache u) =
        rw kept_x left in
      let renewed : IsPair (pair_of fp r.tokens.refresh) = record {
        fingerprint = fp;
        token = r.tokens.refresh;
        clean = clean;
        plain = plain';
        made = refl;
      } in
      let pairs_y : All IsPair (lists y.cache u) =
        rw left_y
          (renewed, All-keep IsPair (λ x. not (x == pair_of fp token)) (lists v.cache u) pairs_v) in
      let unseen : find_pair fp token (lists y.cache u) ≡ none = rw left_y (
        find_pair-rotated fp token r.tokens.refresh (lists v.cache u) clean plain' fresh pairs_v) in
      let refused =
        verify_refresh_missing deps laws redis fp token u x y (rw kept_x no_string) again (
          find_verified_lem deps u fp token (lists y.cache u) y pairs_y
          ∙ ap (λ o. (ok o, y)) unseen) in
      (
        ap (λ p. p.0) refused,
        ap (λ p. lists p.1.cache u) refused
            ∙ Laws.lists-delete_literal deps.redis redis u y.cache u user.literal
            ∙ (rw (eq_refl u)),
      )
