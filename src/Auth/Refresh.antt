-- ===== src/Auth/Refresh.antt =====
-- `verify_refresh` on a user's list: the loop, and what a refresh does to the list.
use fastapi_claude_template.Prelude.{
  ◌<◌, String, ◌≡◌, refl, ◌∙◌, Bool, true, false, not, ◌&&◌, Option, none, some, List, [], ◌∷◌,
  keep, All, ◌==◌, eq_refl, eq_iff, if◌then◌else◌, arith, Bool-cases, inl, inr, no_colon,
}
use fastapi_claude_template.Errors.{detailed, forbidden}
use fastapi_claude_template.Exec.{ok, err}
use fastapi_claude_template.Redis.{IsRedis}
use fastapi_claude_template.Cache
use fastapi_claude_template.Cache.Laws
use fastapi_claude_template.World.{World, on_cache}
use fastapi_claude_template.Jwt.{access, refresh, lifetime}
use fastapi_claude_template.Jwt.Laws.{IsPyJwt, create_ok, issued_token, expiry}
use fastapi_claude_template.Auth.{Deps, delete, issue, find_verified, verify_token, verify_refresh}
use fastapi_claude_template.Auth.Pairs.{split, pair_of, is_clean, split-pair_of}
use fastapi_claude_template.Auth.Sessions.{sessions, read, tokens_expire}

-- Whether a pair's parts are a fingerprint and a token.
abbrev pub holds : String → String → List String → Bool
holds fp token (a ∷ b ∷ _) = a == fp && b == token
holds fp token _ = false

-- A pair that `split` takes apart into what it was made of.
pub record IsPair (pair : String) : Type 0 where
  pub fingerprint : String
  pub token : String
  pub clean : is_clean fingerprint ≡ true
  pub plain : no_colon token ≡ true
  pub made : pair ≡ pair_of fingerprint token

pub split-IsPair : {pair : String} (p : IsPair pair) → split pair ≡ p.fingerprint ∷ p.token ∷ []
split-IsPair p = rw p.made (split-pair_of p.fingerprint p.token p.clean p.plain)

-- A pair that holds a fingerprint and a token is made of them.
pub holds-eq :
    {pair : String} (p : IsPair pair) (fp token : String)
    → holds fp token (split pair) ≡ true
    → (p.fingerprint ≡ fp) × (p.token ≡ token)
holds-eq p fp token h =
    let h' = rw (split-IsPair p) at h in
    ground (arith, h', eq_iff p.fingerprint fp, eq_iff p.token token)

-- The first pair that holds the fingerprint and the token.
abbrev pub find_pair : String → String → List String → Option String
find_pair fp token [] = none
find_pair fp token (pair ∷ pairs) =
    let rest = find_pair fp token pairs in if holds fp token (split pair) then some pair else rest

module _ {C D : Type 0} (deps : Deps C) where
  -- Over pairs that are not broken, the loop finds that pair and writes nothing.
  pub find_verified_lem :
      (u fp token : String) (pairs : List String) (w : World C D)
      → All IsPair pairs
      → find_verified deps u fp token pairs w ≡ (ok (find_pair fp token pairs), w)
  unfolding find_verified
  find_verified_lem u fp token [] w h = refl
  find_verified_lem u fp token (pair ∷ pairs) w (p, h) =
      elim (Bool-cases (p.fingerprint == fp && p.token == token)) [
        | inl e ↦ rw (split-IsPair p, find_verified, e)
        | inr e ↦ rw (split-IsPair p, find_verified, e) (find_verified_lem u fp token pairs w h)
      ]

  -- The pair in front is enough, whatever stands behind it.
  pub find_verified-head :
      (u fp token : String) (pairs : List String) (w : World C D)
      → is_clean fp ≡ true
      → no_colon token ≡ true
      → find_verified deps u fp token (pair_of fp token ∷ pairs) w
        ≡ (ok (some (pair_of fp token)), w)
  unfolding find_verified
  find_verified-head u fp token pairs w clean plain =
      rw (split-pair_of fp token clean plain, find_verified)
        (ground (arith, eq_refl fp, eq_refl token))

module _ {C : Type 0} (deps : Deps C) where
  -- Both lifetimes are set, so tokens are issued.
  pub record IsIssuing : Type 0 where
    pub access : 0 < lifetime deps.ciphers access none
    pub refresh : 0 < lifetime deps.ciphers refresh none

-- Two fixed facts about the environment: the keys sign, and the cache is Redis.
module _ {C D : Type 0} (deps : Deps C) (laws : IsPyJwt deps.jwt deps.ciphers)
    (redis : IsRedis deps.redis) where
  open redis use {strings, lists}

  abbrev pub new_access : String → World C D → String
  new_access u w = issued_token deps.jwt deps.ciphers laws access u none w

  -- The refresh token is signed at the reading of the clock behind that of the access token.
  abbrev pub new_refresh : String → World C D → String
  new_refresh u w = issued_token deps.jwt deps.ciphers laws refresh u none (read deps redis w)

  module _ (fp u : String) (w : World C D) (issuing : IsIssuing deps)
      (no_string : strings w.cache u ≡ none) where
    abbrev pub issued : World C D
    issued =
        (on_cache (Cache.set_list deps.redis u (pair_of fp (new_refresh u w) ∷ []) none)
          (read deps redis (read deps redis w))).1

    issue_lem : issue deps fp u w ≡ (
      ok (
          tokens_expire
            (expiry deps.jwt deps.ciphers refresh none (read deps redis w))
            (new_access u w)
            (new_refresh u w)),
      issued,
    )
    unfolding issue
    issue_lem =
        rw
          (
            create_ok deps.jwt deps.ciphers laws access u none w issuing.access,
            create_ok deps.jwt deps.ciphers laws refresh u none (read deps redis w) issuing.refresh,
          )
          (ground (
            arith,
            Laws.set_list_ok deps.redis redis u w.cache no_string (pair_of fp (new_refresh u w)),
          ))

  module _ (fp token u pair : String) (w v : World C D) (issuing : IsIssuing deps)
      (no_string : strings v.cache u ≡ none)
      (verified : verify_token deps token refresh w ≡ (ok u, v))
      (found : find_verified deps u fp token (lists v.cache u) v ≡ (ok (some pair), v)) where
    abbrev pub discarded : World C D
    discarded = (on_cache (Cache.discard deps.redis u pair) v).1

    pub strings-discarded : strings discarded.cache u ≡ none
    strings-discarded = Laws.strings-discard deps.redis redis u v.cache no_string pair u ∙ no_string

    abbrev pub refreshed : World C D
    refreshed = issued fp u discarded issuing strings-discarded

    -- A refresh whose pair is found discards the pair, then issues new tokens.
    pub verify_refresh_lem : verify_refresh deps fp token w ≡ (
      ok (
          tokens_expire
            (expiry deps.jwt deps.ciphers refresh none (read deps redis discarded))
            (new_access u discarded)
            (new_refresh u discarded)),
      refreshed,
    )
    unfolding verify_refresh
    verify_refresh_lem =
        rw (verified, Laws.get_list_lem deps.redis redis u v.cache no_string, found)
          (ground (
            arith,
            Laws.discard_ok deps.redis redis u v.cache no_string pair,
            issue_lem fp u discarded issuing strings-discarded,
          ))

    pub sessions-refreshed :
        (j : String)
        → sessions deps redis refreshed j ≡ (
            if u == j
            then pair_of fp (new_refresh u discarded)
              ∷ keep (λ x. not (x == pair)) (lists v.cache j)
            else lists v.cache j)
    sessions-refreshed j = ground (
      arith,
      Laws.lists-set_list deps.redis redis u discarded.cache strings-discarded
          (pair_of fp (new_refresh u discarded)) j,
      Laws.lists-discard deps.redis redis u v.cache no_string pair j,
    )

    pub strings-refreshed : strings refreshed.cache u ≡ none
    strings-refreshed =
        Laws.strings-set_list deps.redis redis u discarded.cache strings-discarded
          (pair_of fp (new_refresh u discarded)) u
        ∙ strings-discarded

  -- Without a pair the user's list is emptied and nothing is issued.
  module _ (fp token u : String) (w v : World C D) (no_string : strings v.cache u ≡ none)
      (verified : verify_token deps token refresh w ≡ (ok u, v))
      (missing : find_verified deps u fp token (lists v.cache u) v ≡ (ok none, v)) where
    pub verify_refresh_missing :
        verify_refresh deps fp token w
        ≡ (err (detailed forbidden "Token is not valid anymore"), (delete deps u v).1)
    unfolding verify_refresh
    verify_refresh_missing =
        rw (verified, Laws.get_list_lem deps.redis redis u v.cache no_string, missing)
          (ground (arith, Laws.delete_ok deps.redis redis (u ∷ []) v.cache))
