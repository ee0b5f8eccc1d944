-- ===== src/Auth/Sessions.antt =====
-- The pairs that a user's list holds after a login.
use mathlib.Core.Path.{subst₂}
use fastapi_claude_template.Prelude.{
  ℕ, suc, ◌⊎◌, ◌≤◌, String, ◌≡◌, sym, ap, ◌∙◌, true, none, List, [], ◌∷◌, length, ltb, ◌==◌,
  eq_refl, eq_iff, if◌then◌else◌, arith, inl, inr,
}
use fastapi_claude_template.Errors.{Failure}
use fastapi_claude_template.Exec.{ok, err}
use fastapi_claude_template.Exec.Laws.{run-cases, ok_path}
use fastapi_claude_template.Redis.{IsRedis, is_literal}
use fastapi_claude_template.Cache
use fastapi_claude_template.Cache.Laws
use fastapi_claude_template.World.{World, on_cache}
use fastapi_claude_template.Jwt.Laws.{world-create}
use fastapi_claude_template.Jwt.{TokenType, access, refresh}
use fastapi_claude_template.Auth.{Deps, TokensExpire, create, evict, login, default_tokens_count}
use fastapi_claude_template.Auth.Pairs.{pair_of}

abbrev pub tokens_expire : ℕ → String → String → TokensExpire
tokens_expire e a t = record { refresh_expire = e; tokens = record { access = a; refresh = t } }

module _ {C D : Type 0} (deps : Deps C) (redis : IsRedis deps.redis) where
  open redis use {strings, lists}

  -- The user's key is free of pattern characters and holds no string.
  pub record IsUser (user_uuid : String) (w : World C D) : Type 0 where
    pub literal : is_literal user_uuid ≡ true
    pub no_string : strings w.cache user_uuid ≡ none

  abbrev pub sessions : World C D → String → List String
  sessions w user_uuid = lists w.cache user_uuid

  abbrev pub read : World C D → World C D
  read w = record w { reads = suc w.reads }

  module _ (u : String) (tokens : List String) (w : World C D) (user : IsUser u w) where
    evict_ok : (evict deps u tokens w).0 ≡ ok tt
    unfolding evict
    evict_ok = ground (arith, Laws.delete_ok deps.redis redis (u ∷ []) w.cache)

    sessions-evict :
        (j : String)
        → sessions (evict deps u tokens w).1 j
          ≡ (if u == j then (if ltb 5 (length tokens) then [] else sessions w j) else sessions w j)
    unfolding evict
    sessions-evict j =
        ground (arith, Laws.lists-delete_literal deps.redis redis u w.cache j user.literal)

    strings-evict : strings (evict deps u tokens w).1.cache u ≡ none
    unfolding evict
    strings-evict = ground (
      arith,
      Laws.strings-delete_literal deps.redis redis u w.cache u user.literal,
      user.no_string,
      eq_refl u,
    )

    reads-evict : (evict deps u tokens w).1.reads ≡ w.reads
    unfolding evict
    reads-evict = ground arith

  -- A login that returned, step by step.
  pub record IsLogin (fp u : String) (w : World C D) (r : TokensExpire) (w' : World C D)
      : Type 0 where
    pub access_expire : ℕ
    pub access_issued : create deps access u w ≡ (ok (access_expire, r.tokens.access), read w)
    pub refresh_issued :
        create deps refresh u (read w) ≡ (ok (r.refresh_expire, r.tokens.refresh), read (read w))
    pub stored :
        (j : String)
        → sessions w' j ≡ (
            if u == j
            then pair_of fp r.tokens.refresh
              ∷ (if ltb default_tokens_count (length (sessions w j)) then [] else sessions w j)
            else sessions w j)
    pub no_string : strings w'.cache u ≡ none

  create-cases :
      (typ : TokenType) (u : String) (w : World C D)
      → ((e : ℕ) × (t : String) × (create deps typ u w ≡ (ok (e, t), read w)))
        ⊎ ((f : Failure) × (create deps typ u w ≡ (err f, read w)))
  create-cases typ u w =
      let after = world-create deps.jwt deps.ciphers typ u none w in
      elim (run-cases (create deps typ u w)) [
        | inl ((e, t), w1, h) ↦
            inl (e, t, h ∙ ap (λ v. (ok (e, t), v)) (sym (ap (λ p. p.1) h) ∙ after))
        | inr (f, w1, h) ↦ inr (f, h ∙ ap (λ v. (err f, v)) (sym (ap (λ p. p.1) h) ∙ after))
      ]

  module _ (fp u : String) (w : World C D) (user : IsUser u w) where
    abbrev evicted : World C D
    evicted = (evict deps u (sessions w u) (read (read w))).1

    IsUser-read : IsUser u (read (read w))
    IsUser-read = record { literal = user.literal; no_string = user.no_string }

    strings-evicted : strings evicted.cache u ≡ none
    strings-evicted = strings-evict u (sessions w u) (read (read w)) IsUser-read

    abbrev final : String → World C D
    final t = (on_cache (Cache.set_list deps.redis u (pair_of fp t ∷ []) none) evicted).1

    login_lem :
        {e1 e2 : ℕ} {a t : String}
        → create deps access u w ≡ (ok (e1, a), read w)
        → create deps refresh u (read w) ≡ (ok (e2, t), read (read w))
        → login deps fp u w ≡ (ok (tokens_expire e2 a t), final t)
    unfolding login
    login_lem {t} h1 h2 =
        rw (h1, h2, Laws.get_list_lem deps.redis redis u w.cache user.no_string)
          (ground (
            arith,
            evict_ok u (sessions w u) (read (read w)) IsUser-read,
            Laws.set_list_ok deps.redis redis u evicted.cache strings-evicted (pair_of fp t),
          ))

    sessions-final :
        (t j : String)
        → sessions (final t) j ≡ (
            if u == j
            then pair_of fp t
              ∷ (if ltb default_tokens_count (length (sessions w j)) then [] else sessions w j)
            else sessions w j)
    sessions-final t j = ground (
      arith,
      Laws.lists-set_list deps.redis redis u evicted.cache strings-evicted (pair_of fp t) j,
      sessions-evict u (sessions w u) (read (read w)) IsUser-read j,
      eq_iff u j,
    )

    strings-final : (t : String) → strings (final t).cache u ≡ none
    strings-final t =
        Laws.strings-set_list deps.redis redis u evicted.cache strings-evicted (pair_of fp t) u
        ∙ strings-evicted

    login_failed_access :
        {f : Failure}
        → create deps access u w ≡ (err f, read w)
        → login deps fp u w ≡ (err f, read w)
    unfolding login
    login_failed_access h1 = rw h1

    login_failed_refresh :
        {e1 : ℕ} {a : String} {f : Failure}
        → create deps access u w ≡ (ok (e1, a), read w)
        → create deps refresh u (read w) ≡ (err f, read (read w))
        → login deps fp u w ≡ (err f, read (read w))
    unfolding login
    login_failed_refresh h1 h2 = rw (h1, h2)

    pub login-IsLogin :
        {r : TokensExpire} {w' : World C D} → login deps fp u w ≡ (ok r, w') → IsLogin fp u w r w'
    login-IsLogin {r} {w'} h = elim (create-cases access u w) [
      | inr (f, h1) ↦ cc (login_failed_access h1)
      | inl (e1, a, h1) ↦ elim (create-cases refresh u (read w)) [
        | inr (f, h2) ↦ cc (login_failed_refresh h1 h2)
        | inl (e2, t, h2) ↦
            let same = sym (login_lem h1 h2) ∙ h in
            subst₂ (λ r w'. IsLogin fp u w r w') (ok_path (ap (λ p. p.0) same)) (ap (λ p. p.1) same)
              (record {
                access_expire = e1;
                access_issued = h1;
                refresh_issued = h2;
                stored = sessions-final t;
                no_string = strings-final t;
              })
      ]
    ]

  -- After a login that returned, the user's list starts with the new pair. Behind it are the pairs
  -- that were there, or none if there were more than five; no other user's list changes.
  pub sessions-login :
      (fp u : String) (w : World C D) (r : TokensExpire) (w' : World C D)
      → IsUser u w
      → login deps fp u w ≡ (ok r, w')
      → (j : String)
      → sessions w' j ≡ (
          if u == j
          then pair_of fp r.tokens.refresh
            ∷ (if ltb default_tokens_count (length (sessions w j)) then [] else sessions w j)
          else sessions w j)
  sessions-login fp u w r w' user h = (login-IsLogin fp u w user h).stored

  -- A login never leaves more than six pairs, whatever the list held before.
  pub length-sessions-login :
      (fp u : String) (w : World C D) (r : TokensExpire) (w' : World C D)
      → IsUser u w
      → login deps fp u w ≡ (ok r, w')
      → (1 ≤ length (sessions w' u)) × (length (sessions w' u) ≤ suc default_tokens_count)
  length-sessions-login fp u w r w' user h =
      ground (arith, sessions-login fp u w r w' user h u, eq_refl u)

  -- A login that raised has changed nobody's list.
  pub sessions-login_failed :
      (fp u : String) (w : World C D) (f : Failure) (w' : World C D)
      → IsUser u w
      → login deps fp u w ≡ (err f, w')
      → w'.cache ≡ w.cache
  sessions-login_failed fp u w f w' user h = elim (create-cases access u w) [
    | inr (g, h1) ↦ ap (λ p. p.1.cache) (sym h ∙ login_failed_access fp u w user h1)
    | inl (e1, a, h1) ↦ elim (create-cases refresh u (read w)) [
      | inr (g, h2) ↦ ap (λ p. p.1.cache) (sym h ∙ login_failed_refresh fp u w user h1 h2)
      | inl (e2, t, h2) ↦ cc (login_lem fp u w user h1 h2)
    ]
  ]
