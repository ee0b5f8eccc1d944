-- ===== src/Auth/Verify.antt =====
-- What a token has to be for `AuthService.verify_token` to accept it.
use fastapi_claude_template.Prelude.{
  ℕ, suc, ◌≤◌, ◌<◌, ◌*◌, ◌/◌, String, ◌≡◌, refl, ap, ◌≢◌, true, Option, none, some, eq_refl, eq_iff,
  arith, lookup, inl, inr, Bool-cases,
}
use fastapi_claude_template.Errors.{detailed, forbidden}
use fastapi_claude_template.Exec.{ok, err}
use fastapi_claude_template.Exec.Laws.{run-cases}
use fastapi_claude_template.World.{World, microseconds}
use fastapi_claude_template.Jwt
use fastapi_claude_template.Jwt.{
  Claim, Claims, text, datetime, seconds, TokenType, access, refresh, type_name,
}
use fastapi_claude_template.Jwt.Laws.{IsPyJwt, verify_token-create, world-verify_token}
use fastapi_claude_template.Auth.{Deps, create, has_type, parse_sub, verify_token}

type_name-injective : (a b : TokenType) → type_name a ≡ type_name b → a ≡ b
type_name-injective a b h = ground (arith, eq_iff "access" "refresh", eq_iff "refresh" "access")

has_type-eq :
    (o : Option Claim) (typ : TokenType) → has_type o typ ≡ true → o ≡ some (text (type_name typ))
has_type-eq (some (text s)) typ h = ap (λ x. some (text x)) ((eq_iff s (type_name typ)).0 h)
has_type-eq (some (datetime n)) typ h = cc
has_type-eq (some (seconds n)) typ h = cc
has_type-eq none typ h = cc

module _ {C : Type 0} (deps : Deps C) where
  -- What accepted claims say.
  pub record IsAccepted (typ : TokenType) (u : String) (c : Claims) : Type 0 where
    pub typed : lookup "type" c ≡ some (text (type_name typ))
    pub sub : String
    pub named : lookup "sub" c ≡ some (text sub)
    pub parsed : deps.parse_uuid sub ≡ some u

module _ {C D : Type 0} (deps : Deps C) where
  parse_sub-eq :
      (o : Option Claim) (u : String) (w w' : World C D)
      → parse_sub deps o w ≡ (ok u, w')
      → (s : String) × (o ≡ some (text s)) × (deps.parse_uuid s ≡ some u) × (w' ≡ w)
  unfolding parse_sub
  parse_sub-eq (some (text s)) u w w' h = (s, refl, ground arith, ground arith)
  parse_sub-eq (some (datetime n)) u w w' h = cc
  parse_sub-eq (some (seconds n)) u w w' h = cc
  parse_sub-eq none u w w' h = cc

  -- A token that was accepted as of one type decodes to claims of that type, whose subject is a
  -- UUID, the one that is returned.
  pub verify_token-IsAccepted :
      (token : String) (typ : TokenType) (u : String) (w w' : World C D)
      → verify_token deps token typ w ≡ (ok u, w')
      → (c : Claims) × (Jwt.verify_token deps.jwt deps.ciphers token w ≡ (ok c, w'))
        × IsAccepted deps typ u c
  unfolding verify_token
  verify_token-IsAccepted token typ u w w' h =
      elim (run-cases (Jwt.verify_token deps.jwt deps.ciphers token w)) [
        | inr (f, w1, h1) ↦ cc (rw (h1, verify_token) at h)
        | inl (c, w1, h1) ↦
            let h' = rw h1 at h in
            elim (Bool-cases (has_type (lookup "type" c) typ)) [
              | inr other ↦ cc (rw other at h')
              | inl same ↦
                  let (s, named, parsed, unchanged) =
                    parse_sub-eq (lookup "sub" c) u w1 w' (rw same at h') in
                  (
                    c,
                    rw unchanged h1,
                    record {
                      typed = has_type-eq _ typ same;
                      sub = s;
                      named = named;
                      parsed = parsed;
                    },
                  )
            ]
      ]

  cache-jwt :
      (token : String) (w : World C D)
      → (Jwt.verify_token deps.jwt deps.ciphers token w).1.cache ≡ w.cache
  cache-jwt token w = ground (arith, world-verify_token deps.jwt deps.ciphers token w)

  -- Whatever the result, nothing is written.
  pub cache-verify_token :
      (token : String) (typ : TokenType) (w : World C D)
      → (verify_token deps token typ w).1.cache ≡ w.cache
  unfolding verify_token parse_sub
  cache-verify_token token typ w = ground (arith, cache-jwt token w)

  -- A token that decodes to claims of one type and a UUID is accepted as of that type.
  pub verify_token_ok :
      (token : String) (typ : TokenType) (u : String) (w w' : World C D) (c : Claims)
      → Jwt.verify_token deps.jwt deps.ciphers token w ≡ (ok c, w')
      → IsAccepted deps typ u c
      → verify_token deps token typ w ≡ (ok u, w')
  unfolding verify_token parse_sub
  verify_token_ok token typ u w w' c h accepted =
      rw (h, accepted.typed, accepted.named)
        (ground (arith, accepted.parsed, eq_refl (type_name typ)))

  -- A token of the other type is refused.
  pub verify_token_wrong_type :
      (token : String) (typ other : TokenType) (w w' : World C D) (c : Claims)
      → Jwt.verify_token deps.jwt deps.ciphers token w ≡ (ok c, w')
      → lookup "type" c ≡ some (text (type_name other))
      → other ≢ typ
      → verify_token deps token typ w ≡ (err (detailed forbidden "Invalid token"), w')
  unfolding verify_token
  verify_token_wrong_type token typ other w w' c h typed differ =
      rw (h, typed)
        (ground (arith, eq_iff (type_name other) (type_name typ), type_name-injective other typ))

module _ {C D : Type 0} (deps : Deps C) (laws : IsPyJwt deps.jwt deps.ciphers) where
  -- A token that was issued to a user is accepted as of its type, between its issue and its expiry,
  -- and refused as of the other type.
  pub verify_token-issued :
      (typ other : TokenType) (u : String) (w w' v : World C D) (e : ℕ) (t : String)
      → typ ≢ other
      → deps.parse_uuid u ≡ some u
      → create deps typ u w ≡ (ok (e, t), w')
      → w.times w.reads ≤ v.times v.reads
      → v.times v.reads < e / microseconds * microseconds
      → (verify_token deps t typ v ≡ (ok u, record v { reads = suc v.reads }))
        × (verify_token deps t other v
            ≡ (err (detailed forbidden "Invalid token"), record v { reads = suc v.reads }))
  verify_token-issued typ other u w w' v e t differ uuid h before after =
      let (c, decoded, named, typed) =
        verify_token-create deps.jwt deps.ciphers laws typ u none w v e t w' h before after in
      (
        verify_token_ok deps t typ u v _ c decoded
            (record { typed = typed; sub = u; named = named; parsed = uuid }),
        verify_token_wrong_type deps t other typ v _ c decoded typed differ,
      )
