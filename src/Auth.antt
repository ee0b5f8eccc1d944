-- ===== src/Auth.antt =====
-- src/application/v1/services/auth.py: `AuthService`, over the JWT and the cache of
-- src/infrastructure. A UUID is its canonical text; `uuid.UUID(text)` is a parameter.
pub mod Pairs
pub mod Verify
pub mod Sessions
pub mod Refresh
pub mod Rotation
pub mod Separator
pub mod Logout
use fastapi_claude_template.Prelude.{
  ℕ, String, Bool, true, false, not, ◌&&◌, ◌||◌, Option, none, some, List, [], ◌∷◌, length, ltb,
  ◌==◌, if◌then◌else◌, lookup,
}
use fastapi_claude_template.Errors.{detailed, forbidden, value_error, type_error}
use fastapi_claude_template.Exec.{Exec, pure, raise, raise_if, ◌>>=◌, ◌>>◌}
use fastapi_claude_template.Redis.{Redis}
use fastapi_claude_template.Cache
use fastapi_claude_template.World.{World, on_cache}
use fastapi_claude_template.Jwt
use fastapi_claude_template.Jwt.{
  Claim, text, datetime, seconds, PyJwt, CipherSettings, TokenType, access, refresh, type_name,
}
use Pairs.{split, pair_of}

-- What the service is built from
pub record Deps (C : Type 0) : Type 0 where
  pub jwt : PyJwt
  pub ciphers : CipherSettings
  pub redis : Redis C
  -- `uuid.UUID(text)`; `none` is the `ValueError` of a badly formed text
  pub parse_uuid : String → Option String

abbrev pub default_tokens_count : ℕ
default_tokens_count = 5

pub record Tokens : Type 0 where
  pub access : String
  pub refresh : String

pub record TokensExpire : Type 0 where
  pub refresh_expire : ℕ
  pub tokens : Tokens

-- `payload.get("type") != token_type`
abbrev pub has_type : Option Claim → TokenType → Bool
has_type (some (text s)) typ = s == type_name typ
has_type _ typ = false

abbrev pub broken_separator : String
broken_separator = "Broken separator, try to login again. Token is not valid anymore"

module _ {C D : Type 0} (deps : Deps C) where
  abbrev pub create : TokenType → String → Exec (World C D) (ℕ × String)
  create typ sub = Jwt.create deps.jwt deps.ciphers typ sub none []

  abbrev pub delete : String → Exec (World C D) (Unit {0})
  delete key = on_cache (Cache.delete deps.redis (key ∷ []))

  -- `if len(tokens) > DEFAULT_TOKENS_COUNT:`
  unfoldable pub evict : String → List String → Exec (World C D) (Unit {0})
  evict user_uuid tokens =
      if ltb default_tokens_count (length tokens) then delete user_uuid else pure tt

  -- Both tokens, access first, then the pair in front of the user's list
  unfoldable pub issue : String → String → Exec (World C D) TokensExpire
  issue fingerprint user_uuid = do
    (_, access_token) ← create access user_uuid
    (expire, refresh_token) ← create refresh user_uuid
    on_cache (Cache.set_list deps.redis user_uuid (pair_of fingerprint refresh_token ∷ []) none)
    pure (record {
      refresh_expire = expire;
      tokens = record { access = access_token; refresh = refresh_token };
    })

  unfoldable pub login : String → String → Exec (World C D) TokensExpire
  login fingerprint user_uuid = do
    (_, access_token) ← create access user_uuid
    (expire, refresh_token) ← create refresh user_uuid
    tokens ← on_cache (Cache.get_list deps.redis user_uuid)
    evict user_uuid tokens
    on_cache (Cache.set_list deps.redis user_uuid (pair_of fingerprint refresh_token ∷ []) none)
    pure (record {
      refresh_expire = expire;
      tokens = record { access = access_token; refresh = refresh_token };
    })

  -- `uuid.UUID(user_id)`: of a text, and a `TypeError` or `AttributeError` of anything else
  unfoldable pub parse_sub : Option Claim → Exec (World C D) String
  parse_sub (some (text s)) = Jwt.or_raise (value_error "badly formed UUID") (deps.parse_uuid s)
  parse_sub _ = raise (type_error "UUID")

  unfoldable pub verify_token : String → TokenType → Exec (World C D) String
  verify_token token token_type = do
    payload ← Jwt.verify_token deps.jwt deps.ciphers token
    let actual_token_type = lookup "type" payload
    let user_id = lookup "sub" payload
    raise_if (not (has_type actual_token_type token_type)) (detailed forbidden "Invalid token")
    parse_sub user_id

  -- One round of the loop of `verify_refresh`: what `pair.split("::")` gives
  unfoldable pub find_verified :
      String → String → String → List String → Exec (World C D) (Option String)
  find_verified user_uuid fingerprint refresh_token [] = pure none
  find_verified user_uuid fingerprint refresh_token (pair ∷ pairs) =
      let rest = find_verified user_uuid fingerprint refresh_token pairs in
      elim (split pair) [
        | fp ∷ cached_token ∷ _ ↦
            if fp == fingerprint && cached_token == refresh_token then pure (some pair) else rest
        | _ ↦ delete user_uuid >> raise (detailed forbidden broken_separator)
      ]

  unfoldable pub verify_refresh : String → String → Exec (World C D) TokensExpire
  verify_refresh fingerprint refresh_token = do
    user_uuid ← verify_token refresh_token refresh
    token_pairs ← on_cache (Cache.get_list deps.redis user_uuid)
    verified ← find_verified user_uuid fingerprint refresh_token token_pairs
    elim verified [
      | none ↦ delete user_uuid >> raise (detailed forbidden "Token is not valid anymore")
      | some pair ↦
          on_cache (Cache.discard deps.redis user_uuid pair) >> issue fingerprint user_uuid
    ]

  -- The loop of `invalidate_refresh`: it ends at a broken pair or at the token's pair
  unfoldable pub drop_token : String → String → List String → Exec (World C D) (Unit {0})
  drop_token user_uuid refresh_token [] = pure tt
  drop_token user_uuid refresh_token (pair ∷ pairs) =
      let rest = drop_token user_uuid refresh_token pairs in
      elim (split pair) [
        | _ ∷ cached_token ∷ _ ↦
            if cached_token == refresh_token
            then on_cache (Cache.discard deps.redis user_uuid pair)
            else rest
        | _ ↦ delete user_uuid
      ]

  unfoldable pub invalidate_refresh : String → String → Exec (World C D) Bool
  invalidate_refresh refresh_token user_uuid = do
    _ ← verify_token refresh_token refresh
    token_pairs ← on_cache (Cache.get_list deps.redis user_uuid)
    drop_token user_uuid refresh_token token_pairs
    pure true
