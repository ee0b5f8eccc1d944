-- ===== src/Jwt.antt =====
-- src/infrastructure/security/jwt.py over the PyJWT library, which is a parameter.
pub mod Laws
use fastapi_claude_template.Prelude.{
  ℕ, zero, suc, ◌+◌, ◌*◌, ◌/◌, ◌≤◌, ◌<◌, String, ◌≡◌, Bool, true, Option, none, some, List, [], ◌∷◌,
  leb, if◌then◌else◌, Dict, lookup, merge,
}
use fastapi_claude_template.Errors.{Failure, detailed, conflict, unauthorized, value_error}
use fastapi_claude_template.Exec.{Exec, pure, raise, raise_if, ◌>>=◌, ◌>>◌}
use fastapi_claude_template.World.{World, now, microseconds}

-- A claim's value: a text, a `datetime`, or what a library gives back for one, a number of seconds.
pub data Claim : Type 0 where
  text : String → Claim
  datetime : ℕ → Claim
  seconds : ℕ → Claim

abbrev pub Claims : Type 0
Claims = Dict Claim

-- `jwt.encode`, `jwt.decode` at a time, and `base64.b64decode`. `none` is a `PyJWTError`, for
-- `b64decode` a `binascii.Error`.
pub record PyJwt : Type 0 where
  pub encode : Claims → String → String → Option String
  pub decode : ℕ → String → String → List String → Option Claims
  pub b64decode : String → Option String

-- The keys of src/settings/core.py
pub record CipherSettings : Type 0 where
  pub algorithm : String
  pub secret_key : String
  pub public_key : String
  pub access_token_expire_seconds : ℕ
  pub refresh_token_expire_seconds : ℕ

pub data TokenType : Type 0 where
  access refresh : TokenType

abbrev pub type_name : TokenType → String
type_name access = "access"
type_name refresh = "refresh"

-- The lifetime: `expires_delta` if it is given and not zero, else the setting of the type.
abbrev pub lifetime : CipherSettings → TokenType → Option ℕ → ℕ
lifetime c typ (some (suc n)) = suc n
lifetime c access _ = c.access_token_expire_seconds
lifetime c refresh _ = c.refresh_token_expire_seconds

abbrev pub or_raise {ℓ κ} : {S : Type ℓ} {A : Type κ} → Failure → Option A → Exec S A
or_raise e none = raise e
or_raise e (some a) = pure a

module _ {C D : Type 0} (lib : PyJwt) (ciphers : CipherSettings) where
  unfoldable pub create : TokenType → String → Option ℕ → Claims → Exec (World C D) (ℕ × String)
  create typ sub expires_delta kw = do
    issued ← now
    let expire = issued + lifetime ciphers typ expires_delta * microseconds
    raise_if (leb expire issued) (detailed conflict "Invalid expiration delta was provided")
    let to_encode =
        ("exp", datetime expire)
        ∷ ("sub", text sub)
        ∷ ("iat", datetime issued)
        ∷ ("type", text (type_name typ))
        ∷ []
    key ← or_raise (value_error "binascii.Error") (lib.b64decode ciphers.secret_key)
    token ←
        or_raise (detailed unauthorized "Token is expired")
          (lib.encode (merge to_encode kw) key ciphers.algorithm)
    pure (expire, token)

  unfoldable pub verify_token : String → Exec (World C D) Claims
  verify_token token = do
    key ← or_raise (value_error "binascii.Error") (lib.b64decode ciphers.public_key)
    at ← now
    or_raise (detailed unauthorized "Token is invalid or expired")
        (lib.decode at token key (ciphers.algorithm ∷ []))
