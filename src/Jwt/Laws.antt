-- ===== src/Jwt/Laws.antt =====
-- Issuing a token and verifying it.
use fastapi_claude_template.Prelude.{
  none, ℕ, suc, ◌+◌, ◌*◌, ◌/◌, ◌≤◌, ◌<◌, String, ◌≡◌, refl, true, Option, some, [], ◌∷◌, lookup,
  merge, arith, Option-cases, inl, inr, ◌⊎◌, no_colon,
}
use fastapi_claude_template.Errors.{detailed, conflict}
use fastapi_claude_template.Exec.{ok, err}
use fastapi_claude_template.World.{World, microseconds}
use fastapi_claude_template.Jwt.{
  text, datetime, Claims, PyJwt, CipherSettings, TokenType, type_name, lifetime, create,
  verify_token,
}

-- What PyJWT documents, for a configured key pair and algorithm that it supports: a token is the
-- text that signing the claims gives, three base64url segments joined by full stops; and it decodes
-- to those claims between its `iat` and its `exp`, which it keeps in whole seconds.
pub record IsPyJwt (lib : PyJwt) (ciphers : CipherSettings) : Type 0 where
  pub key : String
  pub public_key : String
  pub secret : lib.b64decode ciphers.secret_key ≡ some key
  pub public : lib.b64decode ciphers.public_key ≡ some public_key
  pub signs : Claims → String
  pub encode_lem : (c : Claims) → lib.encode c key ciphers.algorithm ≡ some (signs c)
  pub plain : (c : Claims) → no_colon (signs c) ≡ true
  pub claims_of : Claims → Claims
  pub round_trip :
      (c : Claims) (at issued expire : ℕ)
      → lookup "iat" c ≡ some (datetime issued)
      → lookup "exp" c ≡ some (datetime expire)
      → lookup "aud" c ≡ none
      → lookup "nbf" c ≡ none
      → issued ≤ at
      → at < expire / microseconds * microseconds
      → lib.decode at (signs c) public_key (ciphers.algorithm ∷ []) ≡ some (claims_of c)
  pub keeps_text :
      (c : Claims) (k s : String)
      → lookup k c ≡ some (text s)
      → lookup k (claims_of c) ≡ some (text s)

abbrev pub standard_claims : TokenType → String → ℕ → ℕ → Claims
standard_claims typ sub issued expire =
    ("exp", datetime expire)
    ∷ ("sub", text sub)
    ∷ ("iat", datetime issued)
    ∷ ("type", text (type_name typ))
    ∷ []

module _ {C D : Type 0} (lib : PyJwt) (ciphers : CipherSettings) where
  abbrev pub expiry : TokenType → Option ℕ → World C D → ℕ
  expiry typ delta w = w.times w.reads + lifetime ciphers typ delta * microseconds

  -- A token that was issued: its expiry, and the claims that were signed.
  pub record IsIssued (typ : TokenType) (sub : String) (delta : Option ℕ) (w : World C D) (e : ℕ)
      (t : String) : Type 0 where
    pub key : String
    pub secret : lib.b64decode ciphers.secret_key ≡ some key
    pub expires : e ≡ expiry typ delta w
    pub later : w.times w.reads < e
    pub signed :
        lib.encode (standard_claims typ sub (w.times w.reads) e) key ciphers.algorithm ≡ some t

  pub create-IsIssued :
      (typ : TokenType) (sub : String) (delta : Option ℕ) (w : World C D) {e : ℕ} {t : String}
      {w' : World C D}
      → create lib ciphers typ sub delta [] w ≡ (ok (e, t), w')
      → IsIssued typ sub delta w e t
  unfolding create merge
  create-IsIssued typ sub delta w h = elim (Option-cases (lib.b64decode ciphers.secret_key)) [
    | inl missing ↦ ground arith
    | inr (key, found) ↦ record {
      key = key;
      secret = found;
      expires = ground arith;
      later = ground arith;
      signed = ground arith;
    }
  ]

  -- Reading the clock is the only change, whatever the result.
  pub world-create :
      (typ : TokenType) (sub : String) (delta : Option ℕ) (w : World C D)
      → (create lib ciphers typ sub delta [] w).1 ≡ record w { reads = suc w.reads }
  unfolding create
  world-create typ sub delta w = ground arith

  pub world-verify_token :
      (t : String) (w : World C D)
      → ((verify_token lib ciphers t w).1 ≡ w)
        ⊎ ((verify_token lib ciphers t w).1 ≡ record w { reads = suc w.reads })
  unfolding verify_token
  world-verify_token t w = ground arith

  -- With no lifetime, as in the default settings, no token is issued.
  pub create-conflict :
      (typ : TokenType) (sub : String) (delta : Option ℕ) (w : World C D)
      → lifetime ciphers typ delta ≡ 0
      → (create lib ciphers typ sub delta [] w).0
        ≡ err (detailed conflict "Invalid expiration delta was provided")
  unfolding create
  create-conflict typ sub delta w h = ground arith

module _ {C D : Type 0} (lib : PyJwt) (ciphers : CipherSettings) (laws : IsPyJwt lib ciphers) where
  open laws use {claims_of, signs}

  -- The token that `create` signs at the time that the clock shows.
  abbrev pub issued_token : TokenType → String → Option ℕ → World C D → String
  issued_token typ sub delta w =
      signs (standard_claims typ sub (w.times w.reads) (expiry lib ciphers typ delta w))

  pub create_ok :
      (typ : TokenType) (sub : String) (delta : Option ℕ) (w : World C D)
      → 0 < lifetime ciphers typ delta
      → create lib ciphers typ sub delta [] w ≡ (
        ok (expiry lib ciphers typ delta w, issued_token typ sub delta w),
        record w { reads = suc w.reads },
      )
  unfolding create merge
  create_ok typ sub delta w h = ground (
    arith,
    laws.secret,
    laws.encode_lem (standard_claims typ sub (w.times w.reads) (expiry lib ciphers typ delta w)),
  )

  -- A token that was issued is verified from its issue to its expiry, in whole seconds, and gives
  -- back its subject and its type.
  pub verify_token-create :
      (typ : TokenType) (sub : String) (delta : Option ℕ) (w v : World C D) (e : ℕ) (t : String)
      (w' : World C D)
      → create lib ciphers typ sub delta [] w ≡ (ok (e, t), w')
      → w.times w.reads ≤ v.times v.reads
      → v.times v.reads < e / microseconds * microseconds
      → (c : Claims) × (verify_token lib ciphers t v ≡ (ok c, record v { reads = suc v.reads }))
        × (lookup "sub" c ≡ some (text sub))
        × (lookup "type" c ≡ some (text (type_name typ)))
  unfolding verify_token lookup
  verify_token-create typ sub delta w v e t w' h before after =
      let issued = create-IsIssued lib ciphers typ sub delta w h in
      let c = standard_claims typ sub (w.times w.reads) e in
      let key_eq : issued.key ≡ laws.key = ground (arith, issued.secret, laws.secret) in
      let signed : signs c ≡ t = ground (arith, rw key_eq at issued.signed, laws.encode_lem c) in
      let decoded : lib.decode (v.times v.reads) t laws.public_key (ciphers.algorithm ∷ [])
          ≡ some (claims_of c) =
        rw (← signed) (laws.round_trip c _ _ _ refl refl refl refl before after) in
      (
        claims_of c,
        rw (laws.public, decoded),
        laws.keeps_text c "sub" sub refl,
        laws.keeps_text c "type" (type_name typ) refl,
      )
