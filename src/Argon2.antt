-- ===== src/Argon2.antt =====
-- `get_argon2_hasher` of src/infrastructure/security/argon2.py: what `PasswordHasher` is given. The
-- profiles of the argon2 package, as dictionaries, are a parameter.
use fastapi_claude_template.Prelude.{
  String, ◌≡◌, refl, ap, ◌∙◌, Bool, true, false, Option, none, some, [], ◌∷◌, Dict, lookup, insert,
  erase, merge, lookup-insert, lookup-erase, ◌==◌, if◌then◌else◌,
}
use fastapi_claude_template.Errors.{key_error}
use fastapi_claude_template.Exec.{Result, ok, err}

module _ {V : Type 0} (profiles : Dict (Dict V)) where
  -- `asdict(PROFILES[profile])`
  abbrev pub profile_or_raise : String → Option (Dict V) → Result (Dict V)
  profile_or_raise profile none = err (key_error profile)
  profile_or_raise profile (some parameters) = ok (erase "version" parameters)

  abbrev pub merged : Result (Dict V) → Dict V → Result (Dict V)
  merged (ok kw) kwargs = ok (merge kw kwargs)
  merged (err e) kwargs = err e

  unfoldable pub get_argon2_hasher : String → Dict V → Result (Dict V)
  unfolding lookup erase merge
  get_argon2_hasher profile kwargs =
      if profile == "DEFAULT"
      then merged (ok []) kwargs
      else merged (profile_or_raise profile (lookup profile profiles)) kwargs

module _ {V : Type 0} where
  abbrev pub or_else : Option V → Option V → Option V
  or_else none o = o
  or_else (some v) o = some v

  -- The last entry of a key, which is what a dict would hold
  abbrev pub last_of : String → Dict V → Option V
  last_of k [] = none
  last_of k ((j, v) ∷ d) = or_else (last_of k d) (if j == k then some v else none)

  or_else_assoc : (a b c : Option V) → or_else a (or_else b c) ≡ or_else (or_else a b) c
  or_else_assoc none b c = refl
  or_else_assoc (some v) b c = refl

  or_else_if :
      (b : Bool) (v : V) (o : Option V)
      → (if b then some v else o) ≡ or_else (if b then some v else none) o
  or_else_if true v o = refl
  or_else_if false v o = refl

  lookup-merge :
      (k : String) (d e : Dict V) → lookup k (merge d e) ≡ or_else (last_of k e) (lookup k d)
  unfolding merge
  lookup-merge k d [] = refl
  lookup-merge k d ((j, v) ∷ e) =
      lookup-merge k (insert j v d) e
      ∙ rw (lookup-insert j k v d, or_else_if (j == k) v (lookup k d))
          (or_else_assoc (last_of k e) (if j == k then some v else none) (lookup k d))

module _ {V : Type 0} (profiles : Dict (Dict V)) where
  -- What a known profile gives, in order of precedence: what the caller set, then the profile's
  -- parameter, except that a profile's version is never passed on.
  pub get_argon2_hasher_lem :
      (profile k : String) (parameters kwargs : Dict V)
      → (profile == "DEFAULT") ≡ false
      → lookup profile profiles ≡ some parameters
      → (kw : Dict V) × (get_argon2_hasher profiles profile kwargs ≡ ok kw)
        × (lookup k kw
            ≡ or_else (last_of k kwargs) (if "version" == k then none else lookup k parameters))
  unfolding get_argon2_hasher
  get_argon2_hasher_lem profile k parameters kwargs named known = (
    merge (erase "version" parameters) kwargs,
    rw (named, known) refl,
    lookup-merge k (erase "version" parameters) kwargs
        ∙ ap (or_else (last_of k kwargs)) (lookup-erase "version" k parameters),
  )
