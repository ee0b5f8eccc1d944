-- ===== src/Guard.antt =====
-- src/presentation/http/v1/guards/auth.py: `Authorization`. FastAPI's splitting of the header is a
-- parameter, and the request bus hands the request to the use case `permission`.
pub mod Laws
use Prim.Native.String
use Prim.Native.Char.{Char, code}
use fastapi_claude_template.Prelude.{
  ℕ, ◌+◌, ◌≡◌, refl, String, Bool, true, false, not, ◌&&◌, ◌||◌, Option, none, some, List, [], ◌∷◌,
  map, is_empty, ◌==◌, nat_beq, if◌then◌else◌,
}
use fastapi_claude_template.Errors.{detailed, unauthorized}
use fastapi_claude_template.Exec.{Exec, pure, raise, ◌>>=◌}
use fastapi_claude_template.World.{World}
use fastapi_claude_template.Db.{RoleName}
use fastapi_claude_template.UseCases.{Env, UserResult}
use fastapi_claude_template.UseCases.Permission.{permission}

-- Whether a letter is `l` in either case
abbrev is_letter : ℕ → Char → Bool
is_letter l c = nat_beq (code c) l || nat_beq (code c + 32) l

abbrev spells : String → List ℕ → Bool
spells String.[] [] = true
spells String.[] (l ∷ ls) = false
spells (String.◌∷◌ c s) [] = false
spells (String.◌∷◌ c s) (l ∷ ls) = is_letter l c && spells s ls

-- `scheme.lower() == "bearer"`: no character of a header outside A to Z is lowered to one of these
unfoldable pub is_bearer : String → Bool
is_bearer scheme = spells scheme (98 ∷ 101 ∷ 97 ∷ 114 ∷ 101 ∷ 114 ∷ [])

-- `not header` for a header that may be missing
abbrev is_missing : Option String → Bool
is_missing none = true
is_missing (some h) = is_empty h

module _ (scheme_param : Option String → String × String) where
  unfoldable pub extract_bearer : {S : Type 0} → Option String → Exec S String
  unfolding is_bearer
  extract_bearer header =
      let (scheme, token) = scheme_param header in
      if is_missing header || is_empty scheme || is_empty token
      then raise (detailed unauthorized "Not authenticated")
      else if not (is_bearer scheme)
      then raise (detailed unauthorized "Invalid authentication credentials")
      else pure token

  module _ {C D : Type 0} (env : Env C D) where
    -- `__call__`
    unfoldable pub authorize : List RoleName → Option String → Exec (World C D) UserResult
    unfolding extract_bearer
    authorize roles header = do token ← extract_bearer header; permission env (map some roles) token

bearer_tests :
    (is_bearer "Bearer" ≡ true) × (is_bearer "bEARER" ≡ true) × (is_bearer "Basic" ≡ false)
unfolding is_bearer
bearer_tests = (refl, refl, refl)
