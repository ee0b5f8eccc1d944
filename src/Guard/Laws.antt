-- ===== src/Guard/Laws.antt =====
-- Who gets past the guard of an endpoint.
use fastapi_claude_template.Prelude.{
  String, ◌≡◌, refl, sym, ap, ◌∙◌, Bool, true, false, ◌||◌, Option, none, some, List, [], ◌∷◌, map,
  any, arith, inl, inr, is_empty, ◌==◌,
}
use fastapi_claude_template.Exec.{ok}
use fastapi_claude_template.Exec.Laws.{run-cases}
use fastapi_claude_template.World.{World}
use fastapi_claude_template.Jwt.{access}
use fastapi_claude_template.Auth
use fastapi_claude_template.Db.{RoleName, Role, User, role_text}
use fastapi_claude_template.UseCases.{Env, UserResult, user_result}
use fastapi_claude_template.UseCases.Login.{find_user}
use fastapi_claude_template.UseCases.Permission.{permission, is_named, is_denied}
use fastapi_claude_template.UseCases.Permission.Laws.{permission_sound}
use fastapi_claude_template.Guard.{is_bearer, extract_bearer, authorize}

-- Whether a role is one of those that an endpoint names
abbrev pub is_one_of : List RoleName → Role → Bool
is_one_of roles role = any (λ name. role_text name == role_text role.name) roles

any_named :
    (roles : List RoleName) (role : Role)
    → any (λ q. is_named q role) (map some roles) ≡ is_one_of roles role
any_named [] role = refl
any_named (name ∷ roles) role =
    ap (λ b. (role_text name == role_text role.name) || b) (any_named roles role)

module _ (scheme_param : Option String → String × String) where
  extract_bearer-eq-ok :
      {S : Type 0} (header : Option String) (s s' : S) (token : String)
      → extract_bearer scheme_param header s ≡ (ok token, s')
      → (scheme_param header ≡ ((scheme_param header).0, token))
        × (is_bearer (scheme_param header).0 ≡ true)
        × (is_empty token ≡ false)
        × (s ≡ s')
  unfolding extract_bearer
  extract_bearer-eq-ok header s s' token h = ground arith

  module _ {C D : Type 0} (env : Env C D) where
    -- An endpoint that names its roles lets in only a request whose header is a bearer's with an
    -- access token that the session service verifies, of a user that the database returned for the
    -- token's UUID, who is active and has one of those roles.
    pub authorize_sound :
        (name : RoleName) (roles : List RoleName) (header : Option String) (w w' : World C D)
        (r : UserResult)
        → authorize scheme_param env (name ∷ roles) header w ≡ (ok r, w')
        → (token u : String) × (v : World C D) × (user : User) × (role : Role) × (is_bearer
              (scheme_param header).0
            ≡ true)
          × ((scheme_param header).1 ≡ token)
          × (Auth.verify_token env.auth token access w ≡ (ok u, v))
          × ((find_user env ("role" ∷ []) (some u) none v).0 ≡ ok user)
          × (user.active ≡ true)
          × (user.role ≡ some role)
          × (is_one_of (name ∷ roles) role ≡ true)
          × (r ≡ user_result user)
    unfolding authorize
    authorize_sound name roles header w w' r h =
        elim (run-cases (extract_bearer scheme_param header w)) [
          | inr (f, t, e) ↦ cc (rw (e, authorize) at h)
          | inl (token, t, e) ↦
              let (split_, bearer, full, same) = extract_bearer-eq-ok header w t token e in
              let (u, v, user, verified, found, permitted, shown) =
                permission_sound env (map some (name ∷ roles)) token w w' r (
                  ap (permission env (map some (name ∷ roles)) token) same
                  ∙ rw (e, authorize) at h) in
              (
                token,
                u,
                v,
                user,
                permitted.role,
                bearer,
                ap (λ p. p.1) split_,
                verified,
                found,
                permitted.active,
                permitted.loaded,
                sym (any_named (name ∷ roles) permitted.role)
                    ∙ allowed permitted.role permitted.allowed,
                shown,
              )
        ]
      where
        allowed :
            (role : Role)
            → is_denied (map some (name ∷ roles)) role ≡ false
            → any (λ q. is_named q role) (map some (name ∷ roles)) ≡ true
        allowed role h = ground (arith, h)
