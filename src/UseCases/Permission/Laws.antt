-- ===== src/UseCases/Permission/Laws.antt =====
-- What `permission` has established when it lets a request through.
use fastapi_claude_template.Prelude.{
  String, ◌≡◌, refl, ap, true, false, not, Option, none, some, List, [], ◌∷◌, arith, inl, inr,
  Bool-cases,
}
use fastapi_claude_template.Errors.{detailed, forbidden}
use fastapi_claude_template.Exec.{ok, Exec, pure, raise_if, ◌>>◌}
use fastapi_claude_template.Exec.Laws.{run-cases}
use fastapi_claude_template.World.{World}
use fastapi_claude_template.Jwt.{access}
use fastapi_claude_template.Auth
use fastapi_claude_template.Db.{Session, User, Role, RoleName}
use fastapi_claude_template.Db.Manager.{within_session, close_after}
use fastapi_claude_template.UseCases.{Env, UserResult, user_result}
use fastapi_claude_template.UseCases.Login.{find_user}
use fastapi_claude_template.UseCases.Permission.{is_denied, check_role, permission}

module _ {C D A : Type 0} (session : Session D) where
  -- A block returns what its body returned.
  pub within_session-eq-ok :
      (body : Exec (World C D) A) (w w' : World C D) (a : A)
      → within_session session body w ≡ (ok a, w')
      → (body w).0 ≡ ok a
  unfolding within_session close_after
  within_session-eq-ok body w w' a h = elim (run-cases (body w)) [
    | inl (b, w1, e) ↦ ground (arith, rw (e, within_session, close_after) at h)
    | inr (f, w1, e) ↦ ground (arith, rw (e, within_session, close_after) at h)
  ]

-- What the checks on the user ask for.
pub record IsPermitted (permissions : List (Option RoleName)) (user : User) : Type 0 where
  pub active : user.active ≡ true
  pub role : Role
  pub loaded : user.role ≡ some role
  pub allowed : is_denied permissions role ≡ false

module _ {C D : Type 0} (env : Env C D) where
  check_role-eq-ok :
      (permissions : List (Option RoleName)) (o : Option Role) (w w' : World C D)
      → check_role env permissions o w ≡ (ok tt, w')
      → (role : Role) × (o ≡ some role) × (is_denied permissions role ≡ false)
  unfolding check_role
  check_role-eq-ok permissions none w w' h = cc
  check_role-eq-ok permissions (some role) w w' h = (role, refl, ground arith)

  abbrev checked : List (Option RoleName) → User → Exec (World C D) UserResult
  checked permissions user = do
    raise_if (not user.active) (detailed forbidden "You have been blocked")
    check_role env permissions user.role
    pure (user_result user)

  checked-eq-ok :
      (permissions : List (Option RoleName)) (user : User) (w w' : World C D) (r : UserResult)
      → checked permissions user w ≡ (ok r, w')
      → IsPermitted permissions user × (r ≡ user_result user)
  checked-eq-ok permissions user w w' r h = elim (Bool-cases user.active) [
    | inr blocked ↦ ground arith
    | inl active ↦ elim (run-cases (check_role env permissions user.role w)) [
      | inr (f, w1, e) ↦ ground (arith, e)
      | inl (_, w1, e) ↦
          let (role, loaded, allowed) = check_role-eq-ok permissions user.role w w1 e in
          (
            record { active = active; role = role; loaded = loaded; allowed = allowed },
            ground (arith, e),
          )
    ]
  ]

  -- A request that is let through has an access token of a user that the database returned for the
  -- token's UUID; the user is active and has a role, one of those that were asked for if any were.
  pub permission_sound :
      (permissions : List (Option RoleName)) (token : String) (w w' : World C D) (r : UserResult)
      → permission env permissions token w ≡ (ok r, w')
      → (u : String) × (v : World C D) × (user : User) × (Auth.verify_token env.auth token access w
          ≡ (ok u, v))
        × ((find_user env ("role" ∷ []) (some u) none v).0 ≡ ok user)
        × IsPermitted permissions user
        × (r ≡ user_result user)
  unfolding permission
  permission_sound permissions token w w' r h =
      elim (run-cases (Auth.verify_token env.auth token access w)) [
        | inr (f, v, e) ↦ cc (rw (e, permission) at h)
        | inl (u, v, e) ↦
            let returned = within_session-eq-ok env.session _ v w' r (rw (e, permission) at h) in
            elim (run-cases (find_user env ("role" ∷ []) (some u) none v)) [
              | inr (f, x, e2) ↦ cc (rw e2 at returned)
              | inl (user, x, e2) ↦
                  let (permitted, same) =
                    checked-eq-ok permissions user x (checked permissions user x).1 r
                      (ap (λ o. (o, (checked permissions user x).1)) (rw e2 at returned)) in
                  (u, v, user, e, ap (λ p. p.0) e2, permitted, same)
            ]
      ]
