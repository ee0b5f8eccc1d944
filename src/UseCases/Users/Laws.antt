-- ===== src/UseCases/Users/Laws.antt =====
-- The user use cases: transactions, and what is sent to the database.
use fastapi_claude_template.Prelude.{
  suc, String, Bool, ◌≡◌, refl, sym, ap, ◌∙◌, fun_ext, [], ◌∷◌, ◌++◌, arith,
}
use fastapi_claude_template.Errors.{Failure}
use fastapi_claude_template.Exec.{err, Exec, pure, ◌>>=◌}
use fastapi_claude_template.World.{World, on_db}
use fastapi_claude_template.Db.{Session, User, Values, text, flag, equals}
use fastapi_claude_template.Db.Crud
use fastapi_claude_template.Db.Users
use fastapi_claude_template.Db.Result.{RepositoryResult, result}
use fastapi_claude_template.Db.Result.Laws.{state-on_integrity}
use fastapi_claude_template.Db.Manager.{within}
use fastapi_claude_template.Db.Manager.Atomic.{
  Keeps, IsTransactional, Uncommitted, Closes, bind-Uncommitted, within_atomic,
}
use fastapi_claude_template.UseCases.{Env, UserResult, user_result, hash_password}
use fastapi_claude_template.UseCases.Users.{
  UpdateUserRequest, Field, unset, sent_null, sent, dump_field, dump_password, create_user,
  update_user,
}

module _ {D T : Type 0} (session : Session D) (tx : IsTransactional T session) where
  open tx use {committed}

  pub create-Keeps : (v : Values) → Keeps committed (Users.create session v)
  unfolding Users.create Crud.insert
  create-Keeps v d = rw state-on_integrity (ground (arith, tx.users.insert v d))

  update-Keeps : (u : String) (v : Values) → Keeps committed (Users.update session u v)
  unfolding Users.update Crud.update
  update-Keeps u v d =
      rw state-on_integrity (ground (arith, tx.users.update (equals "uuid" (text u) ∷ []) v d))

module _ {C D T : Type 0} (env : Env C D) (tx : IsTransactional T env.session) where
  open tx use {committed}

  result-Uncommitted :
      {A : Type 0} (r : RepositoryResult A) → Uncommitted {C = C} env.session tx (result r)
  unfolding result
  result-Uncommitted r w = ground arith

  hash-Uncommitted : (plain : String) → Uncommitted env.session tx (hash_password env plain)
  unfolding hash_password
  hash-Uncommitted plain w = refl

  -- The last steps of both blocks
  finish-Uncommitted :
      (m : Exec D (RepositoryResult User))
      → Keeps committed m
      → Uncommitted {C = C} env.session tx
          (on_db m >>= λ r. result r >>= λ user. pure (user_result user))
  finish-Uncommitted m keeps =
      bind-Uncommitted env.session tx (on_db m) _ (λ w. keeps w.db)
        λ r. bind-Uncommitted env.session tx (result r) _ (result-Uncommitted r) (λ user w. refl)

  -- A creation that raised, at whatever step, has stored nothing, if closing the session does not
  -- raise.
  pub create_user_atomic :
      (login password role_uuid : String) (w w' : World C D) (e : Failure)
      → Closes env.session tx
      → create_user env login password role_uuid w ≡ (err e, w')
      → committed w'.db ≡ committed w.db
  unfolding create_user
  create_user_atomic login password role_uuid w w' e closes h =
      within_atomic env.session tx _ w w' e closes
        (bind-Uncommitted env.session tx (hash_password env password) _ (hash-Uncommitted password)
          λ hashed. finish-Uncommitted _ (create-Keeps env.session tx _))
        h

  dump_password-Uncommitted :
      (password : Field String) → Uncommitted env.session tx (dump_password env password)
  unfolding dump_password hash_password
  dump_password-Uncommitted unset w = refl
  dump_password-Uncommitted sent_null w = refl
  dump_password-Uncommitted (sent plain) w = refl

  -- An update that raised, at whatever step, has stored nothing, if closing the session does not raise.
  pub update_user_atomic :
      (request : UpdateUserRequest) (w w' : World C D) (e : Failure)
      → Closes env.session tx
      → update_user env request w ≡ (err e, w')
      → committed w'.db ≡ committed w.db
  unfolding update_user
  update_user_atomic request w w' e closes h =
      within_atomic env.session tx _ w w' e closes
        (bind-Uncommitted env.session tx (dump_password env request.password) _
          (dump_password-Uncommitted request.password)
          λ fields. finish-Uncommitted _ (update-Keeps env.session tx request.user_uuid _))
        h

-- What `update_user` sends for each field of a request
module _ {C D : Type 0} (env : Env C D) where
  -- The values of the statement for a request, with the hash of the password by the next salt
  abbrev pub sent_values : UpdateUserRequest → World C D → Values
  sent_values request w =
      dump_field "password" (λ plain. text (env.hash (w.entropy w.draws) plain)) request.password
      ++ dump_field "role_uuid" text request.role_uuid
      ++ dump_field "active" flag request.active

  -- Only a password that has to be hashed draws a salt.
  abbrev pub salted : Field String → World C D → World C D
  salted (sent plain) w = record w { draws = suc w.draws }
  salted unset w = w
  salted sent_null w = w

  abbrev pub sent_update : UpdateUserRequest → Exec (World C D) UserResult
  sent_update request w =
      (on_db (Users.update env.session request.user_uuid (sent_values request w)) >>= λ updated.
      result updated >>= λ user. pure (user_result user))
        (salted request.password w)

  update_user-sent :
      (uuid : String) (role_uuid : Field String) (active : Field Bool) (password : Field String)
      → update_user env
          (record { user_uuid = uuid; password = password; role_uuid = role_uuid; active = active })
        ≡ within env.session (
            sent_update (record {
              user_uuid = uuid;
              password = password;
              role_uuid = role_uuid;
              active = active;
            }))
  unfolding update_user dump_password hash_password
  update_user-sent uuid role_uuid active unset = refl
  update_user-sent uuid role_uuid active sent_null = refl
  update_user-sent uuid role_uuid active (sent plain) = refl

  -- An update is one statement in a transaction of its own, with a password as its hash by a fresh
  -- salt, null for one that was sent as null, and nothing for one that was not sent. So two passwords
  -- that hash alike with every salt have the same answer and the same effects: nothing of the clear
  -- text leaves the use case but its hash.
  pub update_user-hashed :
      (request : UpdateUserRequest) (plain other : String) (w : World C D)
      → ((salt : String) → env.hash salt plain ≡ env.hash salt other)
      → (update_user env request w ≡ within env.session (sent_update request) w)
        × (update_user env (record request { password = sent plain }) w
            ≡ update_user env (record request { password = sent other }) w)
  update_user-hashed request plain other w alike =
      let u = request.user_uuid in
      let same : sent_update (record request { password = sent plain })
          ≡ sent_update (record request { password = sent other }) =
        fun_ext λ v. rw (alike (v.entropy v.draws)) refl in
      (
        ap (λ m. m w) (update_user-sent u request.role_uuid request.active request.password),
        ap (λ m. m w) (update_user-sent u request.role_uuid request.active (sent plain))
            ∙ ap (λ m. within env.session m w) same
            ∙ sym
                (ap (λ m. m w) (update_user-sent u request.role_uuid request.active (sent other))),
      )
