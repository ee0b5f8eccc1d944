-- ===== src/Db/Manager/Atomic.antt =====
-- What other sessions see of a transaction: nothing before it is committed.
use fastapi_claude_template.Prelude.{
  ◌≡◌, refl, sym, ap, ◌∙◌, Bool, true, false, List, arith, inl, inr,
}
use fastapi_claude_template.Errors.{Failure, commit_error, sqlalchemy, integrity}
use fastapi_claude_template.Exec.{Result, ok, err, Exec, continue, ◌>>=◌}
use fastapi_claude_template.Exec.Laws.{run-cases}
use fastapi_claude_template.World.{World}
use fastapi_claude_template.Db.{Session, Table, Values, Clause, Select}
use fastapi_claude_template.Db.Manager.{
  on_sqlalchemy, commit, rollback, create_transaction, close_transaction, leave, leave_raising,
  finish, within,
}

-- Keeping what is committed.
abbrev pub Keeps {ℓ} : {D T : Type 0} {A : Type ℓ} → (D → T) → Exec D A → Type 0
Keeps committed m = (d : _) → committed (m d).1 ≡ committed d

-- What SQLAlchemy documents of a session without autocommit, and a database that isolates it: only a
-- commit that succeeds is seen from outside.
pub record IsIsolatedTable {D T M : Type 0} (committed : D → T) (table : Table D M) : Type 0 where
  pub insert : (v : Values) → Keeps committed (table.insert v)
  pub select : (s : Select) → Keeps committed (table.select s)
  pub update : (c : List Clause) (v : Values) → Keeps committed (table.update c v)
  pub delete : (c : List Clause) → Keeps committed (table.delete c)
  pub exists : (c : List Clause) → Keeps committed (table.exists c)
  pub count : (c : List Clause) → Keeps committed (table.count c)

pub record IsTransactional {D : Type 0} (T : Type 0) (session : Session D) : Type 0 where
  pub committed : D → T
  pub users : IsIsolatedTable committed session.users
  pub roles : IsIsolatedTable committed session.roles
  pub begin : Keeps committed session.begin
  pub rollback : Keeps committed session.rollback
  pub close : Keeps committed session.close
  pub commit_failed :
      (d d' : D) (e : Failure) → session.commit d ≡ (err e, d') → committed d' ≡ committed d

on_sqlalchemy-err :
    {D : Type 0} (instead f : Failure) (d : D)
    → (e : Failure) × (on_sqlalchemy instead f d ≡ (err e, d))
on_sqlalchemy-err instead (sqlalchemy m) d = (_, refl)
on_sqlalchemy-err instead (integrity m) d = (_, refl)
on_sqlalchemy-err instead _ d = (_, refl)

module _ {D T : Type 0} (session : Session D) (tx : IsTransactional T session) where
  open tx use {committed}

  create_transaction-Keeps : Keeps committed (create_transaction session)
  unfolding create_transaction
  create_transaction-Keeps d = ground (arith, tx.begin d)

  close_transaction-Keeps : Keeps committed (close_transaction session)
  unfolding close_transaction
  close_transaction-Keeps d = ground (arith, tx.close d)

  rollback-Keeps : Keeps committed (rollback session)
  unfolding rollback
  rollback-Keeps d = ground (arith, tx.rollback d)

  leave_raising-Keeps : (transaction : Bool) → Keeps committed (leave_raising session transaction)
  unfolding leave_raising
  leave_raising-Keeps true d =
      ground (arith, rollback-Keeps d, close_transaction-Keeps (rollback session d).1)
  leave_raising-Keeps false d = close_transaction-Keeps d

  commit-failed :
      (d : D) {d' : D} {e : Failure} → commit session d ≡ (err e, d') → committed d' ≡ committed d
  unfolding commit
  commit-failed d h = elim (run-cases (session.commit d)) [
    | inl (a, d1, h1) ↦ cc (rw (h1, commit) at h)
    | inr (f, d1, h1) ↦
        let (g, raised) = on_sqlalchemy-err commit_error f d1 in
        ap (λ p. committed p.1) (sym (rw (h1, commit) at h) ∙ raised) ∙ tx.commit_failed d d1 f h1
  ]

  -- Closing a session that is active raises nothing.
  abbrev pub Closes : Type 0
  Closes = (d : D) → (session.close d).0 ≡ ok tt

  close_transaction_ok : Closes → (d : D) → (close_transaction session d).0 ≡ ok tt
  unfolding close_transaction
  close_transaction_ok closes d = ground (arith, closes d)

  -- Leaving a block with an error has committed nothing.
  leave-failed :
      (transaction : Bool) (d : D) {d' : D} {e : Failure}
      → Closes
      → leave session transaction d ≡ (err e, d')
      → committed d' ≡ committed d
  unfolding leave
  leave-failed false d closes h = cc (close_transaction_ok closes d, ap (λ p. p.0) h)
  leave-failed true d closes h = elim (run-cases (commit session d)) [
    | inl (a, d1, h1) ↦ cc (close_transaction_ok closes d1, ap (λ p. p.0) (rw (h1, leave) at h))
    | inr (f, d1, h1) ↦ ap (λ p. committed p.1) (sym (rw (h1, leave) at h)) ∙ commit-failed d h1
  ]

module _ {C D T : Type 0} (session : Session D) (tx : IsTransactional T session) where
  open tx use {committed}

  -- An action of the program that commits nothing.
  abbrev pub Uncommitted : {A : Type 0} → Exec (World C D) A → Type 0
  Uncommitted m = (w : World C D) → committed (m w).1.db ≡ committed w.db

  module _ {A B : Type 0} where
    continue-Uncommitted :
        (f : A → Exec (World C D) B) (r : Result A) (w : World C D)
        → ((a : A) → Uncommitted (f a))
        → committed (continue f (r, w)).1.db ≡ committed w.db
    continue-Uncommitted f (ok a) w h = h a w
    continue-Uncommitted f (err e) w h = refl

    pub bind-Uncommitted :
        (m : Exec (World C D) A) (f : A → Exec (World C D) B)
        → Uncommitted m
        → ((a : A) → Uncommitted (f a))
        → Uncommitted (m >>= f)
    bind-Uncommitted m f hm hf w = continue-Uncommitted f (m w).0 (m w).1 hf ∙ hm w

  module _ {A : Type 0} where
    finish-failed :
        (transaction : Bool) (r : Result A) (w : World C D) {w' : World C D} {e : Failure}
        → Closes session tx
        → finish session transaction r w ≡ (err e, w')
        → committed w'.db ≡ committed w.db
    unfolding finish
    finish-failed t (ok a) w closes h = elim (run-cases (leave session t w.db)) [
      | inl (_, d1, h1) ↦ cc (rw (h1, finish) at h)
      | inr (f, d1, h1) ↦
          ap (λ p. committed p.1.db) (sym (rw (h1, finish) at h))
          ∙ leave-failed session tx t w.db closes h1
    ]
    finish-failed t (err e) w closes h =
        sym (ap (λ p. committed p.1.db) h) ∙ ground (arith, leave_raising-Keeps session tx t w.db)

    -- A block that raises has committed nothing, if its body does not commit by itself and closing the
    -- session does not raise.
    pub within_atomic :
        (body : Exec (World C D) A) (w w' : World C D) (e : Failure)
        → Closes session tx
        → Uncommitted body
        → within session body w ≡ (err e, w')
        → committed w'.db ≡ committed w.db
    unfolding within
    within_atomic body w w' e closes keeps h = elim (run-cases (create_transaction session w.db)) [
      | inr (f, d1, h1) ↦
          ap (λ p. committed p.1.db) (sym (rw (h1, within) at h))
          ∙ sym (ap (λ p. committed p.1) h1)
          ∙ create_transaction-Keeps session tx w.db
      | inl (t, d1, h1) ↦
          let w1 : World C D = record w { db = d1 } in
          finish-failed t (body w1).0 (body w1).1 closes (rw (h1, within) at h)
          ∙ keeps w1
          ∙ sym (ap (λ p. committed p.1) h1)
          ∙ create_transaction-Keeps session tx w.db
    ]

    finish-joined :
        (r : Result A) (w : World C D) → committed (finish session false r w).1.db ≡ committed w.db
    unfolding finish leave leave_raising
    finish-joined (ok a) w = ground (arith, close_transaction-Keeps session tx w.db)
    finish-joined (err e) w = ground (arith, close_transaction-Keeps session tx w.db)

    -- A block whose manager has not started a transaction, entered within one of its session, commits
    -- nothing, also when it returns, if its body does not commit by itself.
    pub within_joined :
        (body : Exec (World C D) A) (w : World C D)
        → session.in_transaction w.db ≡ true
        → Uncommitted body
        → committed (within session body w).1.db ≡ committed w.db
    unfolding within create_transaction
    within_joined body w joined keeps = rw joined (finish-joined (body w).0 (body w).1 ∙ keeps w)

    finish_committed :
        (r : Result A) (w w' : World C D) (a : A)
        → finish session true r w ≡ (ok a, w')
        → (r ≡ ok a) × ((commit session w.db).0 ≡ ok tt)
    unfolding finish leave
    finish_committed (ok b) w w' a h = ground arith
    finish_committed (err e) w w' a h = ground arith

    -- A block that starts a transaction returns only what its body returned, and only after a
    -- commit that succeeded in the state that the body left.
    pub within_committed :
        (body : Exec (World C D) A) (w w' : World C D) (a : A)
        → session.in_transaction w.db ≡ false
        → session.is_active w.db ≡ true
        → within session body w ≡ (ok a, w')
        → (v : World C D) × ((body v).0 ≡ ok a) × ((commit session (body v).1.db).0 ≡ ok tt)
    unfolding within create_transaction
    within_committed body w w' a apart active h = elim (run-cases (session.begin w.db)) [
      | inr (f, d1, h1) ↦ cc (rw (apart, active, h1) at h)
      | inl (t, d1, h1) ↦
          let v : World C D = record w { db = d1 } in
          let (returned, done) =
            finish_committed (body v).0 (body v).1 w' a (rw (apart, active, h1) at h) in
          (v, returned, done)
    ]
