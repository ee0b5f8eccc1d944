-- ===== src/Db/Manager.antt =====
-- src/database/psql/manager.py, and `async with` over a gateway or a session.
pub mod Atomic
use fastapi_claude_template.Prelude.{Bool, true, false, not, ◌&&◌, if◌then◌else◌}
use fastapi_claude_template.Errors.{Failure, commit_error, rollback_error, integrity, sqlalchemy}
use fastapi_claude_template.Exec.{Result, ok, err, Exec, pure, raise, try_except, ◌>>=◌, ◌>>◌}
use fastapi_claude_template.World.{World, on_db}
use fastapi_claude_template.Db.{Session}

-- `except SQLAlchemyError as err: raise instead from err`
abbrev pub on_sqlalchemy {ℓ} : {S : Type ℓ} → Failure → Failure → Exec S (Unit {0})
on_sqlalchemy instead (sqlalchemy m) = raise instead
on_sqlalchemy instead (integrity m) = raise instead
on_sqlalchemy instead other = raise other

module _ {D : Type 0} (session : Session D) where
  unfoldable pub commit : Exec D (Unit {0})
  commit = try_except session.commit (on_sqlalchemy commit_error)

  unfoldable pub rollback : Exec D (Unit {0})
  rollback = try_except session.rollback (on_sqlalchemy rollback_error)

  -- Whether `_transaction` is set, by a manager that had not set it: each request has a manager of its
  -- own and each use case enters one block of it.
  unfoldable pub create_transaction : Exec D Bool
  create_transaction d =
      if not (session.in_transaction d) && session.is_active d
      then (session.begin >> pure true) d
      else pure false d

  unfoldable pub close_transaction : Exec D (Unit {0})
  close_transaction d = if session.is_active d then session.close d else pure tt d

  -- `__aexit__` without and with an exception
  unfoldable pub leave : Bool → Exec D (Unit {0})
  leave transaction = (if transaction then commit else pure tt) >> close_transaction

  unfoldable pub leave_raising : Bool → Exec D (Unit {0})
  leave_raising transaction = (if transaction then rollback else pure tt) >> close_transaction

module _ {C D A : Type 0} (session : Session D) where
  unfoldable pub finish : Bool → Result A → Exec (World C D) A
  finish transaction (ok a) = on_db (leave session transaction) >> pure a
  finish transaction (err e) = on_db (leave_raising session transaction) >> raise e

  -- `async with self.database: body`, for such a manager
  unfoldable pub within : Exec (World C D) A → Exec (World C D) A
  within body = do
    transaction ← on_db (create_transaction session)
    λ w. finish transaction (body w).0 (body w).1

  unfoldable pub close_after : Result A → Exec (World C D) A
  close_after (ok a) = on_db session.close >> pure a
  close_after (err e) = on_db session.close >> raise e

  -- `async with self.database.manager.session: body`: the session is closed on both ways out
  unfoldable pub within_session : Exec (World C D) A → Exec (World C D) A
  within_session body w = close_after (body w).0 (body w).1
