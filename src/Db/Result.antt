-- ===== src/Db/Result.antt =====
-- src/database/psql/repositories/__init__.py, and `on_integrity` of src/database/psql/tools.py.
pub mod Laws
use fastapi_claude_template.Prelude.{
  String, Bool, true, false, Option, none, some, List, [], ◌∷◌, ◌<>◌, is_some, if◌then◌else◌,
}
use text.Mathlib.Text.{find?}
use fastapi_claude_template.Errors.{
  Failure, app, integrity, detailed, default_app_exception, conflict, forbidden, not_found,
}
use fastapi_claude_template.Exec.{Exec, pure, raise, try_except}

pub data ExceptionType : Type 0 where
  update delete select create exists count : ExceptionType

unfoldable pub exception_map : ExceptionType → Failure
exception_map update = detailed forbidden "Cannot be updated"
exception_map delete = detailed forbidden "Cannot be deleted"
exception_map select = detailed not_found "Not found"
exception_map create = detailed forbidden "Cannot be created"
exception_map exists = detailed not_found "Not found"
exception_map count = detailed not_found "Not found"

pub record RepositoryResult (A : Type 0) : Type 0 where
  pub exception_type : ExceptionType
  pub content : Option A

module _ {A : Type 0} where
  abbrev pub result_or_none : RepositoryResult A → Option A
  result_or_none r = r.content

  abbrev or_else {ℓ} : {S : Type ℓ} → Failure → Option A → Exec S A
  or_else e none = raise e
  or_else e (some a) = pure a

  unfoldable pub result {ℓ} : {S : Type ℓ} → RepositoryResult A → Exec S A
  result r = or_else (exception_map r.exception_type) r.content

  unfoldable pub result_or_raise {ℓ} : {S : Type ℓ} → RepositoryResult A → Failure → Exec S A
  result_or_raise r e = or_else e r.content

-- `for uniq in uniques: if uniq in origin: raise should_raise(f"{uniq} {base_message}")`
unfoldable pub violated : List String → String → Failure
violated [] origin = default_app_exception
violated (uniq ∷ uniques) origin =
    let rest = violated uniques origin in
    if is_some (find? origin uniq) then detailed conflict (uniq <> " already in use") else rest

-- With the defaults `ConflictError` and "already in use", which every caller takes.
abbrev convert {ℓ} : {S : Type ℓ} {A : Type 0} → List String → Failure → Exec S A
convert uniques (integrity origin) = raise (violated uniques origin)
convert uniques other = raise other

unfoldable pub on_integrity {ℓ} : {S : Type ℓ} {A : Type 0} → List String → Exec S A → Exec S A
on_integrity uniques coro = try_except coro (convert uniques)
