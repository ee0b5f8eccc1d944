-- ===== src/Db/Roles.antt =====
-- src/database/psql/repositories/role.py: `RoleRepository`.
use fastapi_claude_template.Prelude.{
  ℕ, zero, suc, String, Bool, not, ◌||◌, Option, none, some, List, [], ◌∷◌, ◌++◌, head?, is_some,
}
use fastapi_claude_template.Errors.{invalid_params}
use fastapi_claude_template.Exec.{Exec, pure, raise_if, ◌>>=◌, ◌>>◌}
use fastapi_claude_template.Db.{
  Session, Role, RoleName, role_text, text, Clause, equals, ilike, OrderBy, Select,
}
use fastapi_claude_template.Db.Crud
use fastapi_claude_template.Db.Result.{RepositoryResult, ExceptionType, on_integrity}
use fastapi_claude_template.Db.Users.{no_identifier, when_some, when_given, contains_pattern}

abbrev named : Option RoleName → List Clause
named none = []
named (some name) = equals "name" (text (role_text name)) ∷ []

module _ {D : Type 0} (session : Session D) where
  unfoldable pub create : RoleName → Exec D (RepositoryResult Role)
  create name = on_integrity ("name" ∷ []) do
    row ← Crud.insert session.roles (("name", text (role_text name)) ∷ [])
    pure (record { exception_type = ExceptionType.create; content = row })

  unfoldable pub select :
      List String → Option String → Option RoleName → Exec D (RepositoryResult Role)
  select loads role_uuid name = do
    raise_if (not (is_some role_uuid || is_some name)) (invalid_params no_identifier)
    rows ← session.roles.select (record {
      where_clauses = when_some role_uuid (λ u. equals "uuid" (text u)) ++ named name;
      loads = loads;
      order_by = none;
      offset = none;
      limit = none;
    })
    pure (record { exception_type = ExceptionType.select; content = head? rows })

  page_of : Select → ℕ → Exec D (RepositoryResult (ℕ × List Role))
  page_of stmt zero =
      pure (record { exception_type = ExceptionType.select; content = some (0, []) })
  page_of stmt (suc n) = do
    rows ← session.roles.select stmt
    pure (record { exception_type = ExceptionType.select; content = some (suc n, rows) })

  unfoldable pub select_many :
      List String
      → Option String
      → OrderBy
      → ℕ
      → Option ℕ
      → Exec D (RepositoryResult (ℕ × List Role))
  unfolding page_of
  select_many loads name order_by offset limit = do
    let where_clauses = when_given name (λ n. ilike "name" (contains_pattern n))
    total ← Crud.count session.roles where_clauses
    let stmt : Select = record {
      where_clauses = where_clauses;
      loads = loads;
      order_by = some ("created_at", order_by);
      offset = some offset;
      limit = limit;
    }
    page_of stmt total

  unfoldable pub exists : String → Exec D (RepositoryResult Bool)
  exists name = do
    found ← Crud.exists session.roles (equals "name" (text name) ∷ [])
    pure (record { exception_type = ExceptionType.exists; content = some found })
