-- ===== src/Db/Users.antt =====
-- src/database/psql/repositories/user.py: `UserRepository`.
use fastapi_claude_template.Prelude.{
  ℕ, zero, suc, String, Bool, false, not, ◌||◌, Option, none, some, List, [], ◌∷◌, ◌++◌, ◌<>◌,
  head?, is_empty, is_some, if◌then◌else◌,
}
use fastapi_claude_template.Errors.{invalid_params}
use fastapi_claude_template.Exec.{Exec, pure, raise_if, ◌>>=◌, ◌>>◌}
use fastapi_claude_template.Db.{Session, User, Values, text, Clause, equals, ilike, OrderBy, Select}
use fastapi_claude_template.Db.Crud
use fastapi_claude_template.Db.Result.{RepositoryResult, ExceptionType, on_integrity}

abbrev pub no_identifier : String
no_identifier = "at least one identifier must be provided"

-- The truth of an optional text; an optional UUID is true if it is given.
abbrev pub given : Option String → Bool
given none = false
given (some s) = not (is_empty s)

-- `if x: where_clauses.append(clause)`
abbrev pub when_some : Option String → (String → Clause) → List Clause
when_some none clause = []
when_some (some x) clause = clause x ∷ []

abbrev pub when_given : Option String → (String → Clause) → List Clause
when_given none clause = []
when_given (some x) clause = if is_empty x then [] else clause x ∷ []

abbrev pub contains_pattern : String → String
contains_pattern s = "%" <> s <> "%"

abbrev pub users_where : Option String → Option String → List Clause
users_where user_uuid login =
    when_some user_uuid (λ u. equals "uuid" (text u))
    ++ when_given login (λ l. equals "login" (text l))

module _ {D : Type 0} (session : Session D) where
  unfoldable pub create : Values → Exec D (RepositoryResult User)
  create values = on_integrity ("login" ∷ []) do
    row ← Crud.insert session.users values
    pure (record { exception_type = ExceptionType.create; content = row })

  unfoldable pub select :
      List String → Option String → Option String → Exec D (RepositoryResult User)
  select loads user_uuid login = do
    raise_if (not (is_some user_uuid || given login)) (invalid_params no_identifier)
    rows ← session.users.select (record {
      where_clauses = users_where user_uuid login;
      loads = loads;
      order_by = none;
      offset = none;
      limit = none;
    })
    pure (record { exception_type = ExceptionType.select; content = head? rows })

  -- `any([uuid])` is true of a UUID
  unfoldable pub update : String → Values → Exec D (RepositoryResult User)
  update uuid values = on_integrity ("login" ∷ []) do
    rows ← Crud.update session.users (equals "uuid" (text uuid) ∷ []) values
    pure (record { exception_type = ExceptionType.update; content = head? rows })

  unfoldable pub delete : Option String → Option String → Exec D (RepositoryResult User)
  delete user_uuid login = do
    raise_if (not (is_some user_uuid || given login)) (invalid_params no_identifier)
    rows ← Crud.delete session.users (users_where user_uuid login)
    pure (record { exception_type = ExceptionType.delete; content = head? rows })

  -- The page behind the count, which is not asked for when nothing was counted.
  page_of : Select → ℕ → Exec D (RepositoryResult (ℕ × List User))
  page_of stmt zero =
      pure (record { exception_type = ExceptionType.select; content = some (0, []) })
  page_of stmt (suc n) = do
    rows ← session.users.select stmt
    pure (record { exception_type = ExceptionType.select; content = some (suc n, rows) })

  unfoldable pub select_many :
      List String
      → Option String
      → Option String
      → OrderBy
      → ℕ
      → Option ℕ
      → Exec D (RepositoryResult (ℕ × List User))
  unfolding page_of
  select_many loads login role_uuid order_by offset limit = do
    let where_clauses =
        when_given login (λ l. ilike "login" (contains_pattern l))
        ++ when_some role_uuid (λ r. equals "role_uuid" (text r))
    total ← Crud.count session.users where_clauses
    let stmt : Select = record {
      where_clauses = where_clauses;
      loads = loads;
      order_by = some ("created_at", order_by);
      offset = some offset;
      limit = limit;
    }
    page_of stmt total

  unfoldable pub exists : String → Exec D (RepositoryResult Bool)
  exists login = do
    found ← Crud.exists session.users (equals "login" (text login) ∷ [])
    pure (record { exception_type = ExceptionType.exists; content = some found })
