-- ===== src/Db/Crud.antt =====
-- src/database/psql/repositories/crud.py: the statements of `CRUDRepository`.
use fastapi_claude_template.Prelude.{
  ℕ, String, Bool, Option, none, List, [], ◌∷◌, any, head?, dict_keys, ◌==◌, if◌then◌else◌,
}
use fastapi_claude_template.Errors.{external}
use fastapi_claude_template.Exec.{Exec, pure, raise, ◌>>=◌}
use fastapi_claude_template.Db.{Table, Values, Clause, OrderBy}

-- `{key: values[key] for key in values if key not in conflict_columns}`
unfoldable pub not_in : List String → Values → Values
not_in columns [] = []
not_in columns ((k, v) ∷ values) =
    let rest = not_in columns values in if any (λ c. c == k) columns then rest else (k, v) ∷ rest

module _ {D M : Type 0} (table : Table D M) where
  unfoldable pub insert : Values → Exec D (Option M)
  insert values = do rows ← table.insert values; pure (head? rows)

  unfoldable pub insert_many : List Values → Exec D (List M)
  insert_many rows = table.insert_many rows

  unfoldable pub select : List Clause → Exec D (Option M)
  select clauses = do
    rows ← table.select (record {
      where_clauses = clauses;
      loads = [];
      order_by = none;
      offset = none;
      limit = none;
    })
    pure (head? rows)

  unfoldable pub select_many :
      List Clause → Option (String × OrderBy) → Option ℕ → Option ℕ → Exec D (List M)
  select_many clauses order_by offset limit = table.select (record {
    where_clauses = clauses;
    loads = [];
    order_by = order_by;
    offset = offset;
    limit = limit;
  })

  unfoldable pub update : List Clause → Values → Exec D (List M)
  update clauses values = table.update clauses values

  unfoldable pub update_many : List Values → Exec D (Unit {0})
  update_many rows = table.update_many rows

  unfoldable pub delete : List Clause → Exec D (List M)
  delete clauses = table.delete clauses

  unfoldable pub exists : List Clause → Exec D Bool
  exists clauses = table.exists clauses

  unfoldable pub count : List Clause → Exec D ℕ
  count clauses = table.count clauses

  unfoldable pub upsert : List String → Values → Exec D (Option M)
  upsert conflict_columns values = do
    rows ← table.upsert values conflict_columns (not_in conflict_columns values)
    pure (head? rows)

  -- `data[0]` of no rows is an IndexError.
  unfoldable pub upsert_many : List String → List Values → Exec D (List M)
  unfolding not_in dict_keys
  upsert_many conflict_columns [] = raise (external "IndexError")
  upsert_many conflict_columns (row ∷ rows) =
      table.upsert_many (row ∷ rows) conflict_columns (dict_keys (not_in conflict_columns row))
