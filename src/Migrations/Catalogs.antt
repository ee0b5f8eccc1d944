-- ===== src/Migrations/Catalogs.antt =====
-- What a database shows of its schema, and what the statements behind alembic's operations do to it.
use fastapi_claude_template.Prelude.{
  String, Bool, true, false, not, ◌&&◌, ◌||◌, Option, none, some, List, [], ◌∷◌, ◌++◌, any, is_some,
  ◌==◌, ◌<>◌, if◌then◌else◌, All, ◌≡◌,
}
use fastapi_claude_template.Models.{Column, ForeignKey, Table, Index}

-- Tables and indexes by name, and what the rows of a table hold in a column
pub record Catalog : Type 0 where
  pub tables : String → Option Table
  pub indexes : String → Option Index
  pub values : String → String → List String

abbrev pub put {ℓ} : {A : Type ℓ} → String → A → (String → A) → String → A
put k a f j = if k == j then a else f j

abbrev pub off_table : String → Option Index → Option Index
off_table name none = none
off_table name (some i) = if i.table == name then none else some i

abbrev pub distinct : List String → Bool
distinct [] = true
distinct (x ∷ xs) = not (any (λ y. y == x) xs) && distinct xs

-- Whether the rows of the table may have a unique index on its only column
abbrev pub may_be_unique : Catalog → String → List String → Bool
may_be_unique c table [] = true
may_be_unique c table (column ∷ columns) = distinct (c.values table column)

-- The columns of a table, and whether it has some of them
abbrev pub has_column : String → List Column → Bool
has_column name columns = any (λ c. c.name == name) columns

abbrev pub has_columns : List String → List Column → Bool
has_columns [] columns = true
has_columns (name ∷ names) columns = has_column name columns && has_columns names columns

-- A row that gives one column a value is accepted when every other one may be null or has a default.
abbrev pub accepts : String → List Column → Bool
accepts name [] = true
accepts name (c ∷ cs) =
    ((c.name == name) || (c.nullable || is_some c.server_default)) && accepts name cs

abbrev pub accepts_in : String → Option Table → Bool
accepts_in name none = false
accepts_in name (some t) = has_column name t.columns && accepts name t.columns

abbrev pub with_table : Table → Catalog → Catalog
with_table t c = record c {
  tables = put t.name (some t) c.tables;
  values = put t.name (λ _. []) c.values;
}

-- The indexes of a table go with it.
abbrev pub without_table : String → Catalog → Catalog
without_table name c = record c {
  tables = put name none c.tables;
  indexes = λ i. off_table name (c.indexes i);
  values = put name (λ _. []) c.values;
}

abbrev pub with_index : Index → Catalog → Catalog
with_index i c = record c { indexes = put i.name (some i) c.indexes }

abbrev pub without_index : String → Catalog → Catalog
without_index name c = record c { indexes = put name none c.indexes }

abbrev pub with_values : String → String → List String → Catalog → Catalog
with_values table column more c = record c {
  values = put table (put column (c.values table column ++ more) (c.values table)) c.values;
}

-- Whether a foreign key of `u` is on a column of `t`
abbrev pub refers : Table → Table → Bool
refers u t = any (λ k. any (λ c. k.target == (t.name <> "." <> c.name)) t.columns) u.foreign_keys

-- A foreign key is on a column of its table and names the primary key of a table that there is.
abbrev pub Targets : Catalog → Table → ForeignKey → Type 0
Targets c t k =
    (u : Table) × (column : String) × (c.tables u.name ≡ some u)
    × (u.primary_key ≡ column ∷ [])
    × (k.target ≡ u.name <> "." <> column)
    × (has_column k.column t.columns ≡ true)

-- What PostgreSQL asks of a new table: its key is on its columns, and so are its foreign keys, which
-- name tables that there are.
abbrev pub Creatable : Catalog → Table → Type 0
Creatable c t = (has_columns t.primary_key t.columns ≡ true) × All (Targets c t) t.foreign_keys
