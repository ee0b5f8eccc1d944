-- ===== src/Migrations/Database.antt =====
-- What the revisions rely on: what each operation of alembic does to the schema when PostgreSQL
-- accepts it, and that a unique index on equal values is refused.
use fastapi_claude_template.Prelude.{
  String, ◌≡◌, Bool, true, false, not, ◌||◌, none, some, [], ◌∷◌, ◌==◌,
}
use fastapi_claude_template.Errors.{Failure}
use fastapi_claude_template.Exec.{Result, ok, err, Exec, ◌>>◌, continue}
use fastapi_claude_template.Models.{Table, Index}
use fastapi_claude_template.Migrations.{Operations, insert_roles}
use fastapi_claude_template.Migrations.Catalogs.{
  Catalog, with_table, without_table, with_index, without_index, with_values, may_be_unique,
  accepts_in, refers, Creatable, has_columns,
}

-- A run that returns and leaves the catalog `c`
abbrev pub Leaves : {S : Type 0} → (S → Catalog) → Exec S (Unit {0}) → S → Catalog → Type 0
Leaves catalog m s c = ((m s).0 ≡ ok tt) × (catalog (m s).1 ≡ c)

abbrev pub index_allowed : Index → Catalog → Bool
index_allowed i c = not i.unique || may_be_unique c i.table i.columns

pub record IsDatabase {S : Type 0} (op : Operations S) : Type 0 where
  pub catalog : S → Catalog
  pub create_table_lem :
      (t : Table) (s : S)
      → (catalog s).tables t.name ≡ none
      → Creatable (catalog s) t
      → Leaves catalog (op.create_table t) s (with_table t (catalog s))
  -- A table that another one refers to is not dropped.
  pub drop_table_lem :
      (t : Table) (s : S)
      → (catalog s).tables t.name ≡ some t
      → ((name : String) (u : Table)
          → (t.name == name) ≡ false
          → (catalog s).tables name ≡ some u
          → refers u t ≡ false)
      → Leaves catalog (op.drop_table t.name) s (without_table t.name (catalog s))
  pub create_index_lem :
      (i : Index) (t : Table) (s : S)
      → (catalog s).indexes i.name ≡ none
      → (catalog s).tables i.table ≡ some t
      → has_columns i.columns t.columns ≡ true
      → index_allowed i (catalog s) ≡ true
      → Leaves catalog (op.create_index i) s (with_index i (catalog s))
  pub create_index_refused :
      (i : Index) (s : S)
      → index_allowed i (catalog s) ≡ false
      → (e : Failure) × ((op.create_index i s).0 ≡ err e)
  pub drop_index_lem :
      (i : Index) (s : S)
      → (catalog s).indexes i.name ≡ some i
      → Leaves catalog (op.drop_index i.name i.table) s (without_index i.name (catalog s))
  pub execute_insert :
      (s : S)
      → accepts_in "name" ((catalog s).tables "role") ≡ true
      → Leaves catalog
          (op.execute insert_roles)
          s
          (with_values "role" "name" ("Admin" ∷ "User" ∷ []) (catalog s))

-- What a run does at every database that shows the catalog `c`
pub record Takes {S : Type 0} (catalog : S → Catalog) (m : Exec S (Unit {0})) (c c' : Catalog)
    : Type 0 where
  pub run : (s : S) → catalog s ≡ c → Leaves catalog m s c'

module _ {S : Type 0} {catalog : S → Catalog} where
  left_by :
      (r : Result (Unit {0}) × S) {n : Exec S (Unit {0})} {c c' : Catalog}
      → r.0 ≡ ok tt
      → catalog r.1 ≡ c
      → Takes catalog n c c'
      → ((continue (λ _. n) r).0 ≡ ok tt) × (catalog (continue (λ _. n) r).1 ≡ c')
  left_by (ok tt, s') h shown next = next.run s' shown
  left_by (err e, s') h shown next = cc

  -- One operation after another
  pub then :
      {m n : Exec S (Unit {0})} {c c' c'' : Catalog}
      → Takes catalog m c c'
      → Takes catalog n c' c''
      → Takes catalog (m >> n) c c''
  then {m} first next = record {
    run = λ s e. left_by (m s) (first.run s e).0 (first.run s e).1 next;
  }
