-- ===== src/Tests/Schema.antt =====
-- A store of catalogs that meets what is assumed of alembic's operations, and the theorems on the
-- migrations over it.
use fastapi_claude_template.Prelude.{
  String, ◌≡◌, refl, Bool, true, false, not, Option, none, some, [], ◌∷◌, ◌++◌, All, is_some, ◌<>◌,
}
use fastapi_claude_template.Errors.{external}
use fastapi_claude_template.Exec.{Result, ok, err, pure}
use fastapi_claude_template.Models.{role_model, user_model, role_type_enum, table_of, indexes_of}
use fastapi_claude_template.Migrations.{Operations, upgrade_head, downgrade_base, upgrade_initial}
use fastapi_claude_template.Migrations.Catalogs.{
  Catalog, with_table, without_table, with_index, without_index, with_values, accepts_in,
}
use fastapi_claude_template.Migrations.Database.{IsDatabase, index_allowed}
use fastapi_claude_template.Migrations.Laws.{IsFree, upgrade_head_lem, downgrade_base-upgrade_head}
use fastapi_claude_template.Migrations.Runs.{Env, Context, IsTransactional, main}
use fastapi_claude_template.Migrations.Runs.Laws.{main-online, left_after}

abbrev changed_if : Bool → Catalog → Catalog → Result (Unit {0}) × Catalog
changed_if true c c' = (ok tt, c')
changed_if false c c' = (err (external "ProgrammingError"), c)

abbrev is_new : {A : Type 0} → Option A → Bool
is_new o = not (is_some o)

abbrev operations : Operations Catalog
operations = record {
  create_table = λ t c. changed_if (is_new (c.tables t.name)) c (with_table t c);
  drop_table = λ name c. (ok tt, without_table name c);
  create_index = λ i c. changed_if (index_allowed i c) c (with_index i c);
  drop_index = λ name table c. (ok tt, without_index name c);
  execute = λ statement c.
      changed_if (accepts_in "name" (c.tables "role")) c
        (with_values "role" "name" ("Admin" ∷ "User" ∷ []) c);
}

abbrev operations-IsDatabase : IsDatabase operations
operations-IsDatabase = record {
  catalog = λ c. c;
  create_table_lem = λ t c h allowed. rw h (refl, refl);
  drop_table_lem = λ t c h unreferred. (refl, refl);
  create_index_lem = λ i t c h there columns allowed. rw allowed (refl, refl);
  create_index_refused = λ i c refused. (external "ProgrammingError", rw refused refl);
  drop_index_lem = λ i c h. (refl, refl);
  execute_insert = λ c accepted. rw accepted (refl, refl);
}

abbrev blank : Catalog
blank = record { tables = λ n. none; indexes = λ n. none; values = λ t c. [] }

blank-IsFree : IsFree blank
blank-IsFree = record {
  no_role = refl;
  no_user = refl;
  no_role_name = refl;
  no_user_active = refl;
  no_user_login = refl;
  nothing_on_role = λ n i h. cc;
  nothing_on_user = λ n i h. cc;
  no_reference = λ n u h. (cc, cc);
}

abbrev conventional : String → String → String
conventional table column = "ix_" <> table <> "_" <> column

abbrev at_head : Catalog
at_head = (upgrade_head operations blank).1

upgrade_head_lem_example :
    ((upgrade_head operations blank).0 ≡ ok tt)
    × (at_head.tables "role" ≡ some (table_of role_model))
    × (at_head.tables "user" ≡ some (table_of user_model))
    × All
        (λ i. at_head.indexes i.name ≡ some i)
        (indexes_of conventional role_model ++ indexes_of conventional user_model)
    × (at_head.values "role" "name" ≡ role_type_enum)
    × (at_head.values "user" "login" ≡ [])
upgrade_head_lem_example =
    upgrade_head_lem operations operations-IsDatabase conventional blank (λ t c. refl) blank-IsFree

-- The service has written a user since.
abbrev in_use : Catalog
in_use = record at_head { values = λ t c. "ann" ∷ [] }

downgrade_base-upgrade_head_example :
    ((downgrade_base operations in_use).0 ≡ ok tt)
    × ((downgrade_base operations in_use).1.tables ≡ blank.tables)
    × ((downgrade_base operations in_use).1.indexes ≡ blank.indexes)
downgrade_base-upgrade_head_example =
    downgrade_base-upgrade_head operations operations-IsDatabase blank in_use blank-IsFree refl refl

-- The first revision with two users of one login
abbrev twice : Catalog
twice = record (upgrade_initial operations blank).1 { values = λ t c. "ann" ∷ "ann" ∷ [] }

-- A context whose transactions keep the state of the start
abbrev settled : {S : Type 0} → S → Result (Unit {0}) × S → Result (Unit {0}) × S
settled s (ok u, s') = (ok u, s')
settled s (err e, s') = (err e, s)

abbrev context : Context Catalog
context = record {
  run_migrations = λ c. upgrade_head operations;
  begin_transaction = λ m s. settled s (m s);
  connect = pure tt;
}

abbrev context-IsTransactional : IsTransactional context
context-IsTransactional = record {
  committed = λ m s s' h. rw h refl;
  rolled_back = λ m e s s' h. rw h refl;
}

abbrev environment : Env Catalog
environment = record { db = blank; configured = none; engines = 0; connections = 0 }

main-online_example :
    main context false false "postgresql://" environment
    ≡ (ok tt, left_after (ok tt) at_head environment)
unfolding upgrade_head
main-online_example =
    main-online context context-IsTransactional "postgresql://" environment at_head (ok tt) refl
      refl
