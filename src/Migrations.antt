-- ===== src/Migrations.antt =====
-- src/migrations/versions: the two revisions, over alembic's operations. These are a parameter;
-- `IsDatabase` states what PostgreSQL documents of the statements that they stand for.
pub mod Catalogs
pub mod Database
pub mod Laws
pub mod Runs
pub mod Numbers
use fastapi_claude_template.Prelude.{String, true, false, Option, none, some, List, [], ◌∷◌}
use fastapi_claude_template.Exec.{Exec, ◌>>=◌, ◌>>◌}
use fastapi_claude_template.Models.{
  Column, ColumnType, string, boolean, uuid, timestamp, enum, Table, Index,
}

pub record Operations (S : Type 0) : Type 0 where
  pub create_table : Table → Exec S (Unit {0})
  pub drop_table : String → Exec S (Unit {0})
  pub create_index : Index → Exec S (Unit {0})
  -- `op.drop_index(name, table_name=…)`
  pub drop_index : String → String → Exec S (Unit {0})
  pub execute : String → Exec S (Unit {0})

-- `sa.Column(name, type, nullable=False)` and with a `server_default`
abbrev pub required : String → ColumnType → Column
required name type_ = record { name = name; type_ = type_; nullable = false; server_default = none }

abbrev pub defaulted : String → ColumnType → String → Column
defaulted name type_ default = record {
  name = name;
  type_ = type_;
  nullable = false;
  server_default = some default;
}

abbrev pub role_table : Table
role_table = record {
  name = "role";
  columns =
      required "name" (enum ("Admin" ∷ "User" ∷ []) "role_type_enum")
      ∷ defaulted "uuid" uuid "gen_random_uuid()"
      ∷ defaulted "created_at" timestamp "now()"
      ∷ defaulted "updated_at" timestamp "now()"
      ∷ [];
  primary_key = "uuid" ∷ [];
  foreign_keys = [];
}

abbrev pub user_table : Table
user_table = record {
  name = "user";
  columns =
      required "login" string
      ∷ required "password" string
      ∷ required "active" boolean
      ∷ required "role_uuid" uuid
      ∷ defaulted "uuid" uuid "gen_random_uuid()"
      ∷ defaulted "created_at" timestamp "now()"
      ∷ defaulted "updated_at" timestamp "now()"
      ∷ [];
  primary_key = "uuid" ∷ [];
  foreign_keys =
      record {
        column = "role_uuid";
        target = "role.uuid";
        name = "fk_user_role";
        ondelete = "RESTRICT";
      }
      ∷ [];
}

abbrev pub role_name_index : Index
role_name_index = record {
  name = "ix_role_name";
  table = "role";
  columns = "name" ∷ [];
  unique = false;
}

abbrev pub user_active_index : Index
user_active_index = record {
  name = "ix_user_active";
  table = "user";
  columns = "active" ∷ [];
  unique = false;
}

abbrev pub user_login_index : Index
user_login_index = record {
  name = "ix_user_login";
  table = "user";
  columns = "login" ∷ [];
  unique = false;
}

abbrev pub insert_roles : String
insert_roles = "INSERT INTO role (name) VALUES ('Admin'), ('User')"

module _ {S : Type 0} (op : Operations S) where
  open op use {create_table, drop_table, create_index, drop_index, execute}

  -- versions/01_3d1a9bc30546_initial.py
  unfoldable pub upgrade_initial : Exec S (Unit {0})
  upgrade_initial = do
    create_table role_table
    create_index role_name_index
    create_table user_table
    create_index user_active_index
    create_index user_login_index
    execute insert_roles

  unfoldable pub downgrade_initial : Exec S (Unit {0})
  downgrade_initial = do
    drop_index "ix_user_login" "user"
    drop_index "ix_user_active" "user"
    drop_table "user"
    drop_index "ix_role_name" "role"
    drop_table "role"

  -- versions/02: the login becomes unique
  unfoldable pub upgrade_unique_login : Exec S (Unit {0})
  upgrade_unique_login = do
    drop_index "ix_user_login" "user"
    create_index (record user_login_index { unique = true })

  unfoldable pub downgrade_unique_login : Exec S (Unit {0})
  downgrade_unique_login = do drop_index "ix_user_login" "user"; create_index user_login_index

  -- `alembic upgrade head` from an empty database and back, each revision in its turn
  unfoldable pub upgrade_head : Exec S (Unit {0})
  unfolding upgrade_initial upgrade_unique_login
  upgrade_head = do upgrade_initial; upgrade_unique_login

  unfoldable pub downgrade_base : Exec S (Unit {0})
  unfolding downgrade_initial downgrade_unique_login
  downgrade_base = do downgrade_unique_login; downgrade_initial
