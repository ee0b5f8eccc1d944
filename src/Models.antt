-- ===== src/Models.antt =====
-- src/database/psql/models: what the classes `Role` and `User` with their mixins declare of their
-- tables. The relationships are left out, and so is `as_dict`. `func.now()` is its SQL text.
pub mod Names
pub mod Dump
use fastapi_claude_template.Prelude.{
  String, Bool, true, false, Option, none, some, List, [], ◌∷◌, ◌++◌,
}
use fastapi_claude_template.Models.Names.{pascal_to_snake}

pub data ColumnType : Type 0 where
  string boolean uuid : ColumnType
  -- `sa.DateTime(timezone=True)`
  timestamp : ColumnType
  -- `sa.Enum(…, native_enum=False, name=…)` with its values
  enum : List String → String → ColumnType

pub record Column : Type 0 where
  pub name : String
  pub type_ : ColumnType
  pub nullable : Bool
  pub server_default : Option String

pub record ForeignKey : Type 0 where
  pub column : String
  pub target : String
  pub name : String
  pub ondelete : String

pub record Table : Type 0 where
  pub name : String
  pub columns : List Column
  pub primary_key : List String
  pub foreign_keys : List ForeignKey

pub record Index : Type 0 where
  pub name : String
  pub table : String
  pub columns : List String
  pub unique : Bool

-- A `mapped_column` that is not an index by itself, with `index=True` and `unique=True`
pub record MappedColumn : Type 0 where
  pub column : Column
  pub index : Bool
  pub unique : Bool
  pub primary_key : Bool
  pub foreign_key : Option ForeignKey

abbrev pub mapped_column : String → ColumnType → MappedColumn
mapped_column name type_ = record {
  column = record { name = name; type_ = type_; nullable = false; server_default = none };
  index = false;
  unique = false;
  primary_key = false;
  foreign_key = none;
}

abbrev pub with_default : String → MappedColumn → MappedColumn
with_default text c = record c { column = record c.column { server_default = some text } }

-- `UUIDMixin`
abbrev pub uuid_mixin : List MappedColumn
uuid_mixin =
    record (with_default "gen_random_uuid()" (mapped_column "uuid" uuid)) { primary_key = true }
    ∷ []

-- `TimeMixin`
abbrev pub time_mixin : List MappedColumn
time_mixin =
    with_default "now()" (mapped_column "created_at" timestamp)
    ∷ with_default "now()" (mapped_column "updated_at" timestamp)
    ∷ []

-- A class: its name and the columns that it maps
pub record Model : Type 0 where
  pub class_name : String
  pub mapped : List MappedColumn

-- `RoleTypeEnum`
abbrev pub role_type_enum : List String
role_type_enum = "Admin" ∷ "User" ∷ []

unfoldable pub role_model : Model
unfolding pascal_to_snake
role_model = record {
  class_name = "Role";
  mapped =
      record (mapped_column "name" (enum role_type_enum (pascal_to_snake "RoleTypeEnum"))) {
        index = true;
      }
        ∷ uuid_mixin
      ++ time_mixin;
}

unfoldable pub user_model : Model
user_model = record {
  class_name = "User";
  mapped =
      record (mapped_column "login" string) { index = true; unique = true }
        ∷ mapped_column "password" string
        ∷ record (mapped_column "active" boolean) { index = true }
        ∷ record (mapped_column "role_uuid" uuid) {
          foreign_key = some (record {
            column = "role_uuid";
            target = "role.uuid";
            name = "fk_user_role";
            ondelete = "RESTRICT";
          });
        }
        ∷ uuid_mixin
      ++ time_mixin;
}

-- `Base.__tablename__`
unfoldable pub tablename : Model → String
unfolding pascal_to_snake
tablename cls = pascal_to_snake cls.class_name

-- What SQLAlchemy makes of the columns
abbrev pub columns_of : List MappedColumn → List Column
columns_of [] = []
columns_of (c ∷ cs) = c.column ∷ columns_of cs

abbrev name_if : Bool → String → List String → List String
name_if true name names = name ∷ names
name_if false name names = names

abbrev pub primary_keys : List MappedColumn → List String
primary_keys [] = []
primary_keys (c ∷ cs) = name_if c.primary_key c.column.name (primary_keys cs)

abbrev key_if : Option ForeignKey → List ForeignKey → List ForeignKey
key_if none keys = keys
key_if (some k) keys = k ∷ keys

abbrev pub foreign_keys_of : List MappedColumn → List ForeignKey
foreign_keys_of [] = []
foreign_keys_of (c ∷ cs) = key_if c.foreign_key (foreign_keys_of cs)

-- The table of a class in `Base.metadata`
unfoldable pub table_of : Model → Table
unfolding tablename
table_of cls = record {
  name = tablename cls;
  columns = columns_of cls.mapped;
  primary_key = primary_keys cls.mapped;
  foreign_keys = foreign_keys_of cls.mapped;
}

-- The indexes of a class. How an index without a name is called is SQLAlchemy's convention, a
-- function of the table and the column.
module _ (index_name : String → String → String) where
  abbrev index_if : Bool → Index → List Index → List Index
  index_if true i more = i ∷ more
  index_if false i more = more

  abbrev pub indexes_on : String → List MappedColumn → List Index
  indexes_on table [] = []
  indexes_on table (c ∷ cs) =
      index_if c.index
        (record {
          name = index_name table c.column.name;
          table = table;
          columns = c.column.name ∷ [];
          unique = c.unique;
        })
        (indexes_on table cs)

  unfoldable pub indexes_of : Model → List Index
  unfolding tablename
  indexes_of cls = indexes_on (tablename cls) cls.mapped
