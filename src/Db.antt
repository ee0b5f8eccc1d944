-- ===== src/Db.antt =====
-- src/database/psql: the models, and the SQLAlchemy session, which is not code of the repository.
-- A statement is the value that the repository builds; running it is a parameter.
pub mod Manager
pub mod Result
pub mod Crud
pub mod Queries
pub mod Users
pub mod Roles
use fastapi_claude_template.Prelude.{ℕ, String, Bool, Option, List, Dict}
use fastapi_claude_template.Exec.{Exec}

-- models/types.py
pub data RoleName : Type 0 where
  admin user : RoleName

abbrev pub role_text : RoleName → String
role_text admin = "Admin"
role_text user = "User"

-- models/role.py; a UUID is its canonical text
pub record Role : Type 0 where
  pub uuid : String
  pub name : RoleName

-- models/user.py. `role` is `none` where the relation was not loaded.
pub record User : Type 0 where
  pub uuid : String
  pub login : String
  pub password : String
  pub active : Bool
  pub role_uuid : String
  pub role : Option Role

pub data Value : Type 0 where
  text : String → Value
  flag : Bool → Value
  null : Value

abbrev pub Values : Type 0
Values = Dict Value

-- `column == value` and `column.ilike(pattern)`
pub data Clause : Type 0 where
  equals : String → Value → Clause
  ilike : String → String → Clause

pub data OrderBy : Type 0 where
  asc desc : OrderBy

pub record Select : Type 0 where
  pub where_clauses : List Clause
  pub loads : List String
  pub order_by : Option (String × OrderBy)
  pub offset : Option ℕ
  pub limit : Option ℕ

-- `session.execute` of each kind of statement on the table of `M`, with the rows that it returns
pub record Table (D M : Type 0) : Type 0 where
  pub insert : Values → Exec D (List M)
  pub insert_many : List Values → Exec D (List M)
  pub select : Select → Exec D (List M)
  pub update : List Clause → Values → Exec D (List M)
  pub update_many : List Values → Exec D (Unit {0})
  pub delete : List Clause → Exec D (List M)
  pub exists : List Clause → Exec D Bool
  pub count : List Clause → Exec D ℕ
  -- INSERT … ON CONFLICT (columns) DO UPDATE SET …
  pub upsert : Values → List String → Values → Exec D (List M)
  -- the same with many rows, and the columns that take the value of the row that was not inserted
  pub upsert_many : List Values → List String → List String → Exec D (List M)

-- `D` is the database with the session of the current use case.
pub record Session (D : Type 0) : Type 0 where
  pub users : Table D User
  pub roles : Table D Role
  pub in_transaction : D → Bool
  pub is_active : D → Bool
  pub begin : Exec D (Unit {0})
  pub commit : Exec D (Unit {0})
  pub rollback : Exec D (Unit {0})
  pub close : Exec D (Unit {0})
