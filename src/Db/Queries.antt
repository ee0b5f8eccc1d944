-- ===== src/Db/Queries.antt =====
-- src/database/psql/queries, interfaces/crud.py, interfaces/gateway.py and repositories/base.py: the
-- contracts between the repositories, the queries and the gateway.
use fastapi_claude_template.Prelude.{◌≡◌, refl, ℕ, String, Bool, Option, List}
use fastapi_claude_template.Exec.{Result, Exec, ◌>>=◌}
use fastapi_claude_template.World.{World, on_db}
use fastapi_claude_template.Db.{Table, Values, Clause, OrderBy, Session}
use fastapi_claude_template.Db.Manager.{create_transaction, finish, within}
use fastapi_claude_template.Db.Crud

-- queries/base.py: `QueryObject` on a session whose state is `D`
pub record QueryObject (D Stmt R : Type 0) : Type 0 where
  pub build : Stmt
  pub execute : Stmt → Exec D R

module _ {D Stmt R : Type 0} where
  -- `QueryObject.__call__`
  unfoldable pub call_query : QueryObject D Stmt R → Exec D R
  call_query query = query.execute query.build

  -- queries/executor.py: `QueryExecutor.__call__`
  unfoldable pub execute_query : QueryObject D Stmt R → Exec D R
  unfolding call_query
  execute_query query = call_query query

-- interfaces/crud.py: `AbstractCRUDRepository`
pub record AbstractCrudRepository (D M : Type 0) : Type 0 where
  pub insert : Values → Exec D (Option M)
  pub insert_many : List Values → Exec D (List M)
  pub select : List Clause → Exec D (Option M)
  pub select_many : List Clause → Option (String × OrderBy) → Option ℕ → Option ℕ → Exec D (List M)
  pub update : List Clause → Values → Exec D (List M)
  pub update_many : List Values → Exec D (Unit {0})
  pub delete : List Clause → Exec D (List M)
  pub exists : List Clause → Exec D Bool
  pub count : List Clause → Exec D ℕ

-- repositories/base.py: the `CRUDRepository` that each repository makes of its session and model
unfoldable pub base_repository : {D M : Type 0} → Table D M → AbstractCrudRepository D M
base_repository table = record {
  insert = Crud.insert table;
  insert_many = Crud.insert_many table;
  select = Crud.select table;
  select_many = Crud.select_many table;
  update = Crud.update table;
  update_many = Crud.update_many table;
  delete = Crud.delete table;
  exists = Crud.exists table;
  count = Crud.count table;
}

-- interfaces/gateway.py: `BaseGateway`, whose context manager is the transaction manager
module _ {C D : Type 0} (session : Session D) where
  unfoldable pub gateway_enter : Exec (World C D) Bool
  gateway_enter = on_db (create_transaction session)

module _ {C D A : Type 0} (session : Session D) where
  unfoldable pub gateway_exit : Bool → Result A → Exec (World C D) A
  gateway_exit transaction r = finish session transaction r

  -- `async with gateway: body` is the manager's block.
  within_lem :
      (body : Exec (World C D) A) (w : World C D)
      → (do
        transaction ← gateway_enter session
        λ w'. gateway_exit transaction (body w').0 (body w').1)
          w
        ≡ within session body w
  unfolding gateway_enter gateway_exit within
  within_lem body w = refl
