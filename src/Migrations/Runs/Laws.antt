-- ===== src/Migrations/Runs/Laws.antt =====
-- What a run of the migrations leaves behind.
use fastapi_claude_template.Prelude.{ℕ, ◌+◌, ◌-◌, String, ◌≡◌, refl, false, some, arith}
use fastapi_claude_template.Exec.{Result, ok, err}
use fastapi_claude_template.Migrations.Runs.{
  Env, Context, IsTransactional, by_connection, run_in_transaction, run_async_migrations,
  run_migrations_online, do_run_migrations, main,
}

-- What is left of an environment: the database kept and the engine disposed, or the database as it
-- was and the engine open
abbrev pub left_after : {S : Type 0} → Result (Unit {0}) → S → Env S → Env S
left_after (ok _) s' env = record env { db = s'; configured = some by_connection }
left_after (err _) s' env = record env {
  configured = some by_connection;
  engines = env.engines + 1;
}

add-sub_one : (n : ℕ) → n + 1 - 1 ≡ n
add-sub_one n = omega arith

module _ {S : Type 0} (context : Context S) (t : IsTransactional context) where
  -- A run over an engine of its own that can connect: when the revisions return, their database is
  -- kept, and the connection is closed and the engine disposed; when one raises, the error comes
  -- out, the database is as it was before all of them and the connection is closed, but the engine
  -- stays open.
  pub main-online :
      (url : String) (env : Env S) (s' : S) (r : Result (Unit {0}))
      → context.connect env.db ≡ (ok tt, env.db)
      → context.run_migrations (some by_connection) env.db ≡ (r, s')
      → main context false false url env ≡ (r, left_after r s' env)
  unfolding main run_async_migrations run_migrations_online do_run_migrations run_in_transaction
  main-online url env s' (ok _) connects h =
      rw (connects, t.committed _ env.db s' h, add-sub_one env.connections, add-sub_one env.engines)
        refl
  main-online url env s' (err e) connects h =
      rw (connects, t.rolled_back _ e env.db s' h, add-sub_one env.connections) refl
