-- ===== src/Wiring.antt =====
-- src/common/di/container.py, src/common/tools/singleton.py and `DBGateway` of
-- src/database/psql/__init__.py. Dishka's containers are known by the providers that they were made
-- of and their parent; repositories by what their constructor returned.
pub mod Laws
use fastapi_claude_template.Prelude.{
  ℕ, suc, String, Bool, true, false, Option, none, some, List, [], ◌∷◌, ◌++◌, Dict, lookup, insert,
}
use fastapi_claude_template.Errors.{runtime_error}
use fastapi_claude_template.Exec.{ok, Exec, pure, raise, ◌>>=◌, ◌>>◌}

-- `make_container(*providers)` with its `parent_container`
pub data Container (P : Type 0) : Type 0 where
  root : List P → Container P
  child : List P → Container P → Container P

abbrev pub made : {P : Type 0} → List P → Option (Container P) → Container P
made providers none = root providers
made providers (some parent) = child providers parent

pub record DynamicContainer (P : Type 0) : Type 0 where
  pub container : Option (Container P)
  pub sync_container : Option (Container P)

abbrev pub new_container : {P : Type 0} → DynamicContainer P
new_container = record { container = none; sync_container = none }

module _ {P : Type 0} where
  abbrev pub rebuild_container : List P → DynamicContainer P → DynamicContainer P
  rebuild_container providers self = record self {
    container = some (made providers self.container);
  }

  abbrev pub rebuild_sync_container : List P → DynamicContainer P → DynamicContainer P
  rebuild_sync_container providers self = record self {
    sync_container = some (made providers self.sync_container);
  }

  unfoldable pub add_providers : List P → DynamicContainer P → DynamicContainer P
  add_providers providers self = rebuild_sync_container providers (rebuild_container providers self)

  abbrev pub container_or_raise : {S : Type 0} → Option (Container P) → Exec S (Container P)
  container_or_raise none = raise (runtime_error "Container is not initialized")
  container_or_raise (some c) = pure c

  unfoldable pub get_container : {S : Type 0} → DynamicContainer P → Exec S (Container P)
  get_container self = container_or_raise self.container

  unfoldable pub get_sync_container : {S : Type 0} → DynamicContainer P → Exec S (Container P)
  get_sync_container self = container_or_raise self.sync_container

-- A dependency is a callable, here a coroutine that may have effects.
module _ {S A : Type 0} where
  unfoldable pub singleton : A → Exec S A
  singleton dependency = pure dependency

module _ {S A : Type 0} where
  -- `(arg() for arg in args)`
  abbrev pub call_all : List (Exec S A) → Exec S (List A)
  call_all [] = pure []
  call_all (arg ∷ args) = do a ← arg; rest ← call_all args; pure (a ∷ rest)

  -- `{k: dep() for k, dep in deps.items()}`
  abbrev pub call_deps : Dict (Exec S A) → Exec S (Dict A)
  call_deps [] = pure []
  call_deps ((k, dep) ∷ deps) = do a ← dep; rest ← call_deps deps; pure ((k, a) ∷ rest)

module _ {S A B : Type 0} where
  unfoldable pub lazy : (List A → Dict A → Exec S B) → List (Exec S A) → Dict (Exec S A) → Exec S B
  lazy v args deps = do values ← call_all args; named ← call_deps deps; v values named

-- The gateway's cache of repositories beside what making one changes
pub record Gateway (S R : Type 0) : Type 0 where
  pub cache : Dict R
  pub inner : S

module _ {S R : Type 0} where
  abbrev pub on_inner : Exec S R → Exec (Gateway S R) R
  on_inner m g = ((m g.inner).0, record g { inner = (m g.inner).1 })

  abbrev pub remember : String → R → Exec (Gateway S R) R
  remember key r g = (ok r, record g { cache = insert key r g.cache })

  abbrev pub cached_or_made : String → Exec S R → Option R → Exec (Gateway S R) R
  cached_or_made key factory (some r) = pure r
  cached_or_made key factory none = do r ← on_inner factory; remember key r

  -- `DBGateway._from_cache`; repositories and the executor of queries are always true.
  unfoldable pub from_cache : String → Exec S R → Exec (Gateway S R) R
  unfolding lookup insert
  from_cache key factory g = cached_or_made key factory (lookup key g.cache) g

  -- The gateway's properties, over the constructors on the session
  abbrev pub query_executor : Exec S R → Exec (Gateway S R) R
  query_executor executor = from_cache "query_executor" executor

  abbrev pub user : Exec S R → Exec (Gateway S R) R
  user repository = from_cache "user" repository

  abbrev pub role : Exec S R → Exec (Gateway S R) R
  role repository = from_cache "role" repository
