-- ===== src/Cache.antt =====
-- src/infrastructure/cache/redis.py: `RedisCache`, over the client's commands.
pub mod Laws
use fastapi_claude_template.Prelude.{
  ℕ, zero, suc, String, Bool, true, false, not, Option, none, some, List, [], ◌∷◌, ◌++◌, is_some,
}
use fastapi_claude_template.Exec.{Exec, pure, ◌>>=◌, ◌>>◌}
use fastapi_claude_template.Redis.{Redis, is_nil}

-- `if expire:`, where `None` and zero are false
abbrev expire_if : {S : Type 0} → Redis S → String → Option ℕ → Exec S (Unit {0})
expire_if r key none = pure tt
expire_if r key (some zero) = pure tt
expire_if r key (some (suc n)) = r.expire key (suc n)

-- `if found_keys:`
abbrev delete_found : {S : Type 0} → Redis S → List String → Exec S (Unit {0})
delete_found r [] = pure tt
delete_found r (k ∷ ks) = r.delete (k ∷ ks)

module _ {S : Type 0} (r : Redis S) where
  unfoldable pub get : String → Exec S (Option String)
  get key = r.get key

  unfoldable pub set : String → String → Option ℕ → Exec S (Unit {0})
  set key value expire = r.set key value expire

  -- `[found for key in keys async for found in self._redis.scan_iter(key)]`
  scan_all : List String → Exec S (List String)
  scan_all [] = pure []
  scan_all (key ∷ keys) = do found ← r.scan key; more ← scan_all keys; pure (found ++ more)

  unfoldable pub delete : List String → Exec S (Unit {0})
  unfolding scan_all
  delete keys = do found_keys ← scan_all keys; delete_found r found_keys

  unfoldable pub set_list : String → List String → Option ℕ → Exec S (Unit {0})
  set_list key values expire = do r.lpush key values; expire_if r key expire

  unfoldable pub get_list : String → Exec S (List String)
  get_list key = r.lrange key

  unfoldable pub discard : String → String → Exec S (Unit {0})
  discard key value = r.lrem key value

  unfoldable pub clear : Exec S (Unit {0})
  clear = r.flushall

  unfoldable pub setnx : String → String → Option ℕ → Exec S Bool
  setnx key value expire = r.set_nx key value expire

  -- `bool(await self._redis.keys(key))`
  unfoldable pub exists : String → Exec S Bool
  exists key = do found ← r.keys key; pure (not (is_nil found))

  unfoldable pub keys : Option String → Exec S (List String)
  keys none = r.keys "*"
  keys (some String.[]) = r.keys "*"
  keys (some (String.◌∷◌ c p)) = r.keys (String.◌∷◌ c p)
