-- ===== src/Redis.antt =====
-- The Redis client (`redis.asyncio`, decode_responses=True) that infrastructure/cache/redis.py
-- calls. It is not code of the repository: its commands are parameters, and `IsRedis` states what
-- the Redis documentation says of them. Durations are whole seconds.
pub mod Memory
use fastapi_claude_template.Prelude.{
  leb, ℕ, String, ◌≡◌, Bool, true, false, not, ◌&&◌, ◌||◌, Option, none, some, List, [], ◌∷◌, ◌++◌,
  reverse, any, keep, is_some, ◌==◌, if◌then◌else◌, code, nat_beq,
}
use fastapi_claude_template.Errors.{Failure}
use fastapi_claude_template.Exec.{err, ok, Exec}

pub record Redis (S : Type 0) : Type 0 where
  pub get : String → Exec S (Option String)
  -- SET key value EX ex
  pub set : String → String → Option ℕ → Exec S (Unit {0})
  -- SET key value EX ex NX: whether the key was set
  pub set_nx : String → String → Option ℕ → Exec S Bool
  pub delete : List String → Exec S (Unit {0})
  -- SCAN and KEYS with a glob pattern
  pub scan : String → Exec S (List String)
  pub keys : String → Exec S (List String)
  pub lpush : String → List String → Exec S (Unit {0})
  pub expire : String → ℕ → Exec S (Unit {0})
  -- LRANGE key 0 -1
  pub lrange : String → Exec S (List String)
  -- LREM key 0 value
  pub lrem : String → String → Exec S (Unit {0})
  pub flushall : Exec S (Unit {0})

abbrev pub contains : List String → String → Bool
contains keys k = any (λ j. j == k) keys

-- A pattern with none of the characters that a glob reads specially matches itself only.
abbrev pub is_literal : String → Bool
is_literal String.[] = true
is_literal (String.◌∷◌ c s) =
    not (
      nat_beq (code c) b'*'
      || nat_beq (code c) b'?'
      || nat_beq (code c) b'['
      || nat_beq (code c) 92)
    && is_literal s

abbrev pub is_nil {ℓ} : {A : Type ℓ} → List A → Bool
is_nil [] = true
is_nil (x ∷ xs) = false

-- Redis refuses an expire time of 0.
abbrev pub is_expiry : Option ℕ → Bool
is_expiry none = true
is_expiry (some n) = leb 1 n

-- What the program relies on. `strings` and `lists` show what a key holds at the moment; a command
-- on a list wants a key that holds no string, and the other way round.
pub record IsRedis {S : Type 0} (r : Redis S) : Type 0 where
  pub strings : S → String → Option String
  pub lists : S → String → List String
  pub matches : String → String → Bool
  pub matches_literal : (p k : String) → is_literal p ≡ true → matches p k ≡ (p == k)
  pub get_lem : (k : String) (s : S) → lists s k ≡ [] → r.get k s ≡ (ok (strings s k), s)
  pub set_ok :
      (k v : String) (ex : Option ℕ) (s : S) → is_expiry ex ≡ true → (r.set k v ex s).0 ≡ ok tt
  pub set_refused :
      (k v : String) (ex : Option ℕ) (s : S)
      → is_expiry ex ≡ false
      → (e : Failure) × (r.set k v ex s ≡ (err e, s))
  pub strings-set :
      (k v : String) (ex : Option ℕ) (s : S) (j : String)
      → is_expiry ex ≡ true
      → strings (r.set k v ex s).1 j ≡ (if k == j then some v else strings s j)
  pub lists-set :
      (k v : String) (ex : Option ℕ) (s : S) (j : String)
      → is_expiry ex ≡ true
      → lists (r.set k v ex s).1 j ≡ (if k == j then [] else lists s j)
  pub delete_ok : (ks : List String) (s : S) → (r.delete ks s).0 ≡ ok tt
  pub strings-delete :
      (ks : List String) (s : S) (j : String)
      → strings (r.delete ks s).1 j ≡ (if contains ks j then none else strings s j)
  pub lists-delete :
      (ks : List String) (s : S) (j : String)
      → lists (r.delete ks s).1 j ≡ (if contains ks j then [] else lists s j)
  -- SCAN may return a key more than once, in any order
  pub found : S → String → List String
  pub scan_lem : (p : String) (s : S) → r.scan p s ≡ (ok (found s p), s)
  pub contains-found :
      (p : String) (s : S) (j : String)
      → contains (found s p) j
        ≡ (matches p j && (is_some (strings s j) || not (is_nil (lists s j))))
  pub lrange_lem : (k : String) (s : S) → strings s k ≡ none → r.lrange k s ≡ (ok (lists s k), s)
  pub lpush_ok :
      (k : String) (vs : List String) (s : S) → strings s k ≡ none → (r.lpush k vs s).0 ≡ ok tt
  pub strings-lpush :
      (k : String) (vs : List String) (s : S) (j : String)
      → strings s k ≡ none
      → strings (r.lpush k vs s).1 j ≡ strings s j
  pub lists-lpush :
      (k : String) (vs : List String) (s : S) (j : String)
      → strings s k ≡ none
      → lists (r.lpush k vs s).1 j ≡ (if k == j then reverse vs ++ lists s j else lists s j)
  pub lrem_ok : (k v : String) (s : S) → strings s k ≡ none → (r.lrem k v s).0 ≡ ok tt
  pub strings-lrem :
      (k v : String) (s : S) (j : String)
      → strings s k ≡ none
      → strings (r.lrem k v s).1 j ≡ strings s j
  pub lists-lrem :
      (k v : String) (s : S) (j : String)
      → strings s k ≡ none
      → lists (r.lrem k v s).1 j
        ≡ (if k == j then keep (λ x. not (x == v)) (lists s j) else lists s j)
