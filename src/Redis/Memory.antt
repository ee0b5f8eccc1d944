-- ===== src/Redis/Memory.antt =====
-- A store in memory that behaves as `IsRedis` says: it shows that the assumptions can be met, and
-- runs the examples.
use fastapi_claude_template.Prelude.{
  String, ◌≡◌, refl, Bool, true, false, not, ◌&&◌, ◌||◌, Option, none, some, List, [], ◌∷◌, ◌++◌,
  reverse, keep, is_some, ◌==◌, if◌then◌else◌, arith, eq_iff, Dict, lookup, insert, erase,
  dict_keys, lookup-insert, lookup-erase, Bool-cases, inl, inr, subst,
}
use fastapi_claude_template.Errors.{external}
use fastapi_claude_template.Exec.{err, ok, Exec}
use fastapi_claude_template.Redis.{is_expiry, Redis, IsRedis, contains, is_literal, is_nil}

pub record Memory : Type 0 where
  pub texts : Dict String
  pub seqs : Dict (List String)

abbrev pub empty_memory : Memory
empty_memory = record { texts = []; seqs = [] }

abbrev or_nil : Option (List String) → List String
or_nil none = []
or_nil (some l) = l

unfoldable pub strings : Memory → String → Option String
strings m k = lookup k m.texts

unfoldable pub lists : Memory → String → List String
lists m k = or_nil (lookup k m.seqs)

abbrev matches : String → String → Bool
matches p k = if p == "*" then true else p == k

abbrev present : Memory → String → Bool
present m j = is_some (lookup j m.texts) || not (is_nil (or_nil (lookup j m.seqs)))

pub found : Memory → String → List String
found m p = keep (λ k. matches p k && present m k) (dict_keys m.texts ++ dict_keys m.seqs)

pub erase_all : List String → Memory → Memory
erase_all [] m = m
erase_all (k ∷ ks) m = erase_all ks (record { texts = erase k m.texts; seqs = erase k m.seqs })

pub put : String → String → Memory → Memory
put k v m = record { texts = insert k v m.texts; seqs = erase k m.seqs }

pub put_list : String → List String → Memory → Memory
put_list k l m = record m { seqs = insert k l m.seqs }

abbrev put_expiring : Bool → String → String → Exec Memory (Unit {0})
put_expiring true k v m = (ok tt, put k v m)
put_expiring false k v m = (err (external "ResponseError"), m)

-- `none` is a key that holds no string
abbrev set_absent : String → String → Option String → Exec Memory Bool
set_absent k v none m = (ok true, put k v m)
set_absent k v (some w) m = (ok false, m)

unfoldable pub memory_redis : Redis Memory
unfolding lookup insert erase dict_keys found erase_all put put_list strings lists
memory_redis = record {
  get = λ k m. (ok (strings m k), m);
  set = λ k v ex m. put_expiring (is_expiry ex) k v m;
  set_nx = λ k v ex m. set_absent k v (strings m k) m;
  delete = λ ks m. (ok tt, erase_all ks m);
  scan = λ p m. (ok (found m p), m);
  keys = λ p m. (ok (found m p), m);
  lpush = λ k vs m. (ok tt, put_list k (reverse vs ++ lists m k) m);
  expire = λ k n m. (ok tt, m);
  lrange = λ k m. (ok (lists m k), m);
  lrem = λ k v m. (ok tt, put_list k (keep (λ x. not (x == v)) (lists m k)) m);
  flushall = λ m. (ok tt, empty_memory);
}

pub strings-erase_all :
    (ks : List String) (m : Memory) (j : String)
    → strings (erase_all ks m) j ≡ (if contains ks j then none else strings m j)
unfolding strings erase_all
strings-erase_all [] m j = refl
strings-erase_all (k ∷ ks) m j = ground (
  arith,
  strings-erase_all ks (record { texts = erase k m.texts; seqs = erase k m.seqs }) j,
  lookup-erase k j m.texts,
)

pub lists-erase_all :
    (ks : List String) (m : Memory) (j : String)
    → lists (erase_all ks m) j ≡ (if contains ks j then [] else lists m j)
unfolding lists erase_all
lists-erase_all [] m j = refl
lists-erase_all (k ∷ ks) m j = ground (
  arith,
  lists-erase_all ks (record { texts = erase k m.texts; seqs = erase k m.seqs }) j,
  lookup-erase k j m.seqs,
)

contains-dict_keys :
    {V : Type 0} (d : Dict V) (j : String)
    → is_some (lookup j d) ≡ true
    → contains (dict_keys d) j ≡ true
unfolding lookup dict_keys
contains-dict_keys [] j h = h
contains-dict_keys ((k, v) ∷ d) j h = ground (arith, contains-dict_keys d j)

contains-keep :
    (p : String → Bool) (xs : List String) (j : String)
    → contains (keep p xs) j ≡ (p j && contains xs j)
contains-keep p [] j = ground arith
contains-keep p (x ∷ xs) j = elim (Bool-cases (x == j)) [
  | inl same ↦ ground (arith, eq_iff x j, contains-keep p xs j)
  | inr other ↦ ground (arith, contains-keep p xs j)
]

contains-append :
    (xs ys : List String) (j : String) → contains (xs ++ ys) j ≡ (contains xs j || contains ys j)
contains-append [] ys j = refl
contains-append (x ∷ xs) ys j = ground (arith, contains-append xs ys j)

present-contains :
    (m : Memory) (j : String)
    → present m j ≡ true
    → contains (dict_keys m.texts ++ dict_keys m.seqs) j ≡ true
present-contains m j h = ground (
  arith,
  contains-append (dict_keys m.texts) (dict_keys m.seqs) j,
  contains-dict_keys m.texts j,
  contains-dict_keys m.seqs j,
)

pub contains-found :
    (p : String) (m : Memory) (j : String)
    → contains (found m p) j ≡ (matches p j && (is_some (strings m j) || not (is_nil (lists m j))))
unfolding found strings lists
contains-found p m j = ground (
  arith,
  contains-keep (λ k. matches p k && present m k) (dict_keys m.texts ++ dict_keys m.seqs) j,
  present-contains m j,
)

pub matches_literal : (p k : String) → is_literal p ≡ true → matches p k ≡ (p == k)
matches_literal p k lit = elim (Bool-cases (p == "*")) [
  | inl star ↦ cc (subst (λ q. is_literal q ≡ true) ((eq_iff p "*").0 star) lit)
  | inr other ↦ ground arith
]

pub lists-put_list :
    (k : String) (l : List String) (m : Memory) (j : String)
    → lists (put_list k l m) j ≡ (if k == j then l else lists m j)
unfolding put_list lists
lists-put_list k l m j = ground (arith, lookup-insert k j l m.seqs)

pub strings-put_list :
    (k : String) (l : List String) (m : Memory) (j : String)
    → strings (put_list k l m) j ≡ strings m j
unfolding put_list strings
strings-put_list k l m j = refl

-- The memory store meets the assumptions.
unfoldable pub memory_redis-IsRedis : IsRedis memory_redis
unfolding memory_redis
memory_redis-IsRedis = record {
  strings = strings;
  lists = lists;
  matches = matches;
  matches_literal = matches_literal;
  get_lem = λ k m h. refl;
  set_ok = λ k v ex m h. rw h refl;
  set_refused = λ k v ex m h. (external "ResponseError", rw h refl);
  strings-set = λ k v ex m j h. rw h (lookup-insert k j v m.texts);
  lists-set = λ k v ex m j h. rw h (ground (arith, lookup-erase k j m.seqs));
  delete_ok = λ ks m. refl;
  strings-delete = strings-erase_all;
  lists-delete = lists-erase_all;
  found = found;
  scan_lem = λ p m. refl;
  contains-found = contains-found;
  lrange_lem = λ k m h. refl;
  lpush_ok = λ k vs m h. refl;
  strings-lpush = λ k vs m j h. strings-put_list k (reverse vs ++ lists m k) m j;
  lists-lpush =
      λ k vs m j h. ground (arith, lists-put_list k (reverse vs ++ lists m k) m j, eq_iff k j);
  lrem_ok = λ k v m h. refl;
  strings-lrem = λ k v m j h. strings-put_list k (keep (λ x. not (x == v)) (lists m k)) m j;
  lists-lrem = λ k v m j h.
      ground (arith, lists-put_list k (keep (λ x. not (x == v)) (lists m k)) m j, eq_iff k j);
}
