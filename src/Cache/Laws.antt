-- ===== src/Cache/Laws.antt =====
-- What the cache's methods do to the keys, from the documented behaviour of the client.
use fastapi_claude_template.Prelude.{
  String, ◌≡◌, refl, Bool, true, not, ◌&&◌, ◌||◌, none, List, [], ◌∷◌, ◌++◌, any, keep, is_some,
  ◌==◌, if◌then◌else◌, arith,
}
use fastapi_claude_template.Exec.{ok}
use fastapi_claude_template.Redis.{Redis, IsRedis, contains, is_literal, is_nil}
use fastapi_claude_template.Cache.{scan_all, delete, delete_found, set_list, get_list, discard}

contains-append :
    (xs ys : List String) (j : String) → contains (xs ++ ys) j ≡ (contains xs j || contains ys j)
contains-append [] ys j = refl
contains-append (x ∷ xs) ys j = ground (arith, contains-append xs ys j)

module _ {S : Type 0} (r : Redis S) (laws : IsRedis r) where
  open laws use {strings, lists, matches}

  present : S → String → Bool
  present s j = is_some (strings s j) || not (is_nil (lists s j))

  abbrev all_found : S → List String → List String
  all_found s [] = []
  all_found s (k ∷ ks) = laws.found s k ++ all_found s ks

  scan_all_lem : (ks : List String) (s : S) → scan_all r ks s ≡ (ok (all_found s ks), s)
  unfolding scan_all
  scan_all_lem [] s = refl
  scan_all_lem (k ∷ ks) s = rw (laws.scan_lem k s, scan_all_lem ks s)

  contains-all_found :
      (ks : List String) (s : S) (j : String)
      → contains (all_found s ks) j ≡ (any (λ p. matches p j) ks && present s j)
  unfolding present
  contains-all_found [] s j = refl
  contains-all_found (k ∷ ks) s j = ground (
    arith,
    contains-append (laws.found s k) (all_found s ks) j,
    laws.contains-found k s j,
    contains-all_found ks s j,
  )

  abbrev hit : List String → String → Bool
  hit ks j = any (λ p. matches p j) ks

  strings-delete_found :
      (l : List String) (s : S) (j : String)
      → strings (delete_found r l s).1 j ≡ (if contains l j then none else strings s j)
  strings-delete_found [] s j = refl
  strings-delete_found (k ∷ ks) s j = laws.strings-delete (k ∷ ks) s j

  lists-delete_found :
      (l : List String) (s : S) (j : String)
      → lists (delete_found r l s).1 j ≡ (if contains l j then [] else lists s j)
  lists-delete_found [] s j = refl
  lists-delete_found (k ∷ ks) s j = laws.lists-delete (k ∷ ks) s j

  delete_found_ok : (l : List String) (s : S) → (delete_found r l s).0 ≡ ok tt
  delete_found_ok [] s = refl
  delete_found_ok (k ∷ ks) s = laws.delete_ok (k ∷ ks) s

  delete_lem : (ks : List String) (s : S) → delete r ks s ≡ delete_found r (all_found s ks) s
  unfolding delete
  delete_lem ks s = rw (scan_all_lem ks s)

  pub delete_ok : (ks : List String) (s : S) → (delete r ks s).0 ≡ ok tt
  delete_ok ks s = rw (delete_lem ks s) (delete_found_ok (all_found s ks) s)

  -- `delete` empties every key that one of its arguments matches as a pattern.
  pub strings-delete :
      (ks : List String) (s : S) (j : String)
      → strings (delete r ks s).1 j ≡ (if hit ks j then none else strings s j)
  unfolding present
  strings-delete ks s j =
      rw (delete_lem ks s)
        (ground (arith, strings-delete_found (all_found s ks) s j, contains-all_found ks s j))

  pub lists-delete :
      (ks : List String) (s : S) (j : String)
      → lists (delete r ks s).1 j ≡ (if hit ks j then [] else lists s j)
  unfolding present
  lists-delete ks s j =
      rw (delete_lem ks s)
        (ground (arith, lists-delete_found (all_found s ks) s j, contains-all_found ks s j))

  -- `delete` returns and takes away what exactly the keys hold, text or list, that one of its
  -- arguments matches as a pattern.
  pub delete-matched :
      (ks : List String) (s : S) (j : String)
      → ((delete r ks s).0 ≡ ok tt)
        × (strings (delete r ks s).1 j ≡ (if any (λ p. matches p j) ks then none else strings s j))
        × (lists (delete r ks s).1 j ≡ (if any (λ p. matches p j) ks then [] else lists s j))
  delete-matched ks s j = (delete_ok ks s, strings-delete ks s j, lists-delete ks s j)

  -- One key with no pattern characters: that key and no other.
  pub strings-delete_literal :
      (k : String) (s : S) (j : String)
      → is_literal k ≡ true
      → strings (delete r (k ∷ []) s).1 j ≡ (if k == j then none else strings s j)
  strings-delete_literal k s j lit =
      ground (arith, strings-delete (k ∷ []) s j, laws.matches_literal k j lit)

  pub lists-delete_literal :
      (k : String) (s : S) (j : String)
      → is_literal k ≡ true
      → lists (delete r (k ∷ []) s).1 j ≡ (if k == j then [] else lists s j)
  lists-delete_literal k s j lit =
      ground (arith, lists-delete (k ∷ []) s j, laws.matches_literal k j lit)

  module _ (k : String) (s : S) (no_string : strings s k ≡ none) where
    pub set_list_ok : (v : String) → (set_list r k (v ∷ []) none s).0 ≡ ok tt
    unfolding set_list
    set_list_ok v = ground (arith, laws.lpush_ok k (v ∷ []) s no_string)

    pub lists-set_list :
        (v j : String)
        → lists (set_list r k (v ∷ []) none s).1 j ≡ (if k == j then v ∷ lists s j else lists s j)
    unfolding set_list
    lists-set_list v j =
        ground
          (arith, laws.lpush_ok k (v ∷ []) s no_string, laws.lists-lpush k (v ∷ []) s j no_string)

    pub strings-set_list : (v j : String) → strings (set_list r k (v ∷ []) none s).1 j ≡ strings s j
    unfolding set_list
    strings-set_list v j =
        ground
          (arith, laws.lpush_ok k (v ∷ []) s no_string, laws.strings-lpush k (v ∷ []) s j no_string)

    pub get_list_lem : get_list r k s ≡ (ok (lists s k), s)
    unfolding get_list
    get_list_lem = laws.lrange_lem k s no_string

    pub discard_ok : (v : String) → (discard r k v s).0 ≡ ok tt
    unfolding discard
    discard_ok v = laws.lrem_ok k v s no_string

    pub lists-discard :
        (v j : String)
        → lists (discard r k v s).1 j
          ≡ (if k == j then keep (λ x. not (x == v)) (lists s j) else lists s j)
    unfolding discard
    lists-discard v j = laws.lists-lrem k v s j no_string

    pub strings-discard : (v j : String) → strings (discard r k v s).1 j ≡ strings s j
    unfolding discard
    strings-discard v j = laws.strings-lrem k v s j no_string
