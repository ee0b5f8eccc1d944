-- ===== src/ResponseCache/Laws.antt =====
-- The cache of responses: what a hit returns, and what an invalidation undoes.
use fastapi_claude_template.Prelude.{
  Bool-cases, inl, inr, ◌≤◌, String, ◌≡◌, refl, sym, subst, ap, true, false, Option, none, some, [],
  ◌∷◌, is_empty, eq_refl, arith, ℕ,
}
use fastapi_claude_template.Exec.{Result, Exec, ok}
use fastapi_claude_template.Exec.Laws.{bind-eq-ok}
use fastapi_claude_template.Exec.Pure.{IsPure, IsPure-ok, pure-IsPure, bind-IsPure, if-IsPure}
use fastapi_claude_template.Redis.{is_expiry, Redis, IsRedis, is_literal}
use fastapi_claude_template.Cache
use fastapi_claude_template.Cache.Laws as Laws
use fastapi_claude_template.ResponseCache.Pure.{builder-IsPure, format_key-IsPure}
use fastapi_claude_template.World.{World, on_cache}
use fastapi_claude_template.ResponseCache.{
  HttpRequest, Python, ResponseCache, Answer, computed, stored, attach, execute, execute_with,
  invalidate, cache_key, key_or_built, format_key, serve, store,
}

module _ {J C D : Type 0} (python : Python J) where
  key_or_built-IsPure :
      (request : HttpRequest) (formatted : Option String)
      → IsPure {S = World C D} (key_or_built python request formatted)
  key_or_built-IsPure request none = builder-IsPure python request
  key_or_built-IsPure request (some k) =
      if-IsPure (is_empty k) (builder-IsPure python request) (pure-IsPure k)

  pub cache_key-IsPure :
      (request : HttpRequest) (key : Option String)
      → IsPure {S = World C D} (cache_key python request key)
  unfolding cache_key
  cache_key-IsPure request key =
      bind-IsPure (format_key-IsPure python request key) (key_or_built-IsPure request)

module _ {C : Type 0} (r : Redis C) (laws : IsRedis r) where
  get-set :
      (k v : String) (ex : Option ℕ) (c : C)
      → is_expiry ex ≡ true
      → r.get k (r.set k v ex c).1 ≡ (ok (some v), (r.set k v ex c).1)
  get-set k v ex c valid = ground (
    arith,
    eq_refl k,
    laws.lists-set k v ex c k valid,
    laws.strings-set k v ex c k valid,
    laws.get_lem k (r.set k v ex c).1,
  )

  get-delete :
      (k : String) (c : C)
      → is_literal k ≡ true
      → r.get k (Cache.delete r (k ∷ []) c).1 ≡ (ok none, (Cache.delete r (k ∷ []) c).1)
  get-delete k c lit = ground (
    arith,
    eq_refl k,
    Laws.lists-delete_literal r laws k c k lit,
    Laws.strings-delete_literal r laws k c k lit,
    laws.get_lem k (Cache.delete r (k ∷ []) c).1,
  )

module _ {C D : Type 0} (r : Redis C) (laws : IsRedis r) where
  get-store :
      (ex : ℕ) (k json : String) (v w : World C D)
      → store r ex k (some json) v ≡ (ok tt, w)
      → r.get k w.cache ≡ (ok (some json), w.cache)
  unfolding Cache.set
  get-store ex k json v w h = elim (Bool-cases (is_expiry (some ex))) [
    | inl valid ↦
        subst (λ c. r.get k c ≡ (ok (some json), c)) (ap (λ x. x.1.cache) h)
          (get-set r laws k json (some ex) v.cache valid)
    | inr no_expiry ↦
        let (e, refused) = laws.set_refused k json (some ex) v.cache no_expiry in
        cc (rw refused at h)
  ]

  store_ok :
      (ex : ℕ) (k : String) (dumped : Option String) (v : World C D)
      → is_expiry (some ex) ≡ true
      → (store r ex k dumped v).0 ≡ ok tt
  unfolding Cache.set
  store_ok ex k none v valid = refl
  store_ok ex k (some json) v valid = laws.set_ok k json (some ex) v.cache valid

computed_path :
    {R W : Type 0} {a a' : R} {w w' : W}
    → ◌≡◌ {A = Result (Answer R) × W} (ok (computed a), w) (ok (computed a'), w')
    → (a ≡ a') × (w ≡ w')
computed_path h = (cc, cc)

module _ {R C D : Type 0} (dump : R → Option String) (r : Redis C) where
  serve-computed :
      (expires_in : ℕ) (k : String) (use_case : Exec (World C D) R) (w w' : World C D) (a : R)
      (o : Option String)
      → serve dump r expires_in k use_case o w ≡ (ok (computed a), w')
      → (v : World C D) × (store r expires_in k (dump a) v ≡ (ok tt, w'))
  serve-computed expires_in k use_case w w' a (some found) h = cc
  serve-computed expires_in k use_case w w' a none h =
      let (a', _, h1) = bind-eq-ok use_case _ w h in
      let (u, e2, h2) = bind-eq-ok (store r expires_in k (dump a')) _ (use_case w).1 h1 in
      let (same, ends) = computed_path h2 in ((use_case w).1, rw (sym same) (λ i. (e2 i, ends i)))

module _ {R C D : Type 0} (dump : R → Option String) (r : Redis C) (laws : IsRedis r) where
  serve-missed :
      (expires_in : ℕ) (k : String) (use_case : Exec (World C D) R) (w w' : World C D) (a : R)
      → is_expiry (some expires_in) ≡ true
      → use_case w ≡ (ok a, w')
      → (serve dump r expires_in k use_case none w).0 ≡ ok (computed a)
  serve-missed expires_in k use_case w w' a valid h =
      rw h (ground (arith, store_ok r laws expires_in k (dump a) w' valid))

module _ {J R C D : Type 0} (python : Python J) (dump : R → Option String) (r : Redis C)
    (laws : IsRedis r) (self : ResponseCache C) (request : HttpRequest) where
  abbrev pub serves : Exec (World C D) R → Exec (World C D) (Answer R)
  serves = execute python dump (attach self request r)

  execute-hit :
      (k json : String) (use_case : Exec (World C D) R) (w : World C D)
      → cache_key python request self.key w ≡ (ok k, w)
      → r.get k w.cache ≡ (ok (some json), w.cache)
      → serves use_case w ≡ (ok (stored json), w)
  unfolding execute execute_with Cache.get
  execute-hit k json use_case w h g = rw (h, g) refl

  -- What an execution that ran its use case has done
  execute-computed :
      (use_case : Exec (World C D) R) (w w' : World C D) (a : R)
      → serves use_case w ≡ (ok (computed a), w')
      → (k : String) × (v : World C D) × (cache_key python request self.key w ≡ (ok k, w))
        × (store r self.expires_in k (dump a) v ≡ (ok tt, w'))
  unfolding execute execute_with Cache.get
  execute-computed use_case w w' a h =
      let key_only = cache_key-IsPure python request self.key in
      let (k, ek, h1) = bind-eq-ok (cache_key python request self.key) _ w h in
      let (o, eo, h2) = bind-eq-ok (on_cache (Cache.get r k)) _ _ h1 in
      let (v, done) = serve-computed dump r self.expires_in k use_case _ w' a o h2 in
      (k, v, IsPure-ok key_only w w ek, done)

  -- Once a use case's model has been returned, the same request is served from the cache as long as
  -- the cache is as it was left: the model's JSON comes back, nothing is run and nothing changes.
  pub execute-again :
      (use_case use_case' : Exec (World C D) R) (w w' later : World C D) (a : R) (json : String)
      → serves use_case w ≡ (ok (computed a), w')
      → dump a ≡ some json
      → later.cache ≡ w'.cache
      → serves use_case' later ≡ (ok (stored json), later)
  execute-again use_case use_case' w w' later a json h e same =
      let (k, v, ek, done) = execute-computed use_case w w' a h in
      execute-hit k json use_case' later
        (IsPure-ok (cache_key-IsPure python request self.key) w later (ap (λ x. x.0) ek))
        (subst (λ c. r.get k c ≡ (ok (some json), c)) (sym same)
          (get-store r laws self.expires_in k json v w'
            (subst (λ o. store r self.expires_in k o v ≡ (ok tt, w')) e done)))

  cleared :
      (k : String) (w w1 : World C D)
      → format_key python request self.key w ≡ (ok (some k), w)
      → is_empty k ≡ false
      → is_literal k ≡ true
      → invalidate python self request r w ≡ (ok tt, w1)
      → r.get k w1.cache ≡ (ok none, w1.cache)
  unfolding invalidate
  cleared k w w1 hk full lit h =
      subst (λ c. r.get k c ≡ (ok none, c)) (ap (λ x. x.1.cache) (rw (hk, full) at h))
        (get-delete r laws k w.cache lit)

  keyed :
      (k : String) (w w1 : World C D)
      → format_key python request self.key w ≡ (ok (some k), w)
      → is_empty k ≡ false
      → cache_key python request self.key w1 ≡ (ok k, w1)
  unfolding cache_key
  keyed k w w1 hk full =
      rw (IsPure-ok (format_key-IsPure python request self.key) w w1 (ap (λ x. x.0) hk), full) refl

  -- After an invalidation of the request's key, which is neither empty nor a pattern, the request
  -- is served by its use case again, when that returns and the time to live is not 0, which Redis
  -- refuses.
  pub execute-invalidate :
      (k : String) (use_case : Exec (World C D) R) (w w1 w2 : World C D) (a : R)
      → format_key python request self.key w ≡ (ok (some k), w)
      → is_empty k ≡ false
      → is_literal k ≡ true
      → 1 ≤ self.expires_in
      → invalidate python self request r w ≡ (ok tt, w1)
      → use_case w1 ≡ (ok a, w2)
      → (serves use_case w1).0 ≡ ok (computed a)
  unfolding execute execute_with Cache.get
  execute-invalidate k use_case w w1 w2 a hk full lit lasting h u =
      rw (keyed k w w1 hk full, cleared k w w1 hk full lit h)
        (serve-missed dump r laws self.expires_in k use_case w1 w2 a (ground (arith, lasting)) u)
