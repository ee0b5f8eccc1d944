-- ===== src/RateLimit/Laws.antt =====
-- The guard against a fixed-window counter.
use fastapi_claude_template.Prelude.{
  ℕ, suc, ◌+◌, ◌-◌, ◌≤◌, ◌<◌, String, ◌≡◌, refl, sym, subst, ◌∙◌, Bool, true, false, Option, none,
  some, List, [], ◌∷◌, length, All, is_empty, leb, ltb, arith, inl, inr, Bool-cases, if◌then◌else◌,
  lt→ltb, eq_refl,
}
use fastapi_claude_template.Exec.{Result, ok, err}
use fastapi_claude_template.Redis.{is_expiry, Redis, IsRedis}
use fastapi_claude_template.Cache
use fastapi_claude_template.RateLimit.{
  RateLimit, EntryJson, DurationUnit, duration_value, window, prune_history, entry_at, read_history,
  get_history, save_history, admit, limit_at, too_many, build_headers, second, minute, hour, day,
}

-- What the guard relies on in orjson.
pub record IsEntryJson (json : EntryJson) : Type 0 where
  pub loads-dumps : (h : List ℕ) (r : ℕ) → json.loads (json.dumps h r) ≡ some (some h, some r)
  pub dumps-nonempty : (h : List ℕ) (r : ℕ) → is_empty (json.dumps h r) ≡ false

-- The counter that a client sees: how many requests the window has taken, and when it ends.
pub record Counter : Type 0 where
  pub taken : ℕ
  pub ends : ℕ

-- The counter in force at a time
unfoldable pub current : ℕ → Option Counter → ℕ → Counter
current window none now = record { taken = 0; ends = now + window }
current window (some c) now =
    if leb c.ends now then record { taken = 0; ends = now + window } else c

unfoldable pub is_admitted : ℕ → Counter → Bool
is_admitted limit c = ltb c.taken limit

unfoldable pub take : ℕ → Counter → Counter
unfolding is_admitted
take limit c = if is_admitted limit c then record { taken = suc c.taken; ends = c.ends } else c

abbrev pub is_ok : {A : Type 0} → Result A → Bool
is_ok (ok a) = true
is_ok (err e) = false

duration_value-pos : (d : DurationUnit) → 1 ≤ duration_value d
unfolding duration_value
duration_value-pos second = omega arith
duration_value-pos minute = omega arith
duration_value-pos hour = omega arith
duration_value-pos day = omega arith

window-pos : (self : RateLimit) → 1 ≤ window self
unfolding window
window-pos self = duration_value-pos self.duration

window-is_expiry : (self : RateLimit) → is_expiry (some (window self)) ≡ true
window-is_expiry self = ground (arith, window-pos self)

-- A stamp of a window that has not ended is kept.
prune_history-noop :
    (h : List ℕ) (now window ends : ℕ)
    → now < ends
    → All (λ ts. ends ≤ ts + window) h
    → prune_history h now window ≡ h
unfolding prune_history
prune_history-noop [] now window ends early stamps = refl
prune_history-noop (t ∷ h) now window ends early stamps =
    ground (arith, prune_history-noop h now window ends early stamps.1, lt→ltb now (t + window))

module _ (json : EntryJson) (coding : IsEntryJson json) where
  -- What the store holds under a client's key, for its counter: the stamps counted, each less than a
  -- window before the end.
  abbrev pub IsEntry : ℕ → Option String → Option Counter → Type 0
  IsEntry width raw none = raw ≡ none
  IsEntry width raw (some c) =
      (h : List ℕ) × (raw ≡ some (json.dumps h c.ends))
      × (c.taken ≡ length h)
      × All (λ ts. c.ends ≤ ts + width) h

  -- What `read_history` finds of a counter
  abbrev IsHistory : ℕ → ℕ → Counter → List ℕ × ℕ → Type 0
  IsHistory width now c (h, reset) =
      (reset ≡ c.ends) × (c.taken ≡ length h) × (now < reset) × All (λ ts. reset ≤ ts + width) h

  module _ {S : Type 0} where
    read_history_lem :
        (width now : ℕ) (raw : Option String) (c : Option Counter) (s : S)
        → 1 ≤ width
        → IsEntry width raw c
        → (found : List ℕ × ℕ) × (read_history json raw now width s ≡ (ok found, s))
          × IsHistory width now (current width c now) found
    unfolding read_history current entry_at
    read_history_lem width now raw none s pos e =
        (([], now + width), rw e refl, (refl, refl, omega arith, tt))
    read_history_lem width now raw (some c) s pos (h, e, n, stamps) =
        let nonempty = coding.dumps-nonempty h c.ends in
        let loaded = coding.loads-dumps h c.ends in
        elim (Bool-cases (leb c.ends now)) [
          | inl over ↦ (
            ([], now + width),
            rw (e, read_history, nonempty, loaded, entry_at, over),
            ground arith,
          )
          | inr early ↦
              ((h, c.ends), rw (e, read_history, nonempty, loaded, entry_at, early), ground arith)
        ]

    module _ (store : Redis S) (laws : IsRedis store) (self : RateLimit) where
      pub admit_lem :
          (key : String) (now : ℕ) (h : List ℕ) (reset : ℕ) (s : S)
          → now < reset
          → All (λ ts. reset ≤ ts + window self) h
          → admit store json self key now (h, reset) s ≡ (
              if leb self.limit (length h) then (err (too_many self (reset - now)), s) else (
                ok (build_headers self (self.limit - suc (length h)) (some (reset - now))),
                (store.set key (json.dumps (now ∷ h) reset) (some (window self)) s).1,
              ))
      unfolding admit save_history Cache.set
      admit_lem key now h reset s early stamps =
          rw (prune_history-noop h now (window self) reset early stamps) (
            ground (
              arith,
              laws.set_ok key (json.dumps (now ∷ h) reset) (some (window self)) s
                  (window-is_expiry self),
            ))

      pub limit_at_lem :
          (key : String) (now : ℕ) (c : Option Counter) (s : S)
          → laws.lists s key ≡ []
          → IsEntry (window self) (laws.strings s key) c
          → (found : List ℕ × ℕ) × (limit_at store json self key now s
              ≡ admit store json self key now found s)
            × IsHistory (window self) now (current (window self) c now) found
      unfolding limit_at get_history Cache.get
      limit_at_lem key now c s bare entry =
          let (found, read, hist) =
            read_history_lem (window self) now (laws.strings s key) c s (window-pos self) entry in
          (found, rw (laws.get_lem key s bare, read) refl, hist)

      -- The counter after a request
      abbrev pub after : Option Counter → ℕ → Option Counter
      after c now =
          let d = current (window self) c now in
          if is_admitted self.limit d then some (take self.limit d) else c

      -- For a key whose entry stands for a counter, and a clock that has not gone back to before the
      -- counter's window began, the guard admits a request exactly when the
      -- fixed-window counter in force has taken fewer than the limit, and the entry that it leaves
      -- stands for the counter after the request: one more taken in the same window if it was
      -- admitted, nothing changed if not.
      pub limit_at-Counter :
          (key : String) (now : ℕ) (c : Option Counter) (s : S)
          → laws.lists s key ≡ []
          → IsEntry (window self) (laws.strings s key) c
          → (current (window self) c now).ends ≤ now + window self
          → (is_ok (limit_at store json self key now s).0
              ≡ is_admitted self.limit (current (window self) c now))
            × IsEntry
                (window self)
                (laws.strings (limit_at store json self key now s).1 key)
                (after c now)
            × (laws.lists (limit_at store json self key now s).1 key ≡ [])
      unfolding is_admitted take
      limit_at-Counter key now c s bare entry begun =
          let (found, run, (same, n, early, stamps)) = limit_at_lem key now c s bare entry in
          let ran = run ∙ admit_lem key now found.0 found.1 s early stamps in
          elim (Bool-cases (is_admitted self.limit (current (window self) c now))) [
            | inl admitted ↦
                let free : leb self.limit (length found.0) ≡ false = ground arith in
                let ran' = rw free at ran in
                let stored = rw (eq_refl key) at (
                  laws.strings-set key (json.dumps (now ∷ found.0) found.1) (some (window self)) s
                    key (window-is_expiry self)) in
                (
                  rw ran' (sym admitted),
                  rw (ran', admitted)
                      (
                        now ∷ found.0,
                        rw (stored, same) refl,
                        omega (arith, n),
                        (begun, subst (λ r. All (λ ts. r ≤ ts + window self) found.0) same stamps),
                      ),
                  rw ran' (
                      rw (eq_refl key) at (
                        laws.lists-set key (json.dumps (now ∷ found.0) found.1) (some (window self))
                          s key (window-is_expiry self))),
                )
            | inr full ↦
                let taken : leb self.limit (length found.0) ≡ true = ground arith in
                let ran' = rw taken at ran in
                (rw ran' (sym full), rw (ran', full) entry, rw ran' bare)
          ]
