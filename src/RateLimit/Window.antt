-- ===== src/RateLimit/Window.antt =====
-- How many requests one window of the guard lets through, and what a refused one is told.
use fastapi_claude_template.Prelude.{
  ℕ, suc, ◌+◌, ◌-◌, ◌≤◌, ◌<◌, String, ◌≡◌, true, false, Option, none, some, List, [], ◌∷◌, length,
  All, leb, arith, inl, inr, Bool-cases, if◌then◌else◌, ◌∙◌,
}
use fastapi_claude_template.Exec.{err}
use fastapi_claude_template.Redis.{Redis, IsRedis}
use fastapi_claude_template.RateLimit.{RateLimit, EntryJson, window, limit_at, too_many}
use fastapi_claude_template.RateLimit.Laws.{
  IsEntryJson, Counter, current, is_admitted, take, is_ok, IsEntry, limit_at-Counter, limit_at_lem,
  admit_lem,
}

module _ {S : Type 0} (store : Redis S) (json : EntryJson) (self : RateLimit) (key : String) where
  -- How many of the requests at these times the guard lets through
  unfoldable pub admitted : List ℕ → S → ℕ
  admitted [] s = 0
  admitted (t ∷ ts) s =
      let rest = admitted ts (limit_at store json self key t s).1 in
      if is_ok (limit_at store json self key t s).0 then suc rest else rest

current_early : (width : ℕ) (c : Counter) (now : ℕ) → now < c.ends → current width (some c) now ≡ c
unfolding current
current_early width c now early = ground arith

module _ {S : Type 0} (json : EntryJson) (coding : IsEntryJson json) (store : Redis S)
    (laws : IsRedis store) (self : RateLimit) (key : String) where
  -- For a key whose entry stands for a counter at or below the limit: while its window lasts, the
  -- requests let through and those that the counter has taken are at most the limit, whatever the
  -- order of their times in the window.
  pub admitted-le :
      (ts : List ℕ) (c : Counter) (s : S)
      → laws.lists s key ≡ []
      → IsEntry json coding (window self) (laws.strings s key) (some c)
      → All (λ t. (t < c.ends) × (c.ends ≤ t + window self)) ts
      → c.taken ≤ self.limit
      → admitted store json self key ts s + c.taken ≤ self.limit
  unfolding admitted is_admitted take
  admitted-le [] c s bare entry inside room = omega (arith, room)
  admitted-le (t ∷ ts) c s bare entry ((early, begun), inside) room =
      let counter =
        (rw (current_early (window self) c t early) at
            (limit_at-Counter json coding store laws self key t (some c) s bare entry))
          begun in
      elim (Bool-cases (is_admitted self.limit c)) [
        | inl free ↦
            let next = rw free at counter in
            let more =
              admitted-le ts (record { taken = suc c.taken; ends = c.ends })
                (limit_at store json self key t s).1 next.2 next.1 inside (ground arith) in
            rw next.0 (omega (arith, more))
        | inr full ↦
            let next = rw full at counter in
            rw next.0
              (admitted-le ts c (limit_at store json self key t s).1 next.2 next.1 inside room)
      ]

  -- For a key whose entry stands for a counter that is full, and a clock that has not gone back to
  -- before the counter's window began, a request is refused with `TooManyRequestsError` for the rest
  -- of the window, at least one second and at most its length, and it leaves the store as it was.
  pub limit_at-refused :
      (t : ℕ) (c : Option Counter) (s : S)
      → laws.lists s key ≡ []
      → IsEntry json coding (window self) (laws.strings s key) c
      → (current (window self) c t).ends ≤ t + window self
      → is_admitted self.limit (current (window self) c t) ≡ false
      → (wait : ℕ) × (1 ≤ wait)
        × (wait ≤ window self)
        × ((current (window self) c t).ends ≡ t + wait)
        × (limit_at store json self key t s ≡ (err (too_many self wait), s))
  unfolding is_admitted
  limit_at-refused t c s bare entry begun full =
      let (found, run, (same, n, early, stamps)) =
        limit_at_lem json coding store laws self key t c s bare entry in
      let taken : leb self.limit (length found.0) ≡ true = ground arith in
      (
        found.1 - t,
        omega arith,
        omega (arith, same, begun),
        omega (arith, same, early),
        run
            ∙ rw taken at
                (admit_lem json coding store laws self key t found.0 found.1 s early stamps),
      )

renewed :
    (width limit t wait : ℕ) (c : Option Counter)
    → 1 ≤ limit
    → is_admitted limit (current width c t) ≡ false
    → (current width c t).ends ≡ t + wait
    → current width c (t + wait) ≡ record { taken = 0; ends = (t + wait) + width }
unfolding current is_admitted
renewed width limit t wait none pos full e = ground arith
renewed width limit t wait (some c) pos full e = ground arith

module _ {S : Type 0} (json : EntryJson) (coding : IsEntryJson json) (store : Redis S)
    (laws : IsRedis store) (self : RateLimit) (key : String) where
  -- With a limit of one at least, a refused client that waits as long as it was told is let through:
  -- under the conditions of a refusal, the request is refused for some `wait`, and one at that time
  -- later, after any requests that left the store as it was, is admitted.
  pub limit_at-again :
      (t : ℕ) (c : Option Counter) (s : S)
      → 1 ≤ self.limit
      → laws.lists s key ≡ []
      → IsEntry json coding (window self) (laws.strings s key) c
      → (current (window self) c t).ends ≤ t + window self
      → is_admitted self.limit (current (window self) c t) ≡ false
      → (wait : ℕ) × (limit_at store json self key t s ≡ (err (too_many self wait), s))
        × (is_ok (limit_at store json self key (t + wait) s).0 ≡ true)
  unfolding is_admitted
  limit_at-again t c s pos bare entry begun full =
      let (wait, _, _, ends, refused) =
        limit_at-refused json coding store laws self key t c s bare entry begun full in
      let fresh = renewed (window self) self.limit t wait c pos full ends in
      let (found, _, _) =
        limit_at-Counter json coding store laws self key (t + wait) c s bare entry
          (rw fresh (omega arith)) in
      (wait, refused, found ∙ rw fresh (ground arith))
