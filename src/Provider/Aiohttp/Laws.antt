-- ===== src/Provider/Aiohttp/Laws.antt =====
-- Which session a request goes over.
use fastapi_claude_template.Prelude.{
  ◌+◌, ◌⊎◌, Option-cases, ◌≡◌, refl, sym, ap, subst, Bool, true, false, Option, none, some, List,
  [], ◌∷◌, arith, inl, inr, Bool-cases, if◌then◌else◌,
}
use fastapi_claude_template.Provider.Aiohttp.{
  ClientSession, AiohttpProvider, is_open, new_provider, close_session, open_session,
  create_session, set_proxy, Step, create, close, proxy_to, step, run,
}

-- An open session has the provider's connector, unless the connector is to be reset.
abbrev pub IsCurrent : {C : Type 0} → Option (ClientSession C) → Bool → C → Type 0
IsCurrent none reset connector = Unit
IsCurrent (some s) reset connector = (s.closed ≡ true) ⊎ (reset ≡ true) ⊎ (s.connector ≡ connector)

-- And one session at most is open.
abbrev pub IsSound : {C X : Type 0} → AiohttpProvider C X → Type 0
IsSound p =
    IsCurrent p.session p.should_reset_connector p.connector
    × (p.opened ≡ p.ended + (if is_open p.session then 1 else 0))

module _ {C X : Type 0} where
  close_session-IsSound : (p : AiohttpProvider C X) → IsSound p → IsSound (close_session p)
  unfolding close_session is_open
  close_session-IsSound p h = elim (Option-cases p.session) [
    | inl e ↦ rw e (rw e at h)
    | inr (s, e) ↦ elim (Bool-cases s.closed) [
      | inl c ↦ rw (e, c) (rw (e, c) at h)
      | inr c ↦ rw (e, c) (inl refl, omega (arith, (rw (e, c) at h).1))
    ]
  ]

  open_session-IsSound : (p : AiohttpProvider C X) → IsSound p → IsSound (open_session p)
  unfolding open_session is_open
  open_session-IsSound p h = elim (Bool-cases (is_open p.session)) [
    | inl o ↦ rw (open_session, o) h
    | inr o ↦ rw (open_session, o) (inr (inr refl), omega (arith, (rw o at h).1))
  ]

  either-IsSound :
      (b : Bool) (p q : AiohttpProvider C X) → IsSound p → IsSound q → IsSound (if b then p else q)
  either-IsSound true p q h k = h
  either-IsSound false p q h k = k

  create_session-IsSound : (p : AiohttpProvider C X) → IsSound p → IsSound (create_session p)
  unfolding create_session
  create_session-IsSound p h =
      open_session-IsSound _
        (either-IsSound p.should_reset_connector (close_session p) p (close_session-IsSound p h) h)

  set_proxy-IsSound :
      (prepare : X → C) (x : X) (p : AiohttpProvider C X)
      → IsSound p
      → IsSound (set_proxy prepare x p)
  unfolding set_proxy
  set_proxy-IsSound prepare x p h = elim (Option-cases p.session) [
    | inl e ↦ rw e (tt, (rw e at h).1)
    | inr (s, e) ↦ rw e (inr (inl refl), (rw e at h).1)
  ]

  run-IsSound :
      (prepare : X → C) (ss : List (Step X)) (p : AiohttpProvider C X)
      → IsSound p
      → IsSound (run prepare ss p)
  unfolding run step
  run-IsSound prepare [] p h = h
  run-IsSound prepare (create ∷ ss) p h =
      run-IsSound prepare ss (create_session p) (create_session-IsSound p h)
  run-IsSound prepare (close ∷ ss) p h =
      run-IsSound prepare ss (close_session p) (close_session-IsSound p h)
  run-IsSound prepare (proxy_to x ∷ ss) p h =
      run-IsSound prepare ss (set_proxy prepare x p) (set_proxy-IsSound prepare x p h)

  -- What `create_session` leaves
  abbrev Created : C → AiohttpProvider C X → Type 0
  Created connector q =
      (s : ClientSession C) × (q.session ≡ some s) × (s.closed ≡ false) × (s.connector ≡ connector)

  open_session-Created :
      (q : AiohttpProvider C X) → is_open q.session ≡ false → Created q.connector (open_session q)
  unfolding open_session
  open_session-Created q shut =
      (record { connector = q.connector; closed = false }, rw (open_session, shut) refl, refl, refl)

  close_session-shut :
      (p : AiohttpProvider C X)
      → (is_open (close_session p).session ≡ false) × ((close_session p).connector ≡ p.connector)
  unfolding close_session is_open
  close_session-shut p = elim (Option-cases p.session) [
    | inl e ↦ rw e (refl, refl)
    | inr (s, e) ↦ elim (Bool-cases s.closed) [
      | inl c ↦ rw (e, c) (refl, refl)
      | inr c ↦ rw (e, c) (refl, refl)
    ]
  ]

  kept :
      (p : AiohttpProvider C X)
      → IsSound p
      → p.should_reset_connector ≡ false
      → Created p.connector (open_session p)
  unfolding is_open open_session
  kept p h r = elim (Bool-cases (is_open p.session)) [
    | inr shut ↦ open_session-Created p shut
    | inl live ↦ elim (Option-cases p.session) [
      | inl e ↦ cc (rw e at live)
      | inr (s, e) ↦
          let open_ : s.closed ≡ false = ground (arith, rw e at live) in
          let at_e = rw e at h in
          let same : s.connector ≡ p.connector = elim at_e.0 [
            | inl c ↦ cc (c, open_)
            | inr (inl q) ↦ cc (q, r)
            | inr (inr same) ↦ same
          ] in
          (s, rw (open_session, live) e, open_, same)
    ]
  ]

  created : (p : AiohttpProvider C X) → IsSound p → Created p.connector (create_session p)
  unfolding create_session
  created p h = elim (Bool-cases p.should_reset_connector) [
    | inl r ↦
        let (shut, same) = close_session-shut p in
        subst (λ (q : AiohttpProvider C X). Created p.connector q)
          (sym (ap (λ b. open_session (if b then close_session p else p)) r))
          (subst (λ c. Created c (open_session (close_session p))) same
            (open_session-Created (close_session p) shut))
    | inr r ↦
        subst (λ (q : AiohttpProvider C X). Created p.connector q)
          (sym (ap (λ b. open_session (if b then close_session p else p)) r)) (kept p h r)
  ]

module _ {C X : Type 0} (prepare : X → C) (connector : C) (ss : List (Step X)) where
  abbrev after_steps : AiohttpProvider C X
  after_steps = run prepare ss (new_provider connector)

  after_steps-IsSound : IsSound after_steps
  unfolding new_provider is_open
  after_steps-IsSound = run-IsSound prepare ss (new_provider connector) (tt, refl)

  -- Whatever steps a new provider has gone through, a request goes over a session that is open and has
  -- the connector in force, and no other session of the provider is open.
  pub create_session-run :
      (s : ClientSession C) × ((create_session (run prepare ss (new_provider connector))).session
        ≡ some s)
      × (s.closed ≡ false)
      × (s.connector ≡ (run prepare ss (new_provider connector)).connector)
      × ((create_session (run prepare ss (new_provider connector))).opened
          ≡ (create_session (run prepare ss (new_provider connector))).ended + 1)
  unfolding is_open
  create_session-run =
      let (s, here, live, same) = created after_steps after_steps-IsSound in
      let sound = create_session-IsSound after_steps after_steps-IsSound in
      (s, here, live, same, rw (here, live) at sound.1)
