-- ===== src/Logging/Laws.antt =====
-- How often a record is written once logging is set up.
use fastapi_claude_template.Prelude.{
  ℕ, String, ◌≡◌, refl, sym, ◌∙◌, fun_ext, Bool, true, false, some, List, [], ◌∷◌, ◌++◌, Dict,
  lookup, is_some, All, ◌==◌, nat_beq, leb, none, Option, ap, subst, eq_iff, if◌then◌else◌,
  Bool-cases, Option-cases, inl, inr, ◌⊎◌,
}
use fastapi_claude_template.Errors.{key_error}
use fastapi_claude_template.Exec.{ok, err}
use fastapi_claude_template.Settings.{AppSettings}
use fastapi_claude_template.Logging.{
  Logger, Loggers, Handler, handler_of, noisy_loggers, tamed, tame, tame_noisy_loggers, configured,
  setup_logging,
}

-- The handlers that a record meets on its way up: those of its logger, and as long as the loggers
-- propagate those of the ancestors and the root
abbrev pub met : Loggers → List String → List Handler
met loggers [] = loggers.root.handlers
met loggers (name ∷ ancestors) =
    let further = met loggers ancestors in
    (loggers.named name).handlers ++ (if (loggers.named name).propagate then further else [])

-- `Logger.getEffectiveLevel`: the first level on the way up that is set
abbrev pub effective_level : Loggers → List String → ℕ
effective_level loggers [] = loggers.root.level
effective_level loggers (name ∷ ancestors) =
    let further = effective_level loggers ancestors in
    if nat_beq (loggers.named name).level 0 then further else (loggers.named name).level

-- The handlers that write a record of a level, which its logger must let through
abbrev pub written : Loggers → List String → ℕ → List Handler
written loggers path level =
    if leb (effective_level loggers path) level then met loggers path else []

-- The level from which on a logger's records are to be written: the noisy ones have their own, the
-- others what they had or else what their ancestors have, and the root the level of the settings.
abbrev pub own_or : Option ℕ → ℕ → ℕ → ℕ
own_or (some noisy) before further = noisy
own_or none before further = if nat_beq before 0 then further else before

abbrev pub threshold : ℕ → Loggers → List String → ℕ
threshold level before [] = level
threshold level before (name ∷ ancestors) =
    own_or (lookup name noisy_loggers) (before.named name).level (threshold level before ancestors)

-- A logger that adds nothing of its own
abbrev pub IsPlain : Logger → Type 0
IsPlain l = (l.handlers ≡ []) × (l.propagate ≡ true)

-- What the loop leaves of one logger
abbrev pub after_loop : Dict ℕ → String → Logger → Logger
after_loop [] name l = l
after_loop ((other, level) ∷ more) name l =
    after_loop more name (if other == name then tamed level else l)

tame_noisy_loggers_lem :
    (ls : Dict ℕ) (f : String → Logger) (name : String)
    → tame_noisy_loggers ls f name ≡ after_loop ls name (f name)
unfolding tame_noisy_loggers tame
tame_noisy_loggers_lem [] f name = refl
tame_noisy_loggers_lem ((other, level) ∷ more) f name =
    tame_noisy_loggers_lem more (tame other level f) name

abbrev pub is_noisy : Dict ℕ → String → Bool
is_noisy ls name = is_some (lookup name ls)

after_loop-noisy :
    (ls : Dict ℕ) (name : String) (l l' : Logger)
    → is_noisy ls name ≡ true
    → after_loop ls name l ≡ after_loop ls name l'
unfolding lookup
after_loop-noisy [] name l l' h = cc
after_loop-noisy ((other, level) ∷ more) name l l' h = elim (Bool-cases (other == name)) [
  | inl e ↦ rw e refl
  | inr e ↦ rw e (after_loop-noisy more name l l' (rw e at h))
]

after_loop-quiet :
    (ls : Dict ℕ) (name : String) (l : Logger) → is_noisy ls name ≡ false → after_loop ls name l ≡ l
unfolding lookup
after_loop-quiet [] name l h = refl
after_loop-quiet ((other, level) ∷ more) name l h = elim (Bool-cases (other == name)) [
  | inl e ↦ cc (rw e at h)
  | inr e ↦ rw e (after_loop-quiet more name l (rw e at h))
]

-- A table that has each name once, and no level 0
abbrev IsTable : Dict ℕ → Type 0
IsTable [] = Unit
IsTable ((name, level) ∷ more) =
    (is_noisy more name ≡ false) × (nat_beq level 0 ≡ false) × IsTable more

level-after_loop :
    (ls : Dict ℕ) (name : String) (l : Logger) (level : ℕ)
    → IsTable ls
    → lookup name ls ≡ some level
    → ((after_loop ls name l).level ≡ level) × (nat_beq level 0 ≡ false)
unfolding lookup
level-after_loop [] name l level h found = cc
level-after_loop ((other, n) ∷ more) name l level h found = elim (Bool-cases (other == name)) [
  | inl e ↦
      let same : n ≡ level = cc (rw e at found) in
      let gone = subst (λ k. is_noisy more k ≡ false) ((eq_iff other name).0 e) h.0 in
      (
        rw (e, after_loop) (ap (λ x. x.level) (after_loop-quiet more name (tamed n) gone) ∙ same),
        subst (λ m. nat_beq m 0 ≡ false) same h.1,
      )
  | inr e ↦
      let (reached, positive) = level-after_loop more name l level h.2 (rw e at found) in
      (rw (e, after_loop) reached, positive)
]

noisy_loggers-IsTable : IsTable noisy_loggers
unfolding lookup
noisy_loggers-IsTable = (
  refl,
  refl,
  (
    refl,
    refl,
    (
      refl,
      refl,
      (
        refl,
        refl,
        (refl, refl, (refl, refl, (refl, refl, (refl, refl, (refl, refl, (refl, refl, tt)))))),
      ),
    ),
  ),
)

IsPlain-if :
    (b : Bool) (level : ℕ) (l : Logger) → IsPlain l → IsPlain (if b then tamed level else l)
IsPlain-if true level l h = (refl, refl)
IsPlain-if false level l h = h

after_loop-IsPlain :
    (ls : Dict ℕ) (name : String) (l : Logger) → IsPlain l → IsPlain (after_loop ls name l)
after_loop-IsPlain [] name l h = h
after_loop-IsPlain ((other, level) ∷ more) name l h =
    after_loop-IsPlain more name (if other == name then tamed level else l)
      (IsPlain-if (other == name) level l h)

-- A logger that is among the noisy ones, or that adds nothing of its own
abbrev pub HasNoOutput : Loggers → String → Type 0
HasNoOutput loggers name = (is_noisy noisy_loggers name ≡ true) ⊎ IsPlain (loggers.named name)

tame_noisy_loggers-IsPlain :
    (loggers : Loggers) (name : String)
    → HasNoOutput loggers name
    → IsPlain (tame_noisy_loggers noisy_loggers loggers.named name)
tame_noisy_loggers-IsPlain loggers name (inl noisy) =
    rw
      (
        tame_noisy_loggers_lem noisy_loggers loggers.named name,
        after_loop-noisy noisy_loggers name (loggers.named name) (tamed 0) noisy,
      )
      (after_loop-IsPlain noisy_loggers name (tamed 0) (refl, refl))
tame_noisy_loggers-IsPlain loggers name (inr plain) =
    rw (tame_noisy_loggers_lem noisy_loggers loggers.named name)
      (after_loop-IsPlain noisy_loggers name (loggers.named name) plain)

module _ (level_names : Dict ℕ) (upper : String → String) (app : AppSettings) where
  met_once :
      (level : ℕ) (loggers : Loggers) (path : List String)
      → All (HasNoOutput loggers) path
      → met (configured app level loggers) path ≡ handler_of app ∷ []
  unfolding configured
  met_once level loggers [] h = refl
  met_once level loggers (name ∷ ancestors) h =
      let (no_handlers, propagates) = tame_noisy_loggers-IsPlain loggers name h.0 in
      rw (no_handlers, propagates) (met_once level loggers ancestors h.1)

  effective_level_lem :
      (level : ℕ) (loggers : Loggers) (path : List String)
      → effective_level (configured app level loggers) path ≡ threshold level loggers path
  unfolding configured
  effective_level_lem level loggers [] = refl
  effective_level_lem level loggers (name ∷ ancestors) =
      rw
        (
          tame_noisy_loggers_lem noisy_loggers loggers.named name,
          effective_level_lem level loggers ancestors,
        )
        (elim (Option-cases (lookup name noisy_loggers)) [
          | inl e ↦
              rw (e, after_loop-quiet noisy_loggers name (loggers.named name) (ap is_some e)) refl
          | inr (n, e) ↦
              let (set, positive) =
                level-after_loop noisy_loggers name (loggers.named name) n noisy_loggers-IsTable
                  e in
              rw (e, set, positive) refl
        ])

  -- Once logging is set up with a level that has a name, and when each logger on the way of a record
  -- to the root is among the noisy ones or had no handler and propagated, the record is written
  -- exactly once, by the handler of the root with the renderer for production or for the console, if
  -- its level reaches the threshold of its logger, and else not at all. The threshold is the level in
  -- the table for a noisy logger, the one that it had for another, and else that of its ancestors,
  -- for the root the one of the settings. Filters of the loggers and the level at which structlog's
  -- own loggers drop a message before are left out.
  pub setup_logging_once :
      (level n : ℕ) (loggers : Loggers) (path : List String)
      → lookup (upper app.log_level) level_names ≡ some level
      → All (HasNoOutput loggers) path
      → ((setup_logging level_names upper app loggers).0 ≡ ok tt)
        × (written (setup_logging level_names upper app loggers).1 path n
            ≡ (if leb (threshold level loggers path) n then handler_of app ∷ [] else []))
  unfolding setup_logging configured
  setup_logging_once level n loggers path known h = (
    rw known refl,
    rw (known, effective_level_lem level loggers path, met_once level loggers path h) refl,
  )

  tame_twice :
      (f : String → Logger)
      → tame_noisy_loggers noisy_loggers (tame_noisy_loggers noisy_loggers f)
        ≡ tame_noisy_loggers noisy_loggers f
  tame_twice f = fun_ext λ name.
      tame_noisy_loggers_lem noisy_loggers (tame_noisy_loggers noisy_loggers f) name
      ∙ elim (Bool-cases (is_noisy noisy_loggers name)) [
        | inl e ↦
            after_loop-noisy noisy_loggers name _ (f name) e
            ∙ sym (tame_noisy_loggers_lem noisy_loggers f name)
        | inr e ↦ after_loop-quiet noisy_loggers name _ e
      ]

  -- The set-up is idempotent: done again it changes nothing. A level without a name is a KeyError
  -- that comes before anything is changed, so it leaves the loggers as they were.
  pub setup_logging_twice :
      (loggers : Loggers)
      → let (r, loggers') = setup_logging level_names upper app loggers in
        (setup_logging level_names upper app loggers' ≡ (r, loggers'))
        × ((r ≡ ok tt) ⊎ ((r ≡ err (key_error (upper app.log_level))) × (loggers' ≡ loggers)))
  unfolding setup_logging configured
  setup_logging_twice loggers = elim (Option-cases (lookup (upper app.log_level) level_names)) [
    | inl e ↦ rw e (refl, inr (refl, refl))
    | inr (level, e) ↦ rw (e, tame_twice loggers.named) (refl, inl refl)
  ]
