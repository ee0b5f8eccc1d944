-- ===== src/Db/Result/Laws.antt =====
-- What `on_integrity` makes of an exception.
use text.Mathlib.Text.{find?}
use fastapi_claude_template.Prelude.{
  String, ◌≡◌, refl, ap, ◌≢◌, true, false, List, [], ◌∷◌, ◌++◌, ◌<>◌, All, is_some, Bool-cases, ◌⊎◌,
  inl, inr,
}
use fastapi_claude_template.Errors.{Failure, integrity, detailed, conflict, default_app_exception}
use fastapi_claude_template.Exec.{ok, err, Exec}
use fastapi_claude_template.Exec.Laws.{run-cases}
use fastapi_claude_template.Db.Result.{violated, convert, on_integrity}

find_test : is_some (find? "ix_user_login" "login") ≡ true
find_test = refl

-- The text of the database names one of the columns, the first of them `uniq`, and the error is its
-- conflict, or it names none and the error is an `AppException` as such.
abbrev pub Reported : List String → String → Failure → Type 0
Reported uniques origin f =
    ((before after : List String) × (uniq : String) × (uniques ≡ before ++ uniq ∷ after)
      × All (λ u. is_some (find? origin u) ≡ false) before
      × (is_some (find? origin uniq) ≡ true)
      × (f ≡ detailed conflict (uniq <> " already in use")))
    ⊎ (All (λ u. is_some (find? origin u) ≡ false) uniques × (f ≡ default_app_exception))

violated-Reported :
    (uniques : List String) (origin : String) → Reported uniques origin (violated uniques origin)
unfolding violated
violated-Reported [] origin = inr (tt, refl)
violated-Reported (uniq ∷ uniques) origin = elim (Bool-cases (is_some (find? origin uniq))) [
  | inl e ↦ inl ([], uniques, uniq, refl, tt, e, rw e refl)
  | inr e ↦ elim (violated-Reported uniques origin) [
    | inl (before, after, first, split, none_named, named, same) ↦
        inl
          (uniq ∷ before, after, first, ap (λ l. uniq ∷ l) split, (e, none_named), named, rw e same)
    | inr (none_named, same) ↦ inr ((e, none_named), rw e same)
  ]
]

state-convert :
    {S : Type 0} (A : Type 0) (uniques : List String) (f : Failure) (s : S)
    → (convert {A = A} uniques f s).1 ≡ s
state-convert A uniques (integrity m) s = refl
state-convert A uniques _ s = refl

module _ {S A : Type 0} where
  -- The wrapper leaves the state as the coroutine left it.
  pub state-on_integrity :
      (uniques : List String) (m : Exec S A) (s : S) → (on_integrity uniques m s).1 ≡ (m s).1
  unfolding on_integrity
  state-on_integrity uniques m s = elim (run-cases (m s)) [
    | inl (a, s1, h) ↦ rw (h, on_integrity)
    | inr (f, s1, h) ↦ rw (h, on_integrity) (state-convert A uniques f s1)
  ]

  -- A result passes through, and so does every exception but an `IntegrityError`. That one becomes
  -- the ConflictError "<column> already in use" of the first column whose name its text holds, or the
  -- default `AppException` when it holds none. The state is as the coroutine left it.
  pub on_integrity_lem :
      (uniques : List String) (m : Exec S A) (s : S)
      → ((a : A) × (s' : S) × (m s ≡ (ok a, s')) × (on_integrity uniques m s ≡ (ok a, s')))
        ⊎ ((origin : String) × (f : Failure) × (s' : S) × (m s ≡ (err (integrity origin), s'))
            × (on_integrity uniques m s ≡ (err f, s'))
            × Reported uniques origin f)
        ⊎ ((f : Failure) × (s' : S) × (m s ≡ (err f, s'))
            × ((o : String) → f ≢ integrity o)
            × (on_integrity uniques m s ≡ (err f, s')))
  unfolding on_integrity
  on_integrity_lem uniques m s = elim (run-cases (m s)) [
    | inl (a, s', h) ↦ inl (a, s', h, rw (h, on_integrity))
    | inr (integrity origin, s', h) ↦ inr (
        inl (
          origin,
          violated uniques origin,
          s',
          h,
          rw (h, on_integrity),
          violated-Reported uniques origin,
        ))
    | inr (f, s', h) ↦ inr (inr (f, s', h, λ o e. cc, rw (h, on_integrity)))
  ]
