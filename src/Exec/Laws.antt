-- ===== src/Exec/Laws.antt =====
-- Stepping through a coroutine whose parts stay shut, and inverting one that has returned.
use fastapi_claude_template.Prelude.{◌≡◌, refl, ap, ◌⊎◌, inl, inr}
use fastapi_claude_template.Errors.{Failure}
use fastapi_claude_template.Exec.{Result, ok, err, Exec, continue, ◌>>=◌}

module _ {ℓ κ ι} {S : Type ℓ} {A : Type κ} {B : Type ι} where
  pub bind-ok :
      (m : Exec S A) (f : A → Exec S B) (s : S) {a : A} {s' : S}
      → m s ≡ (ok a, s')
      → (m >>= f) s ≡ f a s'
  bind-ok m f s h = ap (continue f) h

  pub bind-err :
      (m : Exec S A) (f : A → Exec S B) (s : S) {e : Failure} {s' : S}
      → m s ≡ (err e, s')
      → (m >>= f) s ≡ (err e, s')
  bind-err m f s h = ap (continue f) h

  continue-eq-ok :
      (f : A → Exec S B) (r : Result A) (t : S) {b : B} {s' : S}
      → continue f (r, t) ≡ (ok b, s')
      → (a : A) × (r ≡ ok a) × (f a t ≡ (ok b, s'))
  continue-eq-ok f (ok a) t h = (a, refl, h)
  continue-eq-ok f (err e) t h = cc

  -- What returned went through both parts.
  pub bind-eq-ok :
      (m : Exec S A) (f : A → Exec S B) (s : S) {b : B} {s' : S}
      → (m >>= f) s ≡ (ok b, s')
      → (a : A) × ((m s).0 ≡ ok a) × (f a (m s).1 ≡ (ok b, s'))
  bind-eq-ok m f s h = continue-eq-ok f (m s).0 (m s).1 h

module _ {ℓ κ} {S : Type ℓ} {A : Type κ} where
  pub run-cases :
      (x : Result A × S)
      → ((a : A) × (s : S) × (x ≡ (ok a, s))) ⊎ ((e : Failure) × (s : S) × (x ≡ (err e, s)))
  run-cases (ok a, s) = inl (a, s, refl)
  run-cases (err e, s) = inr (e, s, refl)

pub ok_path {ℓ} : {A : Type ℓ} {a b : A} → ok a ≡ ok b → a ≡ b
ok_path h = cc
