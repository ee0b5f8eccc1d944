-- ===== src/Exec.antt =====
-- Coroutines that read and write what lives outside them and may raise. A raise keeps the writes
-- made before it, so the state comes back beside the error too.
pub mod Laws
pub mod Pure
use fastapi_claude_template.Prelude.{Bool, true, false, Option, none, some, List, [], ◌∷◌}
use fastapi_claude_template.Errors.{Failure}

pub data Result {ℓ} (A : Type ℓ) : Type ℓ where
  ok : A → Result A
  err : Failure → Result A

abbrev pub Exec {ℓ κ} : Type ℓ → Type κ → Type (ℓ ⊔ κ)
Exec S A = S → Result A × S

module _ {ℓ κ} {S : Type ℓ} {A : Type κ} where
  abbrev pub pure : A → Exec S A
  pure a s = (ok a, s)

  abbrev pub raise : Failure → Exec S A
  raise e s = (err e, s)

  abbrev pub gets : (S → A) → Exec S A
  gets f s = (ok (f s), s)

module _ {ℓ κ ι} {S : Type ℓ} {A : Type κ} {B : Type ι} where
  abbrev pub continue : (A → Exec S B) → Result A × S → Result B × S
  continue f (ok a, s) = f a s
  continue f (err e, s) = (err e, s)

  infixl 5 ◌>>=◌ ◌>>◌
  abbrev pub ◌>>=◌ : Exec S A → (A → Exec S B) → Exec S B
  ◌>>=◌ m f s = continue f (m s)

  abbrev pub ◌>>◌ : Exec S A → Exec S B → Exec S B
  m >> n = m >>= λ _. n

module _ {ℓ κ} {S : Type ℓ} {A : Type κ} where
  abbrev recover : (Failure → Exec S A) → Result A × S → Result A × S
  recover h (ok a, s) = (ok a, s)
  recover h (err e, s) = h e s

  -- `try: m` with a handler that gets every exception and may raise it again
  abbrev pub try_except : Exec S A → (Failure → Exec S A) → Exec S A
  try_except m h s = recover h (m s)

-- `if b: raise e`
abbrev pub raise_if {ℓ} : {S : Type ℓ} → Bool → Failure → Exec S (Unit {0})
raise_if true e s = (err e, s)
raise_if false e s = (ok tt, s)

-- `m` with `finally: f`, where what `f` raises goes before what `m` gave
abbrev pub finally {ℓ} : {S : Type ℓ} {A : Type 0} → Exec S A → Exec S (Unit {0}) → Exec S A
finally m f s = continue (λ _ t. ((m s).0, t)) (f (m s).1)
