-- ===== src/Exec/Pure.antt =====
-- Coroutines that neither read nor write the state, as those are that only compute and raise.
use fastapi_claude_template.Prelude.{◌≡◌, refl, sym, ap, ◌∙◌, Bool, true, false, if◌then◌else◌}
use fastapi_claude_template.Errors.{Failure}
use fastapi_claude_template.Exec.{Result, ok, err, Exec, pure, raise, continue, ◌>>=◌}

pub record IsPure {S A : Type 0} (m : Exec S A) : Type 0 where
  pub result : Result A
  pub same : (s : S) → m s ≡ (result, s)

module _ {S A : Type 0} where
  pub pure-IsPure : (a : A) → IsPure {S = S} (pure a)
  pure-IsPure a = record { result = ok a; same = λ s. refl }

  pub raise-IsPure : (e : Failure) → IsPure {S = S} {A = A} (raise e)
  raise-IsPure e = record { result = err e; same = λ s. refl }

  pub if-IsPure : (b : Bool) {m n : Exec S A} → IsPure m → IsPure n → IsPure (if b then m else n)
  if-IsPure true p q = p
  if-IsPure false p q = q

module _ {S A B : Type 0} where
  continue-IsPure :
      (f : A → Exec S B)
      → ((a : A) → IsPure (f a))
      → (r : Result A) → IsPure (λ s. continue f (r, s))
  continue-IsPure f p (ok a) = record { result = (p a).result; same = (p a).same }
  continue-IsPure f p (err e) = record { result = err e; same = λ s. refl }

  pub bind-IsPure :
      {m : Exec S A} {f : A → Exec S B} → IsPure m → ((a : A) → IsPure (f a)) → IsPure (m >>= f)
  bind-IsPure {m} {f} p q =
      let rest = continue-IsPure f q p.result in
      record { result = rest.result; same = λ s. ap (continue f) (p.same s) ∙ rest.same s }

module _ {S A : Type 0} {m : Exec S A} (p : IsPure m) where
  -- What it returned anywhere it returns everywhere, and leaves the state.
  pub IsPure-ok : (s s' : S) {a : A} → (m s).0 ≡ ok a → m s' ≡ (ok a, s')
  IsPure-ok s s' h = p.same s' ∙ ap (λ r. (r, s')) (sym (ap (λ x. x.0) (p.same s)) ∙ h)
