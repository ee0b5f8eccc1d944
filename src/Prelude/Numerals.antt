-- ===== src/Prelude/Numerals.antt =====
-- Texts of decimal digits, and that `decimal` is read back.
use Prim.Native.Nat.{ℕ, zero, suc, ◌+◌, ◌-◌, ◌*◌, ◌/◌, ◌%◌, ◌<◌}
use Prim.Native.Char.{Char, code}
use Prim.Native.String.{String, [], ◌∷◌}
use mathlib.Core.Path.{◌≡◌, refl, ap, ◌∙◌}
use mathlib.Core.Bool.{Bool, true, ◌&&◌}
use mathlib.Core.Logic.{inl, inr}
use native.Mathlib.Omega.{arith}
use fastapi_claude_template.Prelude.Tests.{ltb, leb, Bool-cases}
use fastapi_claude_template.Prelude.Text.{digit, decimal, decimal_from}

abbrev pub is_digit : Char → Bool
is_digit c = leb b'0' (code c) && leb (code c) b'9'

abbrev pub all_digits : String → Bool
all_digits [] = true
all_digits (c ∷ s) = is_digit c && all_digits s

-- The number that digits after those of `n` stand for
unfoldable pub digits_value : ℕ → String → ℕ
digits_value n [] = n
digits_value n (c ∷ s) = digits_value (n * 10 + (code c - b'0')) s

-- What holds of each digit
digit_cases :
    (P : ℕ → Type 0) (d : ℕ)
    → P 0 × P 1 × P 2 × P 3 × P 4 × P 5 × P 6 × P 7 × P 8 × P 9
    → d < 10
    → P d
digit_cases P zero p h = p.0
digit_cases P (suc zero) p h = p.1
digit_cases P (suc (suc zero)) p h = p.2
digit_cases P (suc (suc (suc zero))) p h = p.3
digit_cases P (suc (suc (suc (suc zero)))) p h = p.4
digit_cases P (suc (suc (suc (suc (suc zero))))) p h = p.5
digit_cases P (suc (suc (suc (suc (suc (suc zero)))))) p h = p.6
digit_cases P (suc (suc (suc (suc (suc (suc (suc zero))))))) p h = p.7
digit_cases P (suc (suc (suc (suc (suc (suc (suc (suc zero)))))))) p h = p.8
digit_cases P (suc (suc (suc (suc (suc (suc (suc (suc (suc zero))))))))) p h = p.9
digit_cases P (suc (suc (suc (suc (suc (suc (suc (suc (suc (suc d)))))))))) p h =
    absurd (omega arith)

digits_value-digit :
    (n d : ℕ) (s : String) → d < 10 → digits_value n (digit d ∷ s) ≡ digits_value (n * 10 + d) s
unfolding digits_value
digits_value-digit n d s h =
    digit_cases (λ d. digits_value n (digit d ∷ s) ≡ digits_value (n * 10 + d) s) d
      (refl, refl, refl, refl, refl, refl, refl, refl, refl, refl) h

all_digits-digit : (d : ℕ) (s : String) → d < 10 → all_digits (digit d ∷ s) ≡ all_digits s
all_digits-digit d s h =
    digit_cases (λ d. all_digits (digit d ∷ s) ≡ all_digits s) d
      (refl, refl, refl, refl, refl, refl, refl, refl, refl, refl) h

digits_value-decimal_from :
    (fuel n : ℕ) (out : String)
    → n < fuel
    → digits_value 0 (decimal_from fuel n out) ≡ digits_value n out
unfolding decimal_from
digits_value-decimal_from zero n out h = elim h [ ]
digits_value-decimal_from (suc fuel) n out h = elim (Bool-cases (ltb n 10)) [
  | inl e ↦ rw e (
      digits_value-digit 0 (n % 10) out (omega arith) ∙ ap (λ k. digits_value k out) (ground arith))
  | inr e ↦
      rw (e, digits_value-decimal_from fuel (n / 10) (digit (n % 10) ∷ out) (ground arith))
        (digits_value-digit (n / 10) (n % 10) out (omega arith)
          ∙ ap (λ k. digits_value k out) (omega arith))
]

all_digits-decimal_from :
    (fuel n : ℕ) (out : String) → all_digits (decimal_from fuel n out) ≡ all_digits out
unfolding decimal_from
all_digits-decimal_from zero n out = refl
all_digits-decimal_from (suc fuel) n out = elim (Bool-cases (ltb n 10)) [
  | inl e ↦ rw e (all_digits-digit (n % 10) out (omega arith))
  | inr e ↦
      rw e (all_digits-decimal_from fuel (n / 10) _ ∙ all_digits-digit (n % 10) out (omega arith))
]

pub digits_value-decimal : (n : ℕ) → digits_value 0 (decimal n) ≡ n
unfolding decimal digits_value
digits_value-decimal n = digits_value-decimal_from (suc n) n "" (omega arith)

pub all_digits-decimal : (n : ℕ) → all_digits (decimal n) ≡ true
unfolding decimal
all_digits-decimal n = all_digits-decimal_from (suc n) n ""
