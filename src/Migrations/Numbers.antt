-- ===== src/Migrations/Numbers.antt =====
-- `add_number_to_migrations` of src/migrations/env.py.
use text.Mathlib.TextLemmas
use fastapi_claude_template.Prelude.{
  ℕ, ◌+◌, String, Char, code, ◌≡◌, ◌≢◌, refl, ap, ◌∙◌, Bool, true, false, not, ◌&&◌, Option, none,
  some, is_empty, ltb, nat_beq, decimal, ◌<>◌, if◌then◌else◌, arith, Bool-cases, inl, inr, is_digit,
  all_digits, digits_value, digits_value-decimal, all_digits-decimal,
}
use fastapi_claude_template.Exec.{Result, ok, err}

-- `s.split("_")[0]`
unfoldable pub before_underscore : String → String
before_underscore String.[] = ""
before_underscore (String.◌∷◌ c s) =
    let rest = before_underscore s in if nat_beq (code c) b'_' then "" else String.◌∷◌ c rest

-- `f"{n:02}"`
unfoldable pub padded : ℕ → String
padded n = if ltb n 10 then "0" <> decimal n else decimal n

-- What `int` makes of a text that is not digits only is a parameter.
module _ (other_int : String → Result ℕ) where
  unfoldable pub int : String → Result ℕ
  unfolding digits_value
  int s = if not (is_empty s) && all_digits s then ok (digits_value 0 s) else other_int s

  abbrev pub numbered : Result ℕ → String → Result String
  numbered (ok n) rev_id = ok (padded (n + 1) <> "_" <> rev_id)
  numbered (err e) rev_id = err e

  -- The new `rev_id`, from that of the current head
  unfoldable pub add_number_to_migrations : Option String → String → Result String
  unfolding before_underscore int padded
  add_number_to_migrations none rev_id = numbered (ok 0) rev_id
  add_number_to_migrations (some head) rev_id = numbered (int (before_underscore head)) rev_id

digit_is_no_underscore : (c : Char) → is_digit c ≡ true → nat_beq (code c) b'_' ≡ false
digit_is_no_underscore c h = ground arith

both_true : (a b : Bool) → (a && b) ≡ true → (a ≡ true) × (b ≡ true)
both_true true true h = (refl, refl)
both_true true false h = cc
both_true false b h = cc

before_underscore_lem : (t r : String) → all_digits t ≡ true → before_underscore (t <> "_" <> r) ≡ t
unfolding before_underscore
before_underscore_lem String.[] r h =
    rw (TextLemmas.nil-append ("_" <> r), TextLemmas.cons-append "_" "" r) refl
before_underscore_lem (String.◌∷◌ c t) r h =
    let (first, others) = both_true (is_digit c) (all_digits t) h in
    rw
      (
        TextLemmas.cons-append c t ("_" <> r),
        digit_is_no_underscore c first,
        before_underscore_lem t r others,
      )
      refl

zero_before : (s : String) → "0" <> s ≡ String.◌∷◌ "0" s
zero_before s =
    TextLemmas.cons-append "0" "" s ∙ ap (λ t. String.◌∷◌ "0" t) (TextLemmas.nil-append s)

padded-digits : (n : ℕ) → all_digits (padded n) ≡ true
unfolding padded
padded-digits n = elim (Bool-cases (ltb n 10)) [
  | inl e ↦ rw (e, zero_before (decimal n)) (all_digits-decimal n)
  | inr e ↦ rw e (all_digits-decimal n)
]

digits_value-padded : (n : ℕ) → digits_value 0 (padded n) ≡ n
unfolding padded digits_value
digits_value-padded n = elim (Bool-cases (ltb n 10)) [
  | inl e ↦ rw (e, zero_before (decimal n)) (digits_value-decimal n)
  | inr e ↦ rw e (digits_value-decimal n)
]

not_empty : (t : String) → digits_value 0 t ≢ 0 → is_empty t ≡ false
unfolding digits_value
not_empty String.[] h = absurd (h refl)
not_empty (String.◌∷◌ c t) h = refl

padded-is_empty : (n : ℕ) → is_empty (padded n) ≡ false
unfolding padded
padded-is_empty n = elim (Bool-cases (ltb n 10)) [
  | inl e ↦ rw (e, zero_before (decimal n)) refl
  | inr e ↦ rw e (not_empty (decimal n) (rw (digits_value-decimal n) λ z. cc (rw z at e)))
]

-- Each new revision follows the one before it: after a head with the number n, whatever its name,
-- comes one with the number n + 1, and the first one of all has the number 1.
pub add_number_to_migrations_lem :
    (other_int : String → Result ℕ) (n : ℕ) (name rev_id : String)
    → (add_number_to_migrations other_int none rev_id ≡ ok ("01" <> "_" <> rev_id))
      × (add_number_to_migrations other_int (some (padded n <> "_" <> name)) rev_id
          ≡ ok (padded (n + 1) <> "_" <> rev_id))
unfolding add_number_to_migrations int padded decimal
add_number_to_migrations_lem other_int n name rev_id = (
  refl,
  rw
      (
        before_underscore_lem (padded n) name (padded-digits n),
        padded-is_empty n,
        padded-digits n,
        digits_value-padded n,
      )
      refl,
)
