-- ===== src/Prelude/Text.antt =====
-- Python's `str` operations that the program uses, over the native text.
use Prim.Native.Nat.{ℕ, zero, suc, ◌/◌, ◌%◌}
use Prim.Native.Char.{Char, code}
use Prim.Native.String
use Prim.Native.String.{String, [], ◌∷◌}
use mathlib.Core.Path.{◌≡◌, refl}
use mathlib.Core.Bool.{Bool, true, false, not, ◌&&◌}
use mathlib.Core.List.{List}
use fastapi_claude_template.Prelude.Tests.{nat_beq, ltb, if◌then◌else◌}

-- `s + t`, and what an f-string does with its parts
infixr 65 ◌<>◌
abbrev pub ◌<>◌ : String → String → String
s <> t = String.◌++◌ s t

-- `not s` for a text: only the empty one is false
abbrev pub is_empty : String → Bool
is_empty [] = true
is_empty (c ∷ s) = false

abbrev pub is_colon : Char → Bool
is_colon c = nat_beq (code c) b':'

abbrev pub no_colon : String → Bool
no_colon [] = true
no_colon (c ∷ s) = not (is_colon c) && no_colon s

-- `sep.join(parts)`
unfoldable pub join : String → List String → String
join sep List.[] = ""
join sep (List.◌∷◌ p List.[]) = p
join sep (List.◌∷◌ p (List.◌∷◌ q ps)) = p <> sep <> join sep (List.◌∷◌ q ps)

abbrev pub digit : ℕ → Char
digit n =
    if nat_beq n 0
    then "0"
    else if nat_beq n 1
    then "1"
    else if nat_beq n 2
    then "2"
    else if nat_beq n 3
    then "3"
    else if nat_beq n 4
    then "4"
    else if nat_beq n 5
    then "5"
    else if nat_beq n 6
    then "6"
    else if nat_beq n 7
    then "7"
    else if nat_beq n 8
    then "8"
    else "9"

-- The digits of `n` before `out`; a number has at most as many digits as its successor counts.
unfoldable pub decimal_from : ℕ → ℕ → String → String
decimal_from zero n out = out
decimal_from (suc fuel) n out =
    let out' = digit (n % 10) ∷ out in
    let more = decimal_from fuel (n / 10) out' in if ltb n 10 then out' else more

-- `str(n)`
unfoldable pub decimal : ℕ → String
unfolding decimal_from
decimal n = decimal_from (suc n) n ""

decimal_tests : (decimal 0 ≡ "0") × (decimal 3600 ≡ "3600") × (decimal 86400 ≡ "86400")
unfolding decimal
decimal_tests = (refl, refl, refl)
