-- ===== src/Models/Names.antt =====
-- `pascal_to_snake` of src/common/tools/text.py and the same expression in `Base.__tablename__`, on
-- names in ASCII: `lower` is Python's there.
use Prim.Native.Char.{char, IsScalar}
use Prim.Native.String.{[], ◌∷◌}
use fastapi_claude_template.Prelude.{
  ℕ, ◌+◌, ◌<◌, arith, String, Char, code, Bool, true, false, not, ◌&&◌, ◌≡◌, refl, ap, ◌∙◌, leb,
  ◌<>◌, if◌then◌else◌,
}

abbrev pub is_capital : Char → Bool
is_capital c = leb b'A' (code c) && leb (code c) b'Z'

pub IsScalar-lt : (n : ℕ) → n < 128 → IsScalar n
IsScalar-lt n h = ground arith

pub code-lt : (c : Char) → is_capital c ≡ true → code c + 32 < 128
code-lt c h = ground arith

abbrev pub lower_if : (c : Char) (b : Bool) → is_capital c ≡ b → Char
lower_if c true h = char (code c + 32) (IsScalar-lt (code c + 32) (code-lt c h))
lower_if c false h = c

abbrev pub lower_char : Char → Char
lower_char c = lower_if c (is_capital c) refl

-- `str.lower` on ASCII
unfoldable pub lower : String → String
lower [] = []
lower (c ∷ s) = lower_char c ∷ lower s

-- `re.sub(r"(?<!^)(?=[A-Z])", "_", s)` after the start
unfoldable pub underscored : String → String
underscored [] = []
underscored (c ∷ s) =
    let rest = underscored s in if is_capital c then "_" <> (c ∷ rest) else c ∷ rest

abbrev pub separated : String → String
separated [] = []
separated (c ∷ s) = c ∷ underscored s

unfoldable pub pascal_to_snake : String → String
unfolding lower underscored
pascal_to_snake name = lower (separated name)

abbrev pub no_capital : String → Bool
no_capital [] = true
no_capital (c ∷ s) = not (is_capital c) && no_capital s

is_capital-lower_if :
    (c : Char) (b : Bool) (h : is_capital c ≡ b) → is_capital (lower_if c b h) ≡ false
is_capital-lower_if c true h = ground arith
is_capital-lower_if c false h = h

no_capital-lower : (s : String) → no_capital (lower s) ≡ true
unfolding lower
no_capital-lower [] = refl
no_capital-lower (c ∷ s) = rw (is_capital-lower_if c (is_capital c) refl, no_capital-lower s) refl

lower_if-false : (c : Char) (b : Bool) (h : is_capital c ≡ b) → b ≡ false → lower_if c b h ≡ c
lower_if-false c true h e = cc
lower_if-false c false h e = refl

no_capital-cons :
    (c : Char) (s : String)
    → no_capital (c ∷ s) ≡ true
    → (is_capital c ≡ false) × (no_capital s ≡ true)
no_capital-cons c s h = ground arith

lower-no_capital : (s : String) → no_capital s ≡ true → lower s ≡ s
unfolding lower
lower-no_capital [] h = refl
lower-no_capital (c ∷ s) h =
    let (first, others) = no_capital-cons c s h in
    rw (lower_if-false c (is_capital c) refl first, lower-no_capital s others) refl

underscored-no_capital : (s : String) → no_capital s ≡ true → underscored s ≡ s
unfolding underscored
underscored-no_capital [] h = refl
underscored-no_capital (c ∷ s) h =
    let (first, others) = no_capital-cons c s h in rw (first, underscored-no_capital s others) refl

separated-no_capital : (s : String) → no_capital s ≡ true → separated s ≡ s
separated-no_capital [] h = refl
separated-no_capital (c ∷ s) h =
    ap (λ t. c ∷ t) (underscored-no_capital s (no_capital-cons c s h).1)

-- A name made of a class name has no capitals, and making a name of it again changes nothing.
pub pascal_to_snake_twice :
    (name : String)
    → (no_capital (pascal_to_snake name) ≡ true)
      × (pascal_to_snake (pascal_to_snake name) ≡ pascal_to_snake name)
unfolding pascal_to_snake
pascal_to_snake_twice name =
    let small = no_capital-lower (separated name) in
    (
      small,
      ap lower (separated-no_capital (lower (separated name)) small)
          ∙ lower-no_capital (lower (separated name)) small,
    )

names_tests :
    (pascal_to_snake "RoleTypeEnum" ≡ "role_type_enum")
    × (pascal_to_snake "User" ≡ "user")
    × (pascal_to_snake "" ≡ "")
unfolding pascal_to_snake
names_tests = (refl, refl, refl)
