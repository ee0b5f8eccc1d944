-- ===== src/Formatter.antt =====
-- src/common/tools/formatter.py: `SafeFormatter` and `extract_keys_formatter`, with the parts of
-- Python's `string.Formatter` that they use. What an object's attributes, conversions and format
-- specifications give is a parameter.
pub mod Filling
pub mod Laws
pub mod Pure
use Prim.Native.String
use fastapi_claude_template.Prelude.{
  ℕ, zero, suc, String, Char, code, ◌≡◌, refl, Bool, true, false, not, ◌&&◌, ◌||◌, Option, none,
  some, List, [], ◌∷◌, ◌++◌, nat_beq, ltb, leb, if◌then◌else◌, ◌<>◌, is_empty, Dict, lookup,
}
use fastapi_claude_template.Errors.{Failure, value_error, key_error, external}
use fastapi_claude_template.Exec.{Result, Exec, pure, raise, try_except, ◌>>=◌}

-- What `parse` yields, with the literal text and the field as two pieces: a field has its name, its
-- conversion and its specification.
pub data Piece : Type 0 where
  literal : String → Piece
  field : String → Option Char → String → Piece

-- Where the scan of `Formatter().parse` is. Each state has what it has read so far; `opened` and
-- `closed` are after a brace, and `spec` counts the braces that are open in it.
pub data Mode : Type 0 where
  plain opened closed name index convert : String → Mode
  converted : String → Char → Mode
  spec : String → Option Char → String → ℕ → Mode

abbrev pub add : String → Char → String
add s c = s <> String.◌∷◌ c String.[]

abbrev pub is_char : ℕ → Char → Bool
is_char n c = nat_beq (code c) n

-- The pieces that end at a character and the next state; none is `ValueError`.
abbrev pub Outcome : Type 0
Outcome = Option (List Piece × Mode)

abbrev pub go : Mode → Outcome
go m = some ([], m)

abbrev pub emit : Piece → Outcome
emit p = some (p ∷ [], plain "")

abbrev pub step_name : String → Char → Outcome
step_name n c =
    if is_char b'{' c
    then none
    else if is_char b'}' c
    then emit (field n none "")
    else if is_char b'[' c
    then go (index (add n c))
    else if is_char b'!' c
    then go (convert n)
    else if is_char b':' c
    then go (spec n none "" 0)
    else go (name (add n c))

abbrev pub step_spec : String → Option Char → String → ℕ → Char → Outcome
step_spec n conversion t d c =
    if is_char b'{' c
    then go (spec n conversion (add t c) (suc d))
    else if is_char b'}' c
    then elim d [
      | zero ↦ emit (field n conversion t)
      | suc d' ↦ go (spec n conversion (add t c) d')
    ]
    else go (spec n conversion (add t c) d)

abbrev pub after_literal : String → Outcome → Outcome
after_literal t none = none
after_literal t (some (ps, m)) = some (literal t ∷ ps, m)

abbrev pub step_mode : Mode → Char → Outcome
step_mode (plain t) c =
    if is_char b'{' c
    then go (opened t)
    else if is_char b'}' c
    then go (closed t)
    else go (plain (add t c))
step_mode (opened t) c =
    if is_char b'{' c then emit (literal (add t c)) else after_literal t (step_name "" c)
step_mode (closed t) c = if is_char b'}' c then emit (literal (add t c)) else none
step_mode (name n) c = step_name n c
step_mode (index n) c = if is_char b']' c then go (name (add n c)) else go (index (add n c))
step_mode (convert n) c = go (converted n c)
step_mode (converted n k) c =
    if is_char b'}' c
    then emit (field n (some k) "")
    else if is_char b':' c
    then go (spec n (some k) "" 0)
    else none
step_mode (spec n conversion t d) c = step_spec n conversion t d c

abbrev pub finish_scan : Mode → Option (List Piece)
finish_scan (plain t) = some (literal t ∷ [])
finish_scan _ = none

abbrev pub prepend : List Piece → Option (List Piece) → Option (List Piece)
prepend ps none = none
prepend ps (some qs) = some (ps ++ qs)

unfoldable pub scan : Mode → String → Option (List Piece)
scan m String.[] = finish_scan m
scan m (String.◌∷◌ c s) = elim (step_mode m c) [
  | none ↦ none
  | some step ↦ prepend step.0 (scan step.1 s)
]

-- `string.Formatter().parse(text)`, all of it
unfoldable pub parse : String → Option (List Piece)
unfolding scan
parse text = scan (plain "") text

-- `[field[1] for field in parsed if field[1] is not None]`
abbrev pub field_names : List Piece → List String
field_names [] = []
field_names (literal t ∷ ps) = field_names ps
field_names (field n conversion t ∷ ps) = n ∷ field_names ps

abbrev pub names_or_raise : {S : Type 0} → Option (List Piece) → Exec S (List String)
names_or_raise none = raise (value_error "format")
names_or_raise (some ps) = pure (field_names ps)

unfoldable pub extract_keys_formatter : {S : Type 0} → String → Exec S (List String)
unfolding parse
extract_keys_formatter text = names_or_raise (parse text)

-- Python's objects of type `V`: `str(v)`, a text as an object, the attributes and items that the rest
-- of a field's name reads, and `format` with a conversion or a specification.
pub record Objects (V : Type 0) : Type 0 where
  pub str : V → String
  pub text : String → V
  pub follow : String → V → Result V
  pub format_object : Option Char → String → V → Result String

-- The first part of a field's name, up to a dot or a bracket, and the rest
abbrev pub split_name : String → String × String
split_name String.[] = ("", "")
split_name (String.◌∷◌ c s) =
    let rest = split_name s in
    if is_char b'.' c || is_char b'[' c then ("", String.◌∷◌ c s) else (String.◌∷◌ c rest.0, rest.1)

abbrev pub is_number : String → Bool
is_number String.[] = true
is_number (String.◌∷◌ c s) = leb b'0' (code c) && leb (code c) b'9' && is_number s

abbrev pub lift : {S A : Type 0} → Result A → Exec S A
lift r s = (r, s)

module _ {V : Type 0} (objects : Objects V) {S : Type 0} where
  open objects use {str, text, follow, format_object}

  abbrev pub item : Option V → Exec S V
  item none = raise (key_error "key")
  item (some v) = pure v

  -- `string.Formatter.get_value` without positional arguments: a number, or no name, is an index
  abbrev pub base_get_value : String → Dict V → Exec S V
  base_get_value key kwargs =
      if is_number key then raise (external "IndexError") else item (lookup key kwargs)

  abbrev pub on_key_error : String → Failure → Exec S V
  on_key_error key (key_error m) = pure (text ("{" <> key <> "}"))
  on_key_error key e = raise e

  -- `SafeFormatter.get_value`
  unfoldable pub get_value : String → Dict V → Exec S V
  get_value key kwargs = try_except (base_get_value key kwargs) (on_key_error key)

  abbrev pub follow_rest : String → V → Exec S V
  follow_rest String.[] v = pure v
  follow_rest (String.◌∷◌ c s) v = lift (follow (String.◌∷◌ c s) v)

  unfoldable pub get_field : String → Dict V → Exec S V
  unfolding get_value
  get_field field_name kwargs = do
    obj ← get_value (split_name field_name).0 kwargs
    follow_rest (split_name field_name).1 obj

  -- `format(v, "")` is `str(v)`
  abbrev pub format_field : Option Char → String → V → Exec S String
  format_field none String.[] v = pure (str v)
  format_field none (String.◌∷◌ c t) v = lift (format_object none (String.◌∷◌ c t) v)
  format_field (some k) t v = lift (format_object (some k) t v)

  abbrev pub parsed_or_raise : Option (List Piece) → Exec S (List Piece)
  parsed_or_raise none = raise (value_error "format")
  parsed_or_raise (some ps) = pure ps

  -- The loop of `vformat`, where a specification is formatted with `inner`
  unfoldable pub format_pieces : (String → Exec S String) → Dict V → List Piece → Exec S String
  unfolding get_field
  format_pieces inner kwargs [] = pure ""
  format_pieces inner kwargs (literal t ∷ ps) = do
    rest ← format_pieces inner kwargs ps
    pure (t <> rest)
  format_pieces inner kwargs (field n conversion t ∷ ps) = do
    obj ← get_field n kwargs
    t' ← inner t
    shown ← format_field conversion t' obj
    rest ← format_pieces inner kwargs ps
    pure (shown <> rest)

  -- `_vformat`, where `depth` is one more than Python's recursion depth
  unfoldable pub format_depth : ℕ → Dict V → String → Exec S String
  unfolding format_pieces parse
  format_depth zero kwargs text = raise (value_error "Max string recursion exceeded")
  format_depth (suc depth) kwargs text = do
    ps ← parsed_or_raise (parse text)
    format_pieces (format_depth depth kwargs) kwargs ps

  -- `SafeFormatter().format(text, **kwargs)`
  unfoldable pub format : String → Dict V → Exec S String
  unfolding format_depth
  format text kwargs = format_depth 3 kwargs text
