-- ===== src/Formatter/Pure.antt =====
-- The functions of src/common/tools/formatter.py only compute.
use fastapi_claude_template.Prelude.{
  ℕ, zero, suc, Bool, true, false, if◌then◌else◌, String, Char, refl, Option, none, some, List, [],
  ◌∷◌, Dict, lookup, ◌<>◌,
}
use fastapi_claude_template.Errors.{external, value_error}
use fastapi_claude_template.Exec.{Exec, raise, try_except}
use fastapi_claude_template.Exec.Pure.{IsPure, pure-IsPure, raise-IsPure, bind-IsPure}
use fastapi_claude_template.Formatter.{
  Piece, literal, field, Objects, extract_keys_formatter, parse, names_or_raise, get_value,
  get_field, follow_rest, format_field, parsed_or_raise, format_pieces, format_depth, format,
  is_number, item, on_key_error, split_name,
}

module _ {S : Type 0} where
  pub extract_keys_formatter-IsPure : (t : String) → IsPure {S = S} (extract_keys_formatter t)
  unfolding extract_keys_formatter
  extract_keys_formatter-IsPure t = elim (parse t) as (λ o. IsPure {S = S} (names_or_raise o)) [
    | none ↦ raise-IsPure (value_error "format")
    | some ps ↦ record { result = _; same = λ s. refl }
  ]

module _ {V : Type 0} (objects : Objects V) {S : Type 0} where
  caught-IsPure :
      (key : String) (b : Bool) (o : Option V)
      → IsPure {S = S} (
          try_except
            (if b then raise (external "IndexError") else item objects o)
            (on_key_error objects key))
  caught-IsPure key true o = record { result = _; same = λ s. refl }
  caught-IsPure key false none = record { result = _; same = λ s. refl }
  caught-IsPure key false (some v) = record { result = _; same = λ s. refl }

  get_value-IsPure : (key : String) (d : Dict V) → IsPure {S = S} (get_value objects key d)
  unfolding get_value
  get_value-IsPure key d = caught-IsPure key (is_number key) (lookup key d)

  follow_rest-IsPure : (t : String) (v : V) → IsPure {S = S} (follow_rest objects t v)
  follow_rest-IsPure String.[] v = pure-IsPure v
  follow_rest-IsPure (String.◌∷◌ c t) v = record { result = _; same = λ s. refl }

  get_field-IsPure : (n : String) (d : Dict V) → IsPure {S = S} (get_field objects n d)
  unfolding get_field
  get_field-IsPure n d =
      bind-IsPure (get_value-IsPure (split_name n).0 d) (follow_rest-IsPure (split_name n).1)

  format_field-IsPure :
      (k : Option Char) (t : String) (v : V) → IsPure {S = S} (format_field objects k t v)
  format_field-IsPure none String.[] v = record { result = _; same = λ s. refl }
  format_field-IsPure none (String.◌∷◌ c t) v = record { result = _; same = λ s. refl }
  format_field-IsPure (some k) t v = record { result = _; same = λ s. refl }

  parsed_or_raise-IsPure : (o : Option (List Piece)) → IsPure {S = S} (parsed_or_raise objects o)
  parsed_or_raise-IsPure none = raise-IsPure (value_error "format")
  parsed_or_raise-IsPure (some ps) = pure-IsPure ps

  format_pieces-IsPure :
      (inner : String → Exec S String) (d : Dict V)
      → ((t : String) → IsPure (inner t))
      → (ps : List Piece) → IsPure {S = S} (format_pieces objects inner d ps)
  unfolding format_pieces
  format_pieces-IsPure inner d p [] = pure-IsPure ""
  format_pieces-IsPure inner d p (literal t ∷ ps) =
      bind-IsPure (format_pieces-IsPure inner d p ps) (λ rest. pure-IsPure (t <> rest))
  format_pieces-IsPure inner d p (field n k t ∷ ps) = bind-IsPure (get_field-IsPure n d) (λ obj.
      bind-IsPure (p t) (λ t'. bind-IsPure (format_field-IsPure k t' obj) (λ text.
        bind-IsPure (format_pieces-IsPure inner d p ps) (λ rest. pure-IsPure (text <> rest)))))

  format_depth-IsPure :
      (depth : ℕ) (d : Dict V) (t : String) → IsPure {S = S} (format_depth objects depth d t)
  unfolding format_depth
  format_depth-IsPure zero d t = raise-IsPure (value_error "Max string recursion exceeded")
  format_depth-IsPure (suc depth) d t =
      bind-IsPure (parsed_or_raise-IsPure (parse t))
        (format_pieces-IsPure (format_depth objects depth d) d (format_depth-IsPure depth d))

  pub format-IsPure : (t : String) (d : Dict V) → IsPure {S = S} (format objects t d)
  unfolding format
  format-IsPure t d = format_depth-IsPure 3 d t
