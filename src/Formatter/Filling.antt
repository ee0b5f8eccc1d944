-- ===== src/Formatter/Filling.antt =====
-- `SafeFormatter().format` of src/common/tools/formatter.py on templates of texts and plain fields.
use text.Mathlib.TextLemmas
use fastapi_claude_template.Prelude.{
  ℕ, suc, String, ◌≡◌, refl, sym, ◌∙◌, true, false, none, some, Option, List, [], ◌∷◌, ◌<>◌, Dict,
  lookup, arith, Option-cases, inl, inr,
}
use fastapi_claude_template.Exec.{ok}
use fastapi_claude_template.Formatter.{
  Objects, split_name, is_number, get_value, get_field, format_pieces, format_depth, format,
}
use fastapi_claude_template.Formatter.Laws.{
  is_text, is_name_text, is_plain_name, is_name_text-cons, template, pieces, AreSegments,
  parse-template,
}

split_name-plain : (n : String) → is_name_text n ≡ true → split_name n ≡ (n, "")
split_name-plain String.[] h = refl
split_name-plain (String.◌∷◌ c n) h =
    let (good, h') = is_name_text-cons c n h in ground (arith, good, split_name-plain n h')

is_plain_name-parts :
    (n : String) → is_plain_name n ≡ true → (is_name_text n ≡ true) × (is_number n ≡ false)
is_plain_name-parts n h = ground arith

module _ {V : Type 0} (objects : Objects V) where
  -- What a field stands for: its value, or a text that is the field again
  abbrev pub value_or_field : String → Option V → V
  value_or_field n none = objects.text ("{" <> n <> "}")
  value_or_field n (some v) = v

  -- The template with each field's value in its place
  abbrev pub filled : Dict V → List (String × String) → String → String
  filled kwargs [] last = last
  filled kwargs ((t, n) ∷ segments) last =
      t <> objects.str (value_or_field n (lookup n kwargs)) <> filled kwargs segments last

  module _ {S : Type 0} where
    get_value-name :
        (n : String) (kwargs : Dict V) (s : S)
        → is_number n ≡ false
        → get_value objects n kwargs s ≡ (ok (value_or_field n (lookup n kwargs)), s)
    unfolding get_value
    get_value-name n kwargs s h = elim (Option-cases (lookup n kwargs)) [
      | inl e ↦ rw (h, e) refl
      | inr (v, e) ↦ rw (h, e) refl
    ]

    get_field-plain :
        (n : String) (kwargs : Dict V) (s : S)
        → is_plain_name n ≡ true
        → get_field objects n kwargs s ≡ (ok (value_or_field n (lookup n kwargs)), s)
    unfolding get_field
    get_field-plain n kwargs s h =
        let (named, no_number) = is_plain_name-parts n h in
        rw (split_name-plain n named, get_value-name n kwargs s no_number) refl

    format_pieces-template :
        (depth : ℕ) (kwargs : Dict V) (segments : List (String × String)) (last : String) (s : S)
        → AreSegments segments
        → format_pieces objects
            (format_depth objects (suc depth) kwargs)
            kwargs
            (pieces segments last)
            s
          ≡ (ok (filled kwargs segments last), s)
    unfolding format_pieces format_depth
    format_pieces-template depth kwargs [] last s h = rw (TextLemmas.append-nil last) refl
    format_pieces-template depth kwargs ((t, n) ∷ segments) last s h =
        rw (get_field-plain n kwargs s h.1, format_pieces-template depth kwargs segments last s h.2)
          refl

    format_depth-template :
        (depth : ℕ) (kwargs : Dict V) (segments : List (String × String)) (last : String) (s : S)
        → AreSegments segments
        → is_text last ≡ true
        → format_depth objects (suc (suc depth)) kwargs (template segments last) s
          ≡ (ok (filled kwargs segments last), s)
    unfolding format_depth
    format_depth-template depth kwargs segments last s h hl =
        rw (parse-template segments last h hl)
          (format_pieces-template depth kwargs segments last s h)

    -- Formatting a template of texts and plain fields comes to an end within the three levels of
    -- recursion that there are, as it does with any limit of two at least: each value's text stands
    -- in its place, and a field without value stays as it is.
    pub format-template :
        (depth : ℕ) (kwargs : Dict V) (segments : List (String × String)) (last : String) (s : S)
        → AreSegments segments
        → is_text last ≡ true
        → (format objects (template segments last) kwargs s ≡ (ok (filled kwargs segments last), s))
          × (format_depth objects (suc (suc depth)) kwargs (template segments last) s
              ≡ format objects (template segments last) kwargs s)
    unfolding format
    format-template depth kwargs segments last s h hl =
        let same = format_depth-template 1 kwargs segments last s h hl in
        (same, format_depth-template depth kwargs segments last s h hl ∙ sym same)
