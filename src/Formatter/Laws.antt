-- ===== src/Formatter/Laws.antt =====
-- What the formatter reads in a template of texts and plain fields, and what it makes of it.
use text.Mathlib.TextLemmas
use fastapi_claude_template.Prelude.{
  String, Char, ◌≡◌, refl, sym, ap, ◌∙◌, Bool, true, false, not, ◌&&◌, none, some, Option, List, [],
  ◌∷◌, ◌<>◌, map, arith,
}
use fastapi_claude_template.Formatter.{
  Piece, literal, field, plain, opened, name, add, is_char, scan, parse, prepend, is_number,
  extract_keys_formatter, field_names,
}
use fastapi_claude_template.Exec.{ok}

-- No braces
abbrev pub is_text : String → Bool
is_text String.[] = true
is_text (String.◌∷◌ c s) = not (is_char b'{' c) && not (is_char b'}' c) && is_text s

abbrev pub is_name_char : Char → Bool
is_name_char c =
    not (is_char b'{' c)
    && not (is_char b'}' c)
    && not (is_char b'[' c)
    && not (is_char b'.' c)
    && not (is_char b'!' c)
    && not (is_char b':' c)

abbrev pub is_name_text : String → Bool
is_name_text String.[] = true
is_name_text (String.◌∷◌ c s) = is_name_char c && is_name_text s

-- A name that is neither empty nor a number and is read as it stands
abbrev pub is_plain_name : String → Bool
is_plain_name n = is_name_text n && not (is_number n)

-- A template: texts each before a field's name, and a last text
abbrev pub template : List (String × String) → String → String
template [] last = last
template ((t, n) ∷ segments) last = t <> "{" <> n <> "}" <> template segments last

prepend_nil : (o : Option (List Piece)) → prepend [] o ≡ o
prepend_nil none = refl
prepend_nil (some ps) = refl

add_append : (acc t : String) (c : Char) → add acc c <> t ≡ acc <> String.◌∷◌ c t
add_append acc t c =
    rw
      (
        TextLemmas.append_assoc acc (String.◌∷◌ c String.[]) t,
        TextLemmas.cons-append c String.[] t,
        TextLemmas.nil-append t,
      )
      refl

is_text-cons :
    (c : Char) (t : String)
    → is_text (String.◌∷◌ c t) ≡ true
    → (is_char b'{' c ≡ false) × (is_char b'}' c ≡ false) × (is_text t ≡ true)
is_text-cons c t h = ground arith

pub is_name_text-cons :
    (c : Char) (n : String)
    → is_name_text (String.◌∷◌ c n) ≡ true
    → (is_name_char c ≡ true) × (is_name_text n ≡ true)
is_name_text-cons c n h = ground arith

pub scan-text :
    (t acc rest : String)
    → is_text t ≡ true
    → scan (plain acc) (t <> rest) ≡ scan (plain (acc <> t)) rest
unfolding scan
scan-text String.[] acc rest h = rw (TextLemmas.nil-append rest, TextLemmas.append-nil acc) refl
scan-text (String.◌∷◌ c t) acc rest h =
    let (no_open, no_close, h') = is_text-cons c t h in
    rw (TextLemmas.cons-append c t rest, sym (add_append acc t c))
      (ground (
        arith,
        no_open,
        no_close,
        prepend_nil (scan (plain (add acc c)) (t <> rest)),
        scan-text t (add acc c) rest h',
      ))

scan-name :
    (n acc rest : String)
    → is_name_text n ≡ true
    → scan (name acc) (n <> "}" <> rest)
      ≡ prepend (field (acc <> n) none "" ∷ []) (scan (plain "") rest)
unfolding scan
scan-name String.[] acc rest h =
    rw
      (
        TextLemmas.nil-append ("}" <> rest),
        TextLemmas.append-nil acc,
        TextLemmas.cons-append "}" "" rest,
        TextLemmas.nil-append rest,
      )
      refl
scan-name (String.◌∷◌ c n) acc rest h =
    rw (TextLemmas.cons-append c n ("}" <> rest), sym (add_append acc n c))
      (ground (
        arith,
        prepend_nil (scan (name (add acc c)) (n <> "}" <> rest)),
        scan-name n (add acc c) rest (is_name_text-cons c n h).1,
      ))

prepend_twice :
    (p q : Piece) (o : Option (List Piece))
    → prepend (p ∷ []) (prepend (q ∷ []) o) ≡ prepend (p ∷ q ∷ []) o
prepend_twice p q none = refl
prepend_twice p q (some ps) = refl

is_plain_name-cons :
    (c : Char) (n : String)
    → is_plain_name (String.◌∷◌ c n) ≡ true
    → (is_name_char c ≡ true) × (is_name_text n ≡ true)
is_plain_name-cons c n h = ground arith

first_char : (c : Char) (n : String) → add "" c <> n ≡ String.◌∷◌ c n
first_char c n = rw (add_append "" n c) (TextLemmas.nil-append (String.◌∷◌ c n))

scan-first :
    (t n rest : String) (c : Char)
    → is_name_text n ≡ true
    → prepend (literal t ∷ []) (scan (name (add "" c)) (n <> "}" <> rest))
      ≡ prepend (literal t ∷ field (String.◌∷◌ c n) none "" ∷ []) (scan (plain "") rest)
scan-first t n rest c h =
    rw (scan-name n (add "" c) rest h, first_char c n)
      (prepend_twice (literal t) (field (String.◌∷◌ c n) none "") (scan (plain "") rest))

scan-opened :
    (t n rest : String)
    → is_plain_name n ≡ true
    → scan (opened t) (n <> "}" <> rest)
      ≡ prepend (literal t ∷ field n none "" ∷ []) (scan (plain "") rest)
unfolding scan
scan-opened t String.[] rest h = cc
scan-opened t (String.◌∷◌ c n) rest h =
    let (good, h') = is_plain_name-cons c n h in
    rw (TextLemmas.cons-append c n ("}" <> rest)) (ground (arith, good, scan-first t n rest c h'))

-- The pieces of a template
abbrev pub pieces : List (String × String) → String → List Piece
pieces [] last = literal last ∷ []
pieces ((t, n) ∷ segments) last = literal t ∷ field n none "" ∷ pieces segments last

-- Every text is before a field and has no braces, and every field is a plain name.
abbrev pub AreSegments : List (String × String) → Type 0
AreSegments [] = Unit
AreSegments ((t, n) ∷ segments) =
    (is_text t ≡ true) × (is_plain_name n ≡ true) × AreSegments segments

scan-brace : (t rest : String) → scan (plain t) ("{" <> rest) ≡ scan (opened t) rest
unfolding scan
scan-brace t rest =
    rw (TextLemmas.cons-append "{" "" rest, TextLemmas.nil-append rest)
      (prepend_nil (scan (opened t) rest))

scan-segment :
    (t n rest : String)
    → is_text t ≡ true
    → is_plain_name n ≡ true
    → scan (plain "") (t <> "{" <> n <> "}" <> rest)
      ≡ prepend (literal t ∷ field n none "" ∷ []) (scan (plain "") rest)
scan-segment t n rest ht hn =
    rw
      (
        scan-text t "" ("{" <> n <> "}" <> rest) ht,
        TextLemmas.nil-append t,
        scan-brace t (n <> "}" <> rest),
      )
      (scan-opened t n rest hn)

scan-last : (last : String) → is_text last ≡ true → scan (plain "") last ≡ some (literal last ∷ [])
unfolding scan
scan-last last h =
    ap (λ s. scan (plain "") s) (sym (TextLemmas.append-nil last))
    ∙ scan-text last "" "" h
    ∙ ap (λ s. some (literal s ∷ [])) (TextLemmas.nil-append last)

-- A template is parsed into its texts and its fields.
pub parse-template :
    (segments : List (String × String)) (last : String)
    → AreSegments segments
    → is_text last ≡ true
    → parse (template segments last) ≡ some (pieces segments last)
unfolding parse
parse-template [] last h hl = scan-last last hl
parse-template ((t, n) ∷ segments) last h hl =
    rw (scan-segment t n (template segments last) h.0 h.1, parse-template segments last h.2 hl) refl

field_names-pieces :
    (segments : List (String × String)) (last : String)
    → field_names (pieces segments last) ≡ map (λ p. p.1) segments
field_names-pieces [] last = refl
field_names-pieces ((t, n) ∷ segments) last = ap (λ ns. n ∷ ns) (field_names-pieces segments last)

-- `extract_keys_formatter` gives the fields of a template in order, each as often as it stands.
pub extract_keys_formatter-template :
    {S : Type 0} (segments : List (String × String)) (last : String) (s : S)
    → AreSegments segments
    → is_text last ≡ true
    → extract_keys_formatter (template segments last) s ≡ (ok (map (λ p. p.1) segments), s)
unfolding extract_keys_formatter
extract_keys_formatter-template segments last s h hl =
    rw (parse-template segments last h hl, field_names-pieces segments last) refl
