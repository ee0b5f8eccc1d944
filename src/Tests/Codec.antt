-- ===== src/Tests/Codec.antt =====
-- A signing library that meets `IsPyJwt`: a token spells out the text claims and carries the times
-- behind them, without a colon.
use Prim.Native.Char.{Char, code, char}
use package.text.Mathlib.TextEquality.{Char-path}
use fastapi_claude_template.Prelude.{
  String, ◌≡◌, refl, sym, ap, true, some, [], ◌∷◌, arith, inl, inr, Bool-cases, is_colon, no_colon,
  nat_beq, if◌then◌else◌, lookup, decimal, ◌==◌,
}
use fastapi_claude_template.Jwt.{Claims, PyJwt, CipherSettings, text, datetime, seconds}
use fastapi_claude_template.Jwt.Laws.{IsPyJwt}

abbrev pub dot : Char
dot = char 46 tt

abbrev pub colon : Char
colon = char 58 tt

abbrev pub letter_c : Char
letter_c = char 99 tt

abbrev pub letter_e : Char
letter_e = char 101 tt

abbrev pub letter_k : Char
letter_k = char 107 tt

abbrev pub push : Char → Char → String → String
push c d s = String.◌∷◌ c (String.◌∷◌ d s)

-- A text in front of a rest, two characters for each
abbrev pub escape : String → String → String
escape String.[] tail = push dot dot tail
escape (String.◌∷◌ c s) tail =
    let rest = escape s tail in
    if is_colon c then push letter_k letter_k rest else push letter_c c rest

abbrev pub unescape : String → String × String
unescape String.[] = ("", "")
unescape (String.◌∷◌ c String.[]) = ("", "")
unescape (String.◌∷◌ c (String.◌∷◌ d s)) =
    let rest = unescape s in
    if nat_beq (code c) 46
    then ("", s)
    else if nat_beq (code c) 107
    then (String.◌∷◌ colon rest.0, rest.1)
    else (String.◌∷◌ d rest.0, rest.1)

is_colon-eq : (c : Char) → is_colon c ≡ true → c ≡ colon
is_colon-eq c h = Char-path c colon (ground arith)

unescape-escape : (s tail : String) → unescape (escape s tail) ≡ (s, tail)
unescape-escape String.[] tail = refl
unescape-escape (String.◌∷◌ c s) tail = elim (Bool-cases (is_colon c)) [
  | inl h ↦
      rw (h, unescape-escape s tail) (ap (λ d. (String.◌∷◌ d s, tail)) (sym (is_colon-eq c h)))
  | inr h ↦ rw (h, unescape-escape s tail) refl
]

no_colon-escape : (s tail : String) → no_colon tail ≡ true → no_colon (escape s tail) ≡ true
no_colon-escape String.[] tail h = h
no_colon-escape (String.◌∷◌ c s) tail h = elim (Bool-cases (is_colon c)) [
  | inl k ↦ rw k (no_colon-escape s tail h)
  | inr k ↦ rw (k, k) (no_colon-escape s tail h)
]

-- The text claims of a token's payload
abbrev pub texts : Claims → Claims
texts [] = []
texts ((k, text s) ∷ c) = (k, text s) ∷ texts c
texts ((k, datetime n) ∷ c) = texts c
texts ((k, seconds n) ∷ c) = texts c

pub texts-keeps :
    (c : Claims) (k s : String) → lookup k c ≡ some (text s) → lookup k (texts c) ≡ some (text s)
unfolding lookup
texts-keeps [] k s h = cc
texts-keeps ((j, text v) ∷ c) k s h = elim (Bool-cases (j == k)) [
  | inl e ↦ rw e (rw e at h)
  | inr e ↦ rw e (texts-keeps c k s (rw e at h))
]
texts-keeps ((j, datetime n) ∷ c) k s h = elim (Bool-cases (j == k)) [
  | inl e ↦ cc (rw e at h)
  | inr e ↦ texts-keeps c k s (rw e at h)
]
texts-keeps ((j, seconds n) ∷ c) k s h = elim (Bool-cases (j == k)) [
  | inl e ↦ cc (rw e at h)
  | inr e ↦ texts-keeps c k s (rw e at h)
]

-- The claims, then the times
abbrev pub spell : Claims → String → String
spell [] tail = push dot dot tail
spell ((k, text s) ∷ c) tail = push letter_e letter_e (escape k (escape s (spell c tail)))
spell ((k, datetime n) ∷ c) tail = spell c tail
spell ((k, seconds n) ∷ c) tail = spell c tail

abbrev pub unspell : String → String → Claims
unspell String.[] s = []
unspell (String.◌∷◌ f fuel) String.[] = []
unspell (String.◌∷◌ f fuel) (String.◌∷◌ c String.[]) = []
unspell (String.◌∷◌ f fuel) (String.◌∷◌ c (String.◌∷◌ d s)) =
    let k = unescape s in
    let v = unescape k.1 in
    let rest = unspell fuel v.1 in if nat_beq (code c) 46 then [] else (k.0, text v.0) ∷ rest

-- A text as long as the number of claims, at least
abbrev pub Covers : Claims → String → Type 0
Covers [] f = Unit
Covers ((k, text s) ∷ c) String.[] = ⊥
Covers ((k, text s) ∷ c) (String.◌∷◌ x f) = Covers c f
Covers ((k, datetime n) ∷ c) f = Covers c f
Covers ((k, seconds n) ∷ c) f = Covers c f

Covers-cons : (c : Claims) (x : Char) (f : String) → Covers c f → Covers c (String.◌∷◌ x f)
Covers-cons [] x f h = tt
Covers-cons ((k, text s) ∷ c) x String.[] h = elim h [ ]
Covers-cons ((k, text s) ∷ c) x (String.◌∷◌ y f) h = Covers-cons c y f h
Covers-cons ((k, datetime n) ∷ c) x f h = Covers-cons c x f h
Covers-cons ((k, seconds n) ∷ c) x f h = Covers-cons c x f h

Covers-push : (c : Claims) (x y : Char) (f : String) → Covers c f → Covers c (push x y f)
Covers-push c x y f h = Covers-cons c x (String.◌∷◌ y f) (Covers-cons c y f h)

Covers-escape : (c : Claims) (s f : String) → Covers c f → Covers c (escape s f)
Covers-escape c String.[] f h = Covers-push c dot dot f h
Covers-escape c (String.◌∷◌ x s) f h = elim (Bool-cases (is_colon x)) [
  | inl k ↦ rw k (Covers-push c letter_k letter_k (escape s f) (Covers-escape c s f h))
  | inr k ↦ rw k (Covers-push c letter_c x (escape s f) (Covers-escape c s f h))
]

pub Covers-spell : (c : Claims) (tail : String) → Covers c (spell c tail)
Covers-spell [] tail = tt
Covers-spell ((k, text s) ∷ c) tail =
    Covers-cons c letter_e _
      (Covers-escape c k _ (Covers-escape c s (spell c tail) (Covers-spell c tail)))
Covers-spell ((k, datetime n) ∷ c) tail = Covers-spell c tail
Covers-spell ((k, seconds n) ∷ c) tail = Covers-spell c tail

pub unspell-spell :
    (c : Claims) (fuel tail : String) → Covers c fuel → unspell fuel (spell c tail) ≡ texts c
unspell-spell [] String.[] tail h = refl
unspell-spell [] (String.◌∷◌ x f) tail h = refl
unspell-spell ((k, text s) ∷ c) String.[] tail h = elim h [ ]
unspell-spell ((k, text s) ∷ c) (String.◌∷◌ x f) tail h =
    rw (unescape-escape k (escape s (spell c tail)), unescape-escape s (spell c tail))
      (ap (λ r. (k, text s) ∷ r) (unspell-spell c f tail h))
unspell-spell ((k, datetime n) ∷ c) fuel tail h = unspell-spell c fuel tail h
unspell-spell ((k, seconds n) ∷ c) fuel tail h = unspell-spell c fuel tail h

pub no_colon-spell :
    (c : Claims) (tail : String) → no_colon tail ≡ true → no_colon (spell c tail) ≡ true
no_colon-spell [] tail h = h
no_colon-spell ((k, text s) ∷ c) tail h =
    no_colon-escape k _ (no_colon-escape s (spell c tail) (no_colon-spell c tail h))
no_colon-spell ((k, datetime n) ∷ c) tail h = no_colon-spell c tail h
no_colon-spell ((k, seconds n) ∷ c) tail h = no_colon-spell c tail h

-- The times that stand in the claims
unfoldable pub stamps : Claims → String
unfolding decimal
stamps [] = ""
stamps ((k, text s) ∷ c) = stamps c
stamps ((k, datetime n) ∷ c) = escape (decimal n) (stamps c)
stamps ((k, seconds n) ∷ c) = escape (decimal n) (stamps c)

pub no_colon-stamps : (c : Claims) → no_colon (stamps c) ≡ true
unfolding stamps
no_colon-stamps [] = refl
no_colon-stamps ((k, text s) ∷ c) = no_colon-stamps c
no_colon-stamps ((k, datetime n) ∷ c) = no_colon-escape (decimal n) (stamps c) (no_colon-stamps c)
no_colon-stamps ((k, seconds n) ∷ c) = no_colon-escape (decimal n) (stamps c) (no_colon-stamps c)

abbrev pub spelling : PyJwt
spelling = record {
  encode = λ c key algorithm. some (spell c (stamps c));
  decode = λ at t key algorithms. some (unspell t t);
  b64decode = λ s. some s;
}

abbrev pub ciphers : CipherSettings
ciphers = record {
  algorithm = "RS256";
  secret_key = "secret";
  public_key = "public";
  access_token_expire_seconds = 900;
  refresh_token_expire_seconds = 3600;
}

abbrev pub spelling-IsPyJwt : IsPyJwt spelling ciphers
spelling-IsPyJwt = record {
  key = "secret";
  public_key = "public";
  secret = refl;
  public = refl;
  signs = λ c. spell c (stamps c);
  encode_lem = λ c. refl;
  plain = λ c. no_colon-spell c (stamps c) (no_colon-stamps c);
  claims_of = texts;
  round_trip = λ c at issued expire iat exp no_audience no_start begun left.
      ap some (unspell-spell c (spell c (stamps c)) (stamps c) (Covers-spell c (stamps c)));
  keeps_text = texts-keeps;
}
