-- ===== src/Auth/Pairs.antt =====
-- `f"{fingerprint}::{refresh}"` and `pair.split("::")` of src/application/v1/services/auth.py.
use text.Mathlib.TextLemmas.{nil-append, cons-append, cons-ne-nil, tail-eq_of_cons-eq}
use mathlib.Core.Option.{some-injective}
use fastapi_claude_template.Prelude.{
  String, Char, ◌≡◌, refl, sym, ap, ◌≢◌, Bool, true, false, not, ◌&&◌, List, [], ◌∷◌, is_colon,
  no_colon, ◌<>◌, if◌then◌else◌, arith, Bool-cases, inl, inr, head?, some,
}

-- `s.split("::")`: at the leftmost separator, then in the rest
abbrev starts_part : Char → List String → List String
starts_part c [] = []
starts_part c (p ∷ ps) = String.◌∷◌ c p ∷ ps

unfoldable pub split : String → List String
split String.[] = "" ∷ []
split (String.◌∷◌ c String.[]) = String.◌∷◌ c String.[] ∷ []
split (String.◌∷◌ c (String.◌∷◌ d s)) =
    let here = "" ∷ split s in
    let later = starts_part c (split (String.◌∷◌ d s)) in
    if is_colon c && is_colon d then here else later

unfoldable pub pair_of : String → String → String
pair_of fingerprint refresh = fingerprint <> "::" <> refresh

-- A fingerprint that the separator can be found behind: no two colons in a row, none at the end.
abbrev pub is_clean : String → Bool
is_clean String.[] = true
is_clean (String.◌∷◌ c String.[]) = not (is_colon c)
is_clean (String.◌∷◌ c (String.◌∷◌ d s)) =
    not (is_colon c && is_colon d) && is_clean (String.◌∷◌ d s)

split_tests :
    (split "fp::tok" ≡ "fp" ∷ "tok" ∷ [])
    × (split "a:::t" ≡ "a" ∷ ":t" ∷ [])
    × (split "a::b::t" ≡ "a" ∷ "b" ∷ "t" ∷ [])
    × (split "junk" ≡ "junk" ∷ [])
unfolding split
split_tests = (refl, refl, refl, refl)

split-no_colon : (t : String) → no_colon t ≡ true → split t ≡ t ∷ []
unfolding split
split-no_colon String.[] h = refl
split-no_colon (String.◌∷◌ c String.[]) h = refl
split-no_colon (String.◌∷◌ c (String.◌∷◌ d s)) h = ground (arith, split-no_colon (String.◌∷◌ d s))

pair_of-nil : (t : String) → pair_of "" t ≡ "::" <> t
unfolding pair_of
pair_of-nil t = nil-append ("::" <> t)

pair_of-cons : (c : Char) (s t : String) → pair_of (String.◌∷◌ c s) t ≡ String.◌∷◌ c (pair_of s t)
unfolding pair_of
pair_of-cons c s t = cons-append c s ("::" <> t)

separator : (t : String) → split ("::" <> t) ≡ "" ∷ split t
unfolding split
separator t = rw (cons-append, cons-append, nil-append)

-- A pair is split into its fingerprint and its token.
pub split-pair_of :
    (fp t : String) → is_clean fp ≡ true → no_colon t ≡ true → split (pair_of fp t) ≡ fp ∷ t ∷ []
unfolding split
split-pair_of String.[] t clean plain = rw (pair_of-nil t, separator t, split-no_colon t plain)
split-pair_of (String.◌∷◌ c String.[]) t clean plain =
    rw (pair_of-cons c "" t, pair_of-nil t, cons-append, cons-append, nil-append)
      (ground (arith, split-no_colon t plain))
split-pair_of (String.◌∷◌ c (String.◌∷◌ d s)) t clean plain =
    rw (pair_of-cons c (String.◌∷◌ d s) t, pair_of-cons d s t)
      (ground (arith, split-pair_of (String.◌∷◌ d s) t, pair_of-cons d s t))

head-starts_part :
    (c : Char) (l : List String) (p : String)
    → head? (starts_part c l) ≡ some (String.◌∷◌ c p)
    → head? l ≡ some p
head-starts_part c [] p e = cc
head-starts_part c (q ∷ qs) p e = ap some (tail-eq_of_cons-eq (some-injective _ _ e))

-- Any other fingerprint is not what stands in front of the first separator.
pub split-pair_of_unclean :
    (fp t : String) → is_clean fp ≡ false → head? (split (pair_of fp t)) ≢ some fp
unfolding split
split-pair_of_unclean String.[] t dirty e = cc
split-pair_of_unclean (String.◌∷◌ c String.[]) t dirty e = cons-ne-nil c String.[] (
    ground
      (arith, rw (pair_of-cons c "" t, pair_of-nil t, cons-append, cons-append, nil-append) at e))
split-pair_of_unclean (String.◌∷◌ c (String.◌∷◌ d s)) t dirty e =
    let e' = rw (pair_of-cons c (String.◌∷◌ d s) t, pair_of-cons d s t) at e in
    let ih = split-pair_of_unclean (String.◌∷◌ d s) t in
    elim (Bool-cases (is_colon c && is_colon d)) [
      | inl both ↦ cons-ne-nil c (String.◌∷◌ d s) (sym (some-injective _ _ (rw both at e')))
      | inr apart ↦
          ih (ground arith)
            (rw (pair_of-cons d s t) (head-starts_part c _ (String.◌∷◌ d s) (rw apart at e')))
    ]
