-- ===== src/ResponseCache/Template.antt =====
-- The key that `ResponseCache._format_key` makes of a template of texts and plain fields.
use fastapi_claude_template.Prelude.{
  String, ◌≡◌, refl, true, some, List, [], ◌∷◌, map, All, Dict, lookup, insert, merge,
  lookup-insert, ◌<>◌, eq_iff, eq_refl, if◌then◌else◌, arith,
}
use fastapi_claude_template.Exec.{ok}
use fastapi_claude_template.Redis.{contains}
use fastapi_claude_template.Formatter.Laws.{
  template, AreSegments, is_text, extract_keys_formatter-template,
}
use fastapi_claude_template.Formatter.Filling.{filled, format-template}
use fastapi_claude_template.ResponseCache.{
  HttpRequest, Python, Value, str, entries, or_absent, formatted_values, format_key, objects,
  extract_request_values,
}

module _ {V : Type 0} (f : String → V) where
  lookup-merge-entries :
      (ks : List String) (d : Dict V) (j : String)
      → lookup j (merge d (entries f ks)) ≡ (if contains ks j then some (f j) else lookup j d)
  unfolding merge
  lookup-merge-entries [] d j = refl
  lookup-merge-entries (k ∷ ks) d j =
      ground
        (arith, eq_iff k j, lookup-insert k j (f k) d, lookup-merge-entries ks (insert k (f k) d) j)

abbrev Named : List String → List (String × String) → Type 0
Named names segments = All (λ p. contains names p.1 ≡ true) segments

Named-cons :
    (k : String) (names : List String) (segments : List (String × String))
    → Named names segments
    → Named (k ∷ names) segments
Named-cons k names [] h = tt
Named-cons k names (p ∷ segments) h = (ground (arith, h.0), Named-cons k names segments h.1)

map-Named : (segments : List (String × String)) → Named (map (λ p. p.1) segments) segments
map-Named [] = tt
map-Named ((t, n) ∷ segments) = (
  ground (arith, eq_refl n),
  Named-cons n (map (λ p. p.1) segments) segments (map-Named segments),
)

module _ {J : Type 0} (python : Python J) where
  -- The template with the text of each value in its place, `None` for one that is missing
  abbrev pub written : Dict (Value J) → List (String × String) → String → String
  written values [] last = last
  written values ((t, n) ∷ segments) last =
      t <> str python (or_absent (lookup n values)) <> written values segments last

  filled-formatted :
      (values : Dict (Value J)) (names : List String) (segments : List (String × String))
      (last : String)
      → Named names segments
      → filled (objects python) (formatted_values values names) segments last
        ≡ written values segments last
  unfolding formatted_values
  filled-formatted values names [] last h = refl
  filled-formatted values names ((t, n) ∷ segments) last h =
      rw
        (
          lookup-merge-entries (λ k. or_absent (lookup k values)) names [] n,
          h.0,
          filled-formatted values names segments last h.1,
        )
        refl

  -- The key of a request is the template with the text of each of its values in place, and `None` in
  -- the place of a value that the request does not have.
  pub format_key-template :
      {S : Type 0} (request : HttpRequest) (t n : String) (segments : List (String × String))
      (last : String) (values : Dict (Value J)) (s : S)
      → AreSegments ((t, n) ∷ segments)
      → is_text last ≡ true
      → extract_request_values python request s ≡ (ok values, s)
      → format_key python request (some (template ((t, n) ∷ segments) last)) s
        ≡ (ok (some (written values ((t, n) ∷ segments) last)), s)
  unfolding format_key
  format_key-template request t n segments last values s h hl hv =
      let all = (t, n) ∷ segments in
      let names = map (λ p. p.1) all in
      rw
        (
          extract_keys_formatter-template all last s h hl,
          hv,
          (format-template (objects python) 0 (formatted_values values names) all last s h hl).0,
          filled-formatted values names all last (map-Named all),
        )
        refl
