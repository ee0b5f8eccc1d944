-- ===== src/Keys/Laws.antt =====
-- Which keys the builder gives, and which entries it confuses.
use text.Mathlib.TextLemmas
use fastapi_claude_template.Prelude.{
  String, ◌≡◌, refl, sym, ap, ◌∙◌, true, false, [], ◌∷◌, ◌<>◌, join,
}
use fastapi_claude_template.Keys.{text_leb, insert_sorted, sort_keys, default_cache_key_builder}

-- The order in which two entries are given does not matter, and their order in the key is that of
-- their names.
pub default_cache_key_builder-swap :
    (k v k2 v2 : String)
    → text_leb k k2 ≡ true
    → text_leb k2 k ≡ false
    → (default_cache_key_builder ((k2, v2) ∷ (k, v) ∷ []) []
        ≡ (k <> ":" <> v) <> ":" <> (k2 <> ":" <> v2))
      × (default_cache_key_builder ((k, v) ∷ (k2, v2) ∷ []) []
          ≡ (k <> ":" <> v) <> ":" <> (k2 <> ":" <> v2))
unfolding default_cache_key_builder sort_keys insert_sorted join
default_cache_key_builder-swap k v k2 v2 before after = (rw after refl, rw before refl)

-- A value that itself holds colons gives the key of two entries.
pub default_cache_key_builder-collision :
    (k v k2 v2 : String)
    → text_leb k k2 ≡ true
    → default_cache_key_builder ((k, v <> ":" <> k2 <> ":" <> v2) ∷ []) []
      ≡ default_cache_key_builder ((k, v) ∷ (k2, v2) ∷ []) []
unfolding default_cache_key_builder sort_keys insert_sorted join
default_cache_key_builder-collision k v k2 v2 before =
    let rest = ":" <> k2 <> ":" <> v2 in
    rw before (
      sym (
        TextLemmas.append_assoc k (":" <> v) rest
        ∙ ap (λ s. k <> s) (TextLemmas.append_assoc ":" v rest)))
