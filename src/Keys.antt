-- ===== src/Keys.antt =====
-- src/common/tools/cache.py: `default_cache_key_builder`, with values that are already text.
pub mod Laws
use Prim.Native.Nat.{Ordering}
use Prim.Native.String
use fastapi_claude_template.Prelude.{
  String, ◌≡◌, refl, Bool, true, false, List, [], ◌∷◌, Dict, ◌<>◌, join, map, if◌then◌else◌,
}

abbrev pub text_leb : String → String → Bool
text_leb a b = elim (String.compare a b) [ Ordering.gt ↦ false | _ ↦ true ]

-- `sorted(data.keys())`, carried out on the entries
unfoldable pub insert_sorted : String × String → Dict String → Dict String
insert_sorted e [] = e ∷ []
insert_sorted e (f ∷ data') =
    let rest = insert_sorted e data' in if text_leb e.0 f.0 then e ∷ f ∷ data' else f ∷ rest

unfoldable pub sort_keys : Dict String → Dict String
unfolding insert_sorted
sort_keys [] = []
sort_keys (e ∷ data') = insert_sorted e (sort_keys data')

abbrev pub entry_text : String × String → String
entry_text e = e.0 <> ":" <> e.1

-- `data or kwargs`
abbrev choose : Dict String → Dict String → Dict String
choose [] kwargs = kwargs
choose (e ∷ data') kwargs = e ∷ data'

unfoldable pub default_cache_key_builder : Dict String → Dict String → String
unfolding sort_keys join
default_cache_key_builder data' kwargs = join ":" (map entry_text (sort_keys (choose data' kwargs)))

key_tests :
    (default_cache_key_builder [] (("code", "ab") ∷ []) ≡ "code:ab")
    × (default_cache_key_builder (("b", "2") ∷ ("a", "1") ∷ []) [] ≡ "a:1:b:2")
unfolding default_cache_key_builder
key_tests = (refl, refl)
