-- ===== src/Serializers.antt =====
-- src/presentation/http/common/serializers and responses.py: how a body becomes bytes. A text's bytes
-- are the text in UTF-8, written here as the text itself; orjson is a parameter, which is told what to
-- make of a value that it does not know.
use fastapi_claude_template.Prelude.{
  String, ◌≡◌, refl, false, Option, none, some, List, [], ◌∷◌, is_empty, if◌then◌else◌,
}

-- A body, or a value in it that orjson asks about
pub data Content : Type 0 where
  text bytes : String → Content
  -- a pydantic model, by its dump without what is None
  base_model : String → Content
  uuid : String → Content
  -- an exception with the texts of its arguments
  exception : List String → Content
  other : Content

-- `_predict_bytes`
unfoldable pub predict_bytes : Content → Option String
predict_bytes (text s) = some s
predict_bytes (bytes b) = some b
predict_bytes (base_model d) = none
predict_bytes (uuid u) = none
predict_bytes (exception args) = none
predict_bytes other = none

-- What `_default` returns: a text, a dictionary, or None
pub data Replacement : Type 0 where
  string dictionary : String → Replacement
  null : Replacement

unfoldable pub default : Content → Replacement
default (text s) = null
default (bytes b) = null
default (base_model d) = dictionary d
default (uuid u) = string u
default (exception []) = string "Unknown error"
default (exception (arg ∷ args)) = string arg
default other = null

module _ (dumps : (Content → Replacement) → Content → String) where
  -- `a or b` on bytes that may be None
  abbrev pub or_dumps : Option String → Content → String
  or_dumps none value = dumps default value
  or_dumps (some b) value = if is_empty b then dumps default value else b

  unfoldable pub orjson_dumps : Content → String
  unfolding predict_bytes
  orjson_dumps value = or_dumps (predict_bytes value) value

  -- `ORJSONResponse.render`
  unfoldable pub render : Content → String
  unfolding orjson_dumps
  render content = orjson_dumps content

  -- A text that is not empty is sent as it stands, so a model's JSON from the cache is sent as the
  -- model was, while any other text is not quoted and is no JSON.
  pub render-text : (s : String) → is_empty s ≡ false → render (text s) ≡ s
  unfolding render
  render-text s h = rw h refl
