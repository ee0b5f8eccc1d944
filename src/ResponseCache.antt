-- ===== src/ResponseCache.antt =====
-- src/presentation/http/common/wrapper/cache.py: `ResponseCache` and its keys. Python's objects in a
-- request are a parameter `J`, with `json.loads` and `repr`; the use case is any coroutine.
pub mod Laws
pub mod Pure
pub mod Sending
pub mod Template
use fastapi_claude_template.Prelude.{
  ℕ, String, Bool, true, false, not, ◌&&◌, Option, none, some, List, [], ◌∷◌, map, keep, join, Char,
  is_empty, ◌<>◌, ◌==◌, if◌then◌else◌, Dict, lookup, insert, merge, dict_keys,
}
use fastapi_claude_template.Errors.{external, value_error, runtime_error}
use fastapi_claude_template.Exec.{Result, Exec, pure, raise, ◌>>=◌, ◌>>◌}
use fastapi_claude_template.Redis.{Redis}
use fastapi_claude_template.Cache
use fastapi_claude_template.Keys.{default_cache_key_builder}
use fastapi_claude_template.Formatter.{Objects, extract_keys_formatter, format}
use fastapi_claude_template.World.{World, on_cache}

-- What starlette's request holds: the query's parameters in order, and the body that was read
pub record HttpRequest : Type 0 where
  pub method : String
  pub path : String
  pub query_params : List (String × String)
  pub body : String

-- A value of the dictionaries: one parameter, several, a member of the body, or `None`
pub data Value (J : Type 0) : Type 0 where
  text : String → Value J
  texts : List String → Value J
  json : J → Value J
  absent : Value J

-- What `json.loads` returns: an object, or another value with its truth
pub data Body (J : Type 0) : Type 0 where
  object : Dict J → Body J
  other : Bool → Body J

-- `none` is a body that is no JSON
pub record Python (J : Type 0) : Type 0 where
  pub loads : String → Option (Body J)
  pub repr_list : List String → String
  pub str_json : J → String
  pub follow : String → Value J → Result (Value J)
  pub format_object : Option Char → String → Value J → Result String

module _ {J : Type 0} (python : Python J) where
  -- `str(v)`
  abbrev pub str : Value J → String
  str (text s) = s
  str (texts l) = python.repr_list l
  str (json j) = python.str_json j
  str absent = "None"

  abbrev pub objects : Objects (Value J)
  objects = record {
    str = str;
    text = text;
    follow = python.follow;
    format_object = python.format_object;
  }

-- The keys of `request.query_params`, each once
unfoldable pub query_keys : List (String × String) → List String
unfolding merge dict_keys
query_keys params = dict_keys (merge [] params)

-- `request.query_params.getlist(key)`
unfoldable pub getlist : String → List (String × String) → List String
getlist key params = map (λ p. p.1) (keep (λ p. p.0 == key) params)

-- `values[0] if len(values) == 1 else values`
abbrev pub single : {J : Type 0} → List String → Value J
single (v ∷ []) = text v
single values = texts values

abbrev pub entries : {A B : Type 0} → (A → B) → List A → List (A × B)
entries f keys = map (λ k. (k, f k)) keys

module _ {J : Type 0} where
  unfoldable pub extract_query_keys : HttpRequest → Dict (Value J)
  unfolding query_keys getlist
  extract_query_keys request =
      entries (λ k. single (getlist k request.query_params)) (query_keys request.query_params)

  abbrev pub or_absent : Option (Value J) → Value J
  or_absent none = absent
  or_absent (some v) = v

  -- `{k: values.get(k) for k in keys}`
  unfoldable pub formatted_values : Dict (Value J) → List String → Dict (Value J)
  unfolding merge lookup
  formatted_values values keys = merge [] (entries (λ k. or_absent (lookup k values)) keys)

module _ {J : Type 0} (python : Python J) {S : Type 0} where
  abbrev pub loaded_or_raise : Option (Body J) → Exec S (Body J)
  loaded_or_raise none = raise (value_error "json")
  loaded_or_raise (some b) = pure b

  -- `json.loads(raw_body) if raw_body else {}`
  abbrev pub load_body : String → Exec S (Body J)
  load_body raw_body =
      if is_empty raw_body then pure (object []) else loaded_or_raise (python.loads raw_body)

  -- `default_cache_key_builder(body)`: what is false counts as no data, what else is no dictionary
  -- has no `keys`.
  abbrev pub body_text : Body J → Exec S String
  body_text (object d) =
      pure (default_cache_key_builder (map (λ e. (e.0, python.str_json e.1)) d) [])
  body_text (other true) = raise (external "AttributeError")
  body_text (other false) = pure (default_cache_key_builder [] [])

  unfoldable pub request_cache_key_builder : HttpRequest → Exec S String
  unfolding query_keys getlist default_cache_key_builder
  request_cache_key_builder request = do
    let query_params =
        entries (λ k. python.repr_list (getlist k request.query_params))
          (query_keys request.query_params)
    body ← load_body request.body
    let query_key = default_cache_key_builder query_params []
    body_key ← body_text body
    pure (request.path <> ":" <> request.method <> ":" <> query_key <> ":" <> body_key)

  abbrev pub body_entries : Body J → Exec S (Dict (Value J))
  body_entries (object d) = pure (map (λ e. (e.0, json e.1)) d)
  body_entries (other b) = raise (external "AttributeError")

  unfoldable pub extract_body_keys : HttpRequest → Exec S (Dict (Value J))
  extract_body_keys request = do body ← load_body request.body; body_entries body

  unfoldable pub extract_request_values : HttpRequest → Exec S (Dict (Value J))
  unfolding extract_query_keys extract_body_keys merge
  extract_request_values request = do
    body ← extract_body_keys request
    pure (merge (extract_query_keys request) body)

  abbrev pub fill : HttpRequest → String → List String → Exec S (Option String)
  fill request key [] = pure (some key)
  fill request key (k ∷ ks) = do
    values ← extract_request_values request
    filled ← format (objects python) key (formatted_values values (k ∷ ks))
    pure (some filled)

  unfoldable pub format_key : HttpRequest → Option String → Exec S (Option String)
  unfolding extract_keys_formatter
  format_key request none = pure none
  format_key request (some key) = do keys ← extract_keys_formatter key; fill request key keys

-- The wrapper's fields; `expires_in` is in whole seconds.
pub record ResponseCache (C : Type 0) : Type 0 where
  pub expires_in : ℕ
  pub key : Option String
  pub request : Option HttpRequest
  pub cache : Option (Redis C)

-- `__call__`
abbrev pub attach : {C : Type 0} → ResponseCache C → HttpRequest → Redis C → ResponseCache C
attach self request cache = record self { request = some request; cache = some cache }

-- What `execute` gives back: the use case's result, or the text that was stored
pub data Answer (R : Type 0) : Type 0 where
  computed : R → Answer R
  stored : String → Answer R

module _ {J C D : Type 0} (python : Python J) where
  -- `if not cache_key:`
  abbrev pub key_or_built : HttpRequest → Option String → Exec (World C D) String
  key_or_built request none = request_cache_key_builder python request
  key_or_built request (some k) =
      if is_empty k then request_cache_key_builder python request else pure k

  unfoldable pub cache_key : HttpRequest → Option String → Exec (World C D) String
  unfolding format_key
  cache_key request key = do
    formatted ← format_key python request key
    key_or_built request formatted

module _ {C D : Type 0} where
  -- `if isinstance(result, BaseModel):`, for which `dump` gives the JSON
  abbrev pub store : Redis C → ℕ → String → Option String → Exec (World C D) (Unit {0})
  store cache expires_in k none = pure tt
  store cache expires_in k (some dumped) = on_cache (Cache.set cache k dumped (some expires_in))

module _ {R C D : Type 0} (dump : R → Option String) where
  abbrev pub serve :
      Redis C → ℕ → String → Exec (World C D) R → Option String → Exec (World C D) (Answer R)
  serve cache expires_in k use_case (some found) = pure (stored found)
  serve cache expires_in k use_case none = do
    result ← use_case
    store cache expires_in k (dump result)
    pure (computed result)

module _ {J R C D : Type 0} (python : Python J) (dump : R → Option String) where
  unfoldable pub execute_with :
      Redis C → HttpRequest → Option String → ℕ → Exec (World C D) R → Exec (World C D) (Answer R)
  unfolding cache_key Cache.get
  execute_with cache request key expires_in use_case = do
    k ← cache_key python request key
    cached ← on_cache (Cache.get cache k)
    serve dump cache expires_in k use_case cached

  unfoldable pub execute : ResponseCache C → Exec (World C D) R → Exec (World C D) (Answer R)
  unfolding execute_with
  execute self use_case = elim self.request [
    | none ↦ raise (runtime_error "ResponseCache must be called before execute")
    | some request ↦ elim self.cache [
      | none ↦ raise (runtime_error "ResponseCache must be called before execute")
      | some cache ↦ execute_with cache request self.key self.expires_in use_case
    ]
  ]

module _ {J C D : Type 0} (python : Python J) where
  abbrev pub delete_key : Redis C → Option String → Exec (World C D) (Unit {0})
  delete_key cache none = pure tt
  delete_key cache (some k) = if is_empty k then pure tt else on_cache (Cache.delete cache (k ∷ []))

  unfoldable pub invalidate : ResponseCache C → HttpRequest → Redis C → Exec (World C D) (Unit {0})
  unfolding format_key
  invalidate self request cache = do
    formatted_key ← format_key python request self.key
    delete_key cache formatted_key
