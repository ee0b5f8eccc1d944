-- ===== src/ResponseCache/Pure.antt =====
-- The keys of the response cache are computed from the request alone.
use fastapi_claude_template.Prelude.{
  String, refl, true, false, Option, none, some, List, [], ◌∷◌, is_empty,
}
use fastapi_claude_template.Errors.{value_error}
use fastapi_claude_template.Exec.Pure.{IsPure, pure-IsPure, raise-IsPure, bind-IsPure, if-IsPure}
use fastapi_claude_template.Formatter.Pure.{extract_keys_formatter-IsPure, format-IsPure}
use fastapi_claude_template.ResponseCache.{
  HttpRequest, Python, Body, object, other, format_key, request_cache_key_builder, load_body,
  loaded_or_raise, body_text, extract_body_keys, extract_request_values, body_entries, fill,
  formatted_values, objects,
}

module _ {J : Type 0} (python : Python J) {S : Type 0} where
  loaded-IsPure : (o : Option (Body J)) → IsPure {S = S} (loaded_or_raise python o)
  loaded-IsPure none = raise-IsPure (value_error "json")
  loaded-IsPure (some b) = pure-IsPure b

  load_body-IsPure : (raw : String) → IsPure {S = S} (load_body python raw)
  load_body-IsPure raw =
      if-IsPure (is_empty raw) (pure-IsPure (object [])) (loaded-IsPure (python.loads raw))

  body_text-IsPure : (b : Body J) → IsPure {S = S} (body_text python b)
  body_text-IsPure (object d) = record { result = _; same = λ s. refl }
  body_text-IsPure (other true) = record { result = _; same = λ s. refl }
  body_text-IsPure (other false) = record { result = _; same = λ s. refl }

  pub builder-IsPure :
      (request : HttpRequest) → IsPure {S = S} (request_cache_key_builder python request)
  unfolding request_cache_key_builder
  builder-IsPure request =
      bind-IsPure (load_body-IsPure request.body)
        (λ b. bind-IsPure (body_text-IsPure b) (λ t. record { result = _; same = λ s. refl }))

  body_entries-IsPure : (b : Body J) → IsPure {S = S} (body_entries python b)
  body_entries-IsPure (object d) = record { result = _; same = λ s. refl }
  body_entries-IsPure (other b) = record { result = _; same = λ s. refl }

  pub values-IsPure :
      (request : HttpRequest) → IsPure {S = S} (extract_request_values python request)
  unfolding extract_request_values extract_body_keys
  values-IsPure request =
      bind-IsPure (bind-IsPure (load_body-IsPure request.body) body_entries-IsPure)
        (λ body. record { result = _; same = λ s. refl })

  fill-IsPure :
      (request : HttpRequest) (key : String) (ks : List String)
      → IsPure {S = S} (fill python request key ks)
  fill-IsPure request key [] = pure-IsPure (some key)
  fill-IsPure request key (k ∷ ks) = bind-IsPure (values-IsPure request) (λ values.
      bind-IsPure (format-IsPure (objects python) key (formatted_values values (k ∷ ks)))
        (λ filled. pure-IsPure (some filled)))

  pub format_key-IsPure :
      (request : HttpRequest) (key : Option String) → IsPure {S = S} (format_key python request key)
  unfolding format_key
  format_key-IsPure request none = pure-IsPure none
  format_key-IsPure request (some key) =
      bind-IsPure (extract_keys_formatter-IsPure key) (fill-IsPure request key)
