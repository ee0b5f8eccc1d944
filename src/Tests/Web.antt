-- ===== src/Tests/Web.antt =====
-- The theorems on the response cache and the middlewares at concrete inputs.
use fastapi_claude_template.Prelude.{
  arith, ◌≤◌, ◌<◌, ◌↔◌, ℕ, String, ◌≡◌, refl, none, some, List, [], ◌∷◌, ◌++◌, join, decimal,
}
use fastapi_claude_template.Errors.{external}
use fastapi_claude_template.Exec.{ok, err, Exec}
use fastapi_claude_template.Redis.Memory.{Memory, memory_redis, memory_redis-IsRedis}
use fastapi_claude_template.World.{World}
use fastapi_claude_template.Keys.{default_cache_key_builder, sort_keys, insert_sorted}
use fastapi_claude_template.Formatter
use fastapi_claude_template.Formatter.{literal, field}
use fastapi_claude_template.Formatter.{scan, extract_keys_formatter}
use fastapi_claude_template.Formatter.Laws.{template}
use fastapi_claude_template.Formatter.Filling.{format-template}
use fastapi_claude_template.Formatter.{format_depth}
use fastapi_claude_template.ResponseCache.{
  objects, HttpRequest, Python, text, ResponseCache, computed, stored, attach, execute,
  execute_with, invalidate, cache_key, format_key, request_cache_key_builder, query_keys, getlist,
  extract_query_keys, extract_body_keys, extract_request_values, formatted_values,
}
use fastapi_claude_template.ResponseCache.Laws.{execute-again, execute-invalidate}
use fastapi_claude_template.ResponseCache.Sending.{cached, send_wrapped-again}
use fastapi_claude_template.Bus
use fastapi_claude_template.Bus.{RequestBus, instance_of, send_wrapped, get_use_case}
use fastapi_claude_template.Middlewares.{
  Message, Scope, Http, request_id_middleware, access_log_middleware, Entry, error, info,
}
use fastapi_claude_template.Middlewares.Laws.{
  play, bound, stamped, to_server, request_id_middleware-play, access_log_middleware-play,
}
use fastapi_claude_template.Tests.Env.{engine, start}
use fastapi_claude_template.Tests.Rows.{Rows}

-- What CPython's `string.Formatter().parse` gives for these texts
parse_tests :
    (Formatter.parse "a{b}c" ≡ some (literal "a" ∷ field "b" none "" ∷ literal "c" ∷ []))
    × (Formatter.parse "{a!r:x{y}}"
        ≡ some (literal "" ∷ field "a" (some "r") "x{y}" ∷ literal "" ∷ []))
    × (Formatter.parse "{a[x}y]z}" ≡ some (literal "" ∷ field "a[x}y]z" none "" ∷ literal "" ∷ []))
    × (Formatter.parse "{{}}" ≡ some (literal "{" ∷ literal "}" ∷ literal "" ∷ []))
    × (Formatter.parse "{a{b}}" ≡ none)
    × (Formatter.parse "{a" ≡ none)
    × (Formatter.parse "a}" ≡ none)
    × (Formatter.parse "{a!}" ≡ none)
    × (Formatter.parse "{a!rr}" ≡ none)
unfolding Formatter.parse
parse_tests = (refl, refl, refl, refl, refl, refl, refl, refl, refl)

-- Members of a body are numbers.
abbrev python : Python ℕ
python = record {
  loads = λ s. none;
  repr_list = λ l. join "," l;
  str_json = decimal;
  follow = λ rest v. err (external "AttributeError");
  format_object = λ k t v. err (external "ValueError");
}

abbrev get_user : HttpRequest
get_user = record { method = "GET"; path = "/users"; query_params = ("id", "7") ∷ []; body = "" }

abbrev users_cache : ResponseCache Memory
users_cache = record {
  expires_in = 60;
  key = some (template (("users:", "id") ∷ []) "");
  request = none;
  cache = none;
}

abbrev answer : String → Exec (World Memory Rows) String
answer s w = (ok s, w)

unfoldable web : Unit {0}
unfolding engine default_cache_key_builder sort_keys insert_sorted Formatter.parse Formatter.format
    extract_keys_formatter Formatter.get_value execute invalidate cache_key format_key
    request_cache_key_builder query_keys getlist extract_query_keys extract_body_keys
    extract_request_values formatted_values execute_with
web = tt

abbrev served : World Memory Rows
unfolding web
served =
    (execute python (λ s. some s) (attach users_cache get_user memory_redis) (answer "ann") start).1

execute-again_example :
    execute python (λ s. some s) (attach users_cache get_user memory_redis) (answer "bob") served
    ≡ (ok (stored "ann"), served)
unfolding web served
execute-again_example =
    execute-again python (λ s. some s) memory_redis memory_redis-IsRedis users_cache get_user
      (answer "ann") (answer "bob") start served served "ann" "ann" refl refl refl

abbrev invalidated : World Memory Rows
unfolding web served
invalidated = (invalidate python users_cache get_user memory_redis served).1

execute-invalidate_example :
    (execute python
      (λ s. some s)
      (attach users_cache get_user memory_redis)
      (answer "bob")
      invalidated).0
    ≡ ok (computed "bob")
unfolding web served invalidated
execute-invalidate_example =
    execute-invalidate python (λ s. some s) memory_redis memory_redis-IsRedis users_cache get_user
      "users:7" (answer "bob") served invalidated invalidated "bob" refl refl refl (omega arith)
      refl refl

format-template_example :
    (Formatter.format
        (objects python)
        (template (("users:", "id") ∷ (":", "page") ∷ []) "")
        (("id", text "7") ∷ [])
        start
      ≡ (ok "users:7:{page}", start))
    × (Formatter.format_depth
          (objects python)
          9
          (("id", text "7") ∷ [])
          (template (("users:", "id") ∷ (":", "page") ∷ []) "")
          start
        ≡ Formatter.format
            (objects python)
            (template (("users:", "id") ∷ (":", "page") ∷ []) "")
            (("id", text "7") ∷ [])
            start)
unfolding web
format-template_example =
    format-template (objects python) 7 (("id", text "7") ∷ [])
      (("users:", "id") ∷ (":", "page") ∷ []) "" start (refl, refl, (refl, refl, tt)) refl

-- A server that keeps the messages it was given
abbrev keep_message : Message → Exec (List Message) (Unit {0})
keep_message m ms = (ok tt, ms ++ (m ∷ []))

abbrev quiet : Http (List Message)
quiet = record {
  inner = [];
  context = ("stale", "1") ∷ [];
  status_code = 0;
  logs = [];
  times = λ n. n;
  reads = 0;
  entropy = λ n. "id";
  draws = 0;
}

abbrev get_scope : Scope
get_scope = record {
  type_ = "http";
  method = some "GET";
  path = some "/x";
  query_string = some "a=1";
  client = some ("10.0.0.1", 80);
  state = none;
}

abbrev no_message : Exec (Http (List Message)) Message
no_message h = (err (external "disconnected"), h)

abbrev messages : List Message
messages =
    record { type_ = "http.response.start"; status = 404; headers = none }
    ∷ record { type_ = "http.response.body"; status = 0; headers = none }
    ∷ []

request_id_middleware-play_example :
    request_id_middleware
      (play messages (ok tt))
      get_scope
      no_message
      (to_server keep_message)
      quiet
    ≡ (
      (play
          (stamped "id" messages)
          (ok tt)
          get_scope
          no_message
          (to_server keep_message)
          (bound get_scope quiet)).0,
      record (play
          (stamped "id" messages)
          (ok tt)
          get_scope
          no_message
          (to_server keep_message)
          (bound get_scope quiet)).1 { context = [] },
    )
request_id_middleware-play_example =
    request_id_middleware-play messages (ok tt) get_scope no_message (to_server keep_message) quiet
      refl

access_log_middleware-play_example :
    ((access_log_middleware
        (play messages (ok tt))
        get_scope
        no_message
        (to_server keep_message)
        quiet).0
      ≡ ok tt)
    × ((access_log_middleware
          (play messages (ok tt))
          get_scope
          no_message
          (to_server keep_message)
          quiet).1.inner
        ≡ messages)
    × (entry : Entry) × ((access_log_middleware
          (play messages (ok tt))
          get_scope
          no_message
          (to_server keep_message)
          quiet).1.logs
        ≡ entry ∷ [])
    × (entry.status ≡ 404)
    × (entry.duration ≡ 1)
    × ((entry.level ≡ error) ↔ (500 ≤ entry.status))
    × ((entry.level ≡ info) ↔ (entry.status < 400))
access_log_middleware-play_example =
    access_log_middleware-play keep_message messages (ok tt) get_scope no_message quiet refl

-- A bus on which one kind of request is registered, whose use case is ready made
abbrev answering_bus : RequestBus (World Memory Rows) ℕ String String
answering_bus = record {
  registry = ("GetUser", instance_of (λ q. answer q)) ∷ [];
  dependencies = [];
}

send_wrapped-again_example :
    send_wrapped answering_bus
      (cached python (λ s. some s) memory_redis users_cache get_user)
      "GetUser"
      "bob"
      served
    ≡ (ok (stored "ann"), served)
unfolding web served Bus.send_wrapped get_use_case
send_wrapped-again_example =
    send_wrapped-again python (λ s. some s) memory_redis memory_redis-IsRedis users_cache get_user
      answering_bus "GetUser" "ann" "bob" start served served (λ q. answer q) "ann" "ann" refl refl
      refl refl
