-- ===== src/Tests/Wires.antt =====
-- The theorems on the buses, the brokers, the requests and the settings at concrete inputs.
use fastapi_claude_template.Prelude.{
  ℕ, suc, ◌+◌, String, ◌≡◌, refl, true, false, none, some, List, [], ◌∷◌, ◌<>◌, Dict, insert,
  lookup, dict_keys,
}
use fastapi_claude_template.Errors.{key_error, network_error}
use fastapi_claude_template.Exec.{Result, ok, err, Exec, pure, ◌>>=◌}
use fastapi_claude_template.Provider.Aiohttp
use fastapi_claude_template.Provider.Aiohttp.{AiohttpProvider, ClientSession, new_provider}
use fastapi_claude_template.Provider.Aiohttp.Proxies.{Item, ProxyInfo}
use fastapi_claude_template.Provider.Aiohttp.Requests.{ClientLibrary, Net, timed_out, has_scheme}
use fastapi_claude_template.Provider.Aiohttp.Requests.Calls.{call_default, call-make_request}
use fastapi_claude_template.Bus
use fastapi_claude_template.Bus.{
  Dependency, callable, object, UseCase, UseCaseClass, RequestBus, factory, builder,
  predict_dependency_or_raise, resolved, register, not_registered, get_use_case,
}
use fastapi_claude_template.Bus.Events
use fastapi_claude_template.Bus.Events.{Classes}
use fastapi_claude_template.Events.{BrokerEvent}
use fastapi_claude_template.Nats.{NatsClient}
use fastapi_claude_template.Nats.Laws.{both, send-plain}
use fastapi_claude_template.Settings.{DatabaseSettings, default_database}

-- Objects are numbers, and a use case adds its dependencies to the message.
abbrev show : Dependency ℕ ℕ → String
show d = "dependency"

abbrev next : Exec ℕ ℕ
next n = (ok n, suc n)

abbrev sum : Dict ℕ → ℕ
sum [] = 0
sum ((k, v) ∷ d) = let rest = sum d in v + rest

abbrev add_use_case : UseCaseClass ℕ ℕ ℕ ℕ
add_use_case = record {
  params = ("a", object 1) ∷ ("request", object 5) ∷ [];
  new = λ d n. (ok (λ q. pure (q + sum d)), n);
}

abbrev bus : RequestBus ℕ ℕ ℕ ℕ
bus = builder (("a", callable next) ∷ [])

abbrev registered : RequestBus ℕ ℕ ℕ ℕ
registered = record {
  registry =
      (
        "Add",
        factory (resolved (("a", callable next) ∷ ("request", object 5) ∷ []) >>= add_use_case.new),
      )
      ∷ [];
  dependencies = ("a", callable next) ∷ [];
}

unfoldable wires : Unit {0}
unfolding insert lookup dict_keys predict_dependency_or_raise resolved register get_use_case
    Bus.send Bus.Events.build Bus.Events.send
wires = tt

abbrev predicted : Dict ℕ
predicted = ("a", 9) ∷ ("request", 5) ∷ []

-- A bus whose use case fails to find a key as it is made
abbrev failing : Exec ℕ (UseCase ℕ ℕ ℕ)
failing n = (err (key_error "DSN"), suc n)

abbrev failing_bus : RequestBus ℕ ℕ ℕ ℕ
failing_bus = record { registry = ("Add", factory failing) ∷ []; dependencies = [] }

-- A client that keeps the subjects and replies
abbrev nats : NatsClient (List String)
nats = record {
  connect = λ servers user password s. (ok tt, s);
  publish = λ subject payload reply headers s. (ok tt, subject ∷ reply ∷ s);
  js_publish = λ subject payload stream timeout headers s. (ok tt, "js" ∷ s);
  packb = λ event. "";
}

abbrev classes : Classes
classes = record { subclasses = "BrokerEvent" ∷ []; is_subclass = λ c d. true }

abbrev stream_event : BrokerEvent
stream_event = record {
  subject = "jobs";
  reply = "inbox";
  headers = none;
  stream = some "JOBS";
  timeout = none;
  own = ("id", "7") ∷ [];
}

send-plain_example :
    Bus.Events.send classes (both nats) "JobCreated" stream_event [] ≡ (ok tt, "jobs" ∷ "" ∷ [])
unfolding wires
send-plain_example =
    send-plain nats classes "JobCreated" stream_event (both nats) bus bus [] refl refl refl

-- A library whose requests all time out and are counted
abbrev aiohttp : ClientLibrary ℕ ℕ
aiohttp = record {
  request = λ session request n. (timed_out, suc n);
  get = λ session u size raises n. (ok [], n);
  update_cookies = λ session values n. (ok tt, n);
  update_headers = λ session values n. (ok tt, n);
  urljoin = λ base endpoint. base <> endpoint;
}

abbrev provider : AiohttpProvider ℕ ℕ
unfolding new_provider
provider = new_provider 0

abbrev net : Net ℕ ℕ ℕ
net = record { provider = provider; url = none; inner = 0 }

call-make_request_example :
    (s : ClientSession ℕ) × (s.closed ≡ false)
    × (call_default aiohttp (record { method = "GET"; url_or_endpoint = "http://api/x" }) net ≡ (
      err (network_error "Request timeout error"),
      record net { provider = Aiohttp.create_session provider; inner = 1 },
    ))
unfolding has_scheme
call-make_request_example = call-make_request aiohttp "GET" "http://api/x" net refl

abbrev local_info : ProxyInfo
local_info = record {
  proxy_type = "socks5";
  host = "localhost";
  port = 1080;
  username = none;
  password = none;
  rdns = true;
}

abbrev parse_proxy_url : Item → Result ProxyInfo
parse_proxy_url i = ok local_info

abbrev database : DatabaseSettings
database = record default_database {
  uri = "postgresql+asyncpg://{}:{}@{}:{}/{}";
  name = "app";
  host = some "db";
  port = some 5432;
  user = some "u";
  password = some "p@ss";
}
