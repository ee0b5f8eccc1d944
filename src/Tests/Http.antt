-- ===== src/Tests/Http.antt =====
-- The HTTP client's and the handlers' theorems at concrete inputs.
use fastapi_claude_template.Prelude.{
  none, String, false, ℕ, suc, ◌≤◌, ◌+◌, ◌≡◌, refl, some, [], ◌∷◌, lookup,
}
use fastapi_claude_template.Errors.{detailed, forbidden}
use fastapi_claude_template.Exec.{ok, pure, Exec}
use fastapi_claude_template.Provider.{Response, Request, CallNext}
use fastapi_claude_template.Provider.Aiohttp.{
  AiohttpProvider, ClientSession, create_session, run, new_provider, create, close, proxy_to,
}
use fastapi_claude_template.Provider.Aiohttp.Laws.{create_session-run}
use fastapi_claude_template.Handlers.{OrjsonResponse, handle, failure, text}
use fastapi_claude_template.Handlers.Laws.{handle-ticket}
use fastapi_claude_template.World.{World}
use fastapi_claude_template.Redis.Memory.{Memory}
use fastapi_claude_template.Tests.Rows.{Rows}
use fastapi_claude_template.Tests.Env.{start}

-- A server whose state counts the requests, and that answers with a status
abbrev answer : ℕ → Response ℕ
answer status = record { status = status; url = "http://api/x"; read = λ s. (ok "body", s) }

abbrev server : ℕ → CallNext ℕ
server status request s = (ok (answer status), suc s)

abbrev get_x : Request
get_x = record { method = "GET"; url_or_endpoint = "x" }

-- Middlewares are numbers that add themselves to the count.
abbrev adding : ℕ → CallNext ℕ → CallNext ℕ
adding n next request s = next request (s + n)

-- A handler for the exceptions of the framework that gives their status
abbrev default_handler : ℕ → String → Exec (World Memory Rows) OrjsonResponse
default_handler status detail =
    pure (record { body = ("detail", text detail) ∷ []; status = status; headers = none })

handle-ticket_example :
    (r : OrjsonResponse) × (handle default_handler
        (some "req-1")
        (failure (detailed forbidden "No"))
        start
      ≡ (ok r, start))
    × (lookup "ticket" r.body ≡ some (text "req-1"))
    × (400 ≤ r.status)
    × (r.status ≤ 503)
handle-ticket_example =
    handle-ticket default_handler "req-1" (failure (detailed forbidden "No")) start refl refl

-- A connector is the proxy's number, and 0 without one.
abbrev proxied : AiohttpProvider ℕ ℕ
unfolding run new_provider
proxied = run (λ x. x) (create ∷ proxy_to 5 ∷ close ∷ []) (new_provider 0)

create_session-run_example :
    (s : ClientSession ℕ) × ((create_session proxied).session ≡ some s)
    × (s.closed ≡ false)
    × (s.connector ≡ proxied.connector)
    × ((create_session proxied).opened ≡ (create_session proxied).ended + 1)
unfolding proxied
create_session-run_example = create_session-run (λ x. x) 0 (create ∷ proxy_to 5 ∷ close ∷ [])
