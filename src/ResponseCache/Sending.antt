-- ===== src/ResponseCache/Sending.antt =====
-- `RequestBus.send_wrapped` with a `ResponseCache` as its wrapper.
use fastapi_claude_template.Prelude.{String, ◌≡◌, Option, some}
use fastapi_claude_template.Exec.{Exec, ok}
use fastapi_claude_template.Exec.Laws.{bind-eq-ok}
use fastapi_claude_template.Redis.{Redis, IsRedis}
use fastapi_claude_template.World.{World}
use fastapi_claude_template.Bus.{RequestBus, UseCase, get_use_case, send_wrapped}
use fastapi_claude_template.ResponseCache.{
  HttpRequest, Python, ResponseCache, Answer, computed, stored, attach, execute,
}
use fastapi_claude_template.ResponseCache.Laws.{execute-again}

module _ {J Q R C D : Type 0} (python : Python J) (dump : R → Option String) (r : Redis C)
    (self : ResponseCache C) (request : HttpRequest) where
  -- The `execute` of the wrapper, called for the request
  abbrev pub cached : UseCase (World C D) Q R → Q → Exec (World C D) (Answer R)
  cached use_case message = execute python dump (attach self request r) (use_case message)

module _ {J V Q R C D : Type 0} (python : Python J) (dump : R → Option String) (r : Redis C)
    (laws : IsRedis r) (self : ResponseCache C) (request : HttpRequest) where
  -- A message that is sent through the bus and the response cache for a request that they have
  -- answered with a model gets that model's JSON, whatever the message: its use case is made, which
  -- must leave the cache as it is, but never run.
  pub send_wrapped-again :
      (bus : RequestBus (World C D) V Q R) (name : String) (message message' : Q)
      (w w' later : World C D) (use_case : UseCase (World C D) Q R) (a : R) (json : String)
      → send_wrapped bus (cached python dump r self request) name message w ≡ (ok (computed a), w')
      → dump a ≡ some json
      → get_use_case bus name w' ≡ (ok use_case, later)
      → later.cache ≡ w'.cache
      → send_wrapped bus (cached python dump r self request) name message' w'
        ≡ (ok (stored json), later)
  unfolding send_wrapped
  send_wrapped-again bus name message message' w w' later use_case a json h e made same =
      let (first, _, h1) =
        bind-eq-ok (get_use_case bus name) (λ u. cached python dump r self request u message) w h in
      rw made (
        execute-again python dump r laws self request (first message) (use_case message')
          (get_use_case bus name w).1 w' later a json h1 e same)
