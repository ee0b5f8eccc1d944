-- ===== src/Provider/Aiohttp/Requests/Calls.antt =====
-- A call of the aiohttp provider with its default middlewares, which are `RequestErrorMiddleware`
-- alone.
use fastapi_claude_template.Prelude.{
  ℕ, String, arith, ◌&&◌, nat_beq, List, leb, ◌≡◌, refl, true, false, some, [], ◌∷◌, if◌then◌else◌,
  Bool-cases, inl, inr, ap, ◌∙◌, ◌<>◌,
}
use fastapi_claude_template.Errors.{
  api, network_error, ErrorClass, bad_request_error, unauthorized_error, forbidden_error,
  not_found_error, conflict_error, entity_too_large, too_many_requests_error, server_error,
  api_error,
}
use fastapi_claude_template.Exec.{Result, ok, err, continue}
use fastapi_claude_template.Provider.{
  Response, CallNext, error_of, api_error_of, is_success, check_response, request_error, call,
  wrap_middleware, wrap_loop,
}
use fastapi_claude_template.Provider.Aiohttp
use fastapi_claude_template.Provider.Aiohttp.{ClientSession}
use fastapi_claude_template.Provider.Aiohttp.Requests.{
  ClientLibrary, Net, Fetched, answered, timed_out, client_error, failed, has_scheme, make_request,
}
use fastapi_claude_template.Provider.Aiohttp.Requests.Laws.{promised, make_request_lem}

-- The class and the message of each status that has one of its own
abbrev pub classes : List (ℕ × ErrorClass × String)
classes =
    (400, bad_request_error, "Bad request")
    ∷ (401, unauthorized_error, "Auth is required")
    ∷ (403, forbidden_error, "You have no permissions")
    ∷ (404, not_found_error, "Not found")
    ∷ (409, conflict_error, "Conflict")
    ∷ (413, entity_too_large, "Too large content")
    ∷ (429, too_many_requests_error, "Too many requests")
    ∷ (500, server_error, "Server is disabled or you are banned")
    ∷ []

abbrev pub class_in : List (ℕ × ErrorClass × String) → ℕ → ErrorClass × String
class_in [] status = (api_error, "Unknown Error")
class_in ((other, class, message) ∷ more) status =
    let rest = class_in more status in if nat_beq other status then (class, message) else rest

error_of-classes : (status : ℕ) → error_of status ≡ class_in classes status
unfolding error_of
error_of-classes status = ground arith

module _ {C X S : Type 0} (aiohttp : ClientLibrary C S) where
  -- `AiohttpProvider()(method, url)`
  abbrev pub call_default : CallNext (Net C X S)
  call_default =
      call {S = Net C X S} {M = Unit {0}} (λ m next. request_error next) (tt ∷ [])
        (make_request aiohttp)

  -- What a call promises: a response with a status from 200 to 226, and otherwise an error of the
  -- class in the table
  abbrev pub judged : Fetched → Result (Response (Net C X S))
  judged (answered r) =
      if leb 200 r.status && leb r.status 226
      then ok (record { status = r.status; url = r.url; read = λ n. (ok r.content, n) })
      else err (
          api (record {
            class = (class_in classes r.status).0;
            status_code = r.status;
            content = r.content;
            message = (class_in classes r.status).1;
            url = some r.url;
          }))
  judged timed_out = err (network_error "Request timeout error")
  judged (client_error class) = err (network_error (class <> " occurred"))
  judged (failed e) = err e

  check-judged :
      (f : Fetched) (n : Net C X S)
      → continue check_response (promised aiohttp f, n) ≡ (judged f, n)
  unfolding check_response is_success api_error_of
  check-judged (answered r) n = elim (Bool-cases (leb 200 r.status && leb r.status 226)) [
    | inl e ↦ rw e refl
    | inr e ↦ rw (e, error_of-classes r.status) refl
  ]
  check-judged timed_out n = refl
  check-judged (client_error class) n = refl
  check-judged (failed e) n = refl

  -- A call with a URL of its own goes over an open session and returns only a response with a status
  -- from 200 to 226; any other response is raised with its content, status and URL as the error that
  -- `classes` has for its status, or else as an APIError, a timeout and each error of the client as NetworkError, and other
  -- exceptions as they are.
  pub call-make_request :
      (method url : String) (n : Net C X S)
      → has_scheme url ≡ true
      → (s : ClientSession C) × (s.closed ≡ false)
        × (call_default (record { method = method; url_or_endpoint = url }) n ≡ (
          judged (aiohttp.request s (record { method = method; url_or_endpoint = url }) n.inner).0,
          record n {
            provider = Aiohttp.create_session n.provider;
            inner =
                (aiohttp.request s (record { method = method; url_or_endpoint = url }) n.inner).1;
          },
        ))
  unfolding call wrap_middleware wrap_loop request_error
  call-make_request method url n h =
      let (s, opened, e) = make_request_lem aiohttp method url n h in
      (
        s,
        opened,
        ap (continue check_response) e
            ∙ check-judged
                (aiohttp.request s (record { method = method; url_or_endpoint = url }) n.inner).0
                (record n {
                  provider = Aiohttp.create_session n.provider;
                  inner =
                      (aiohttp.request s (record { method = method; url_or_endpoint = url })
                        n.inner).1;
                }),
      )
