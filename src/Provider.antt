-- ===== src/Provider.antt =====
-- src/infrastructure/http/provider: the middlewares of the outgoing HTTP client and its errors. What a
-- server does is a parameter: `make_request` of a provider, and how the body of a response is read.
pub mod Laws
pub mod Aiohttp
use fastapi_claude_template.Prelude.{
  ℕ, String, Bool, true, false, ◌&&◌, Option, none, some, List, [], ◌∷◌, ◌++◌, reverse, length, leb,
  nat_beq, is_empty, ◌<>◌, decimal, if◌then◌else◌,
}
use fastapi_claude_template.Errors.{
  Failure, ApiError, ErrorClass, api, api_error, bad_request_error, not_found_error, conflict_error,
  unauthorized_error, forbidden_error, entity_too_large, server_error, too_many_requests_error,
  value_error,
}
use fastapi_claude_template.Exec.{Exec, pure, raise, ◌>>=◌, ◌>>◌, Result, ok, err}

-- provider/response.py: what the middlewares use of a response
pub record Response (S : Type 0) : Type 0 where
  pub status : ℕ
  pub url : String
  pub read : Exec S String

pub record Request : Type 0 where
  pub method : String
  pub url_or_endpoint : String

abbrev pub CallNext : Type 0 → Type 0
CallNext S = Request → Exec S (Response S)

-- provider/middleware/error.py, from the first test of a status that is no success
unfoldable pub error_of : ℕ → ErrorClass × String
error_of status_code =
    if nat_beq status_code 400
    then (bad_request_error, "Bad request")
    else if nat_beq status_code 429
    then (too_many_requests_error, "Too many requests")
    else if nat_beq status_code 404
    then (not_found_error, "Not found")
    else if nat_beq status_code 409
    then (conflict_error, "Conflict")
    else if nat_beq status_code 401
    then (unauthorized_error, "Auth is required")
    else if nat_beq status_code 403
    then (forbidden_error, "You have no permissions")
    else if nat_beq status_code 413
    then (entity_too_large, "Too large content")
    else if nat_beq status_code 500
    then (server_error, "Server is disabled or you are banned")
    else (api_error, "Unknown Error")

-- provider/errors.py: `DetailedError.__str__`, then `APIError.__str__` around it; the content as it is
-- formatted
unfoldable pub detailed_text : ApiError → String
detailed_text e =
    let message = e.message <> "\n" <> e.content in
    elim e.url [
      | none ↦ message
      | some url ↦
          if is_empty url
          then message
          else message <> "\n(background on this error at: " <> url <> ")"
    ]

unfoldable pub api_text : ApiError → String
unfolding detailed_text
api_text e = "Status: " <> decimal e.status_code <> ": Server says - " <> detailed_text e

module _ {S : Type 0} where
  unfoldable pub is_success : Response S → Bool
  is_success response = leb 200 response.status && leb response.status 226

  unfoldable pub api_error_of : Response S → String → ApiError
  unfolding error_of
  api_error_of response content = record {
    class = (error_of response.status).0;
    status_code = response.status;
    content = content;
    message = (error_of response.status).1;
    url = some response.url;
  }

  unfoldable pub check_response : Response S → Exec S (Response S)
  unfolding is_success api_error_of
  check_response response =
      if is_success response
      then pure response
      else do content ← response.read; raise (api (api_error_of response content))

  -- `RequestErrorMiddleware.__call__`
  unfoldable pub request_error : CallNext S → CallNext S
  unfolding check_response
  request_error call_next request = do response ← call_next request; check_response response

-- provider/middleware/manager.py: `RequestMiddlewareManager`, whose state is the list. A middleware is
-- known by its identity, which `same` compares, and is applied to the next call by `apply`.
module _ {S M : Type 0} (apply : M → CallNext S → CallNext S) where
  -- the loop of `wrap_middleware`, over what is left of the reversed list
  unfoldable pub wrap_loop : List M → CallNext S → CallNext S
  wrap_loop [] middleware = middleware
  wrap_loop (m ∷ ms) middleware = wrap_loop ms (apply m middleware)

  unfoldable pub wrap_middleware : List M → CallNext S → CallNext S
  unfolding wrap_loop
  wrap_middleware middlewares callback = wrap_loop (reverse middlewares) callback

  -- provider/base.py: `AsyncProvider.__call__`
  unfoldable pub call : List M → CallNext S → CallNext S
  unfolding wrap_middleware
  call middlewares make_request request = wrap_middleware middlewares make_request request

module _ {M : Type 0} where
  unfoldable pub register : M → List M → List M
  register middleware middlewares = middlewares ++ (middleware ∷ [])

  -- `list.remove`: the first that is the same, and `ValueError` where there is none
  unfoldable pub unregister : (M → M → Bool) → M → List M → Result (List M)
  unregister same middleware [] = err (value_error "list.remove(x): x not in list")
  unregister same middleware (m ∷ ms) =
      let rest = unregister same middleware ms in
      if same m middleware then ok ms else elim rest [ ok kept ↦ ok (m ∷ kept) | err e ↦ err e ]

  -- `__len__`
  unfoldable pub count : List M → ℕ
  count middlewares = length middlewares
