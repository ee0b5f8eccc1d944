-- ===== src/Provider/Laws.antt =====
-- The order of the middlewares, and what the error middleware lets through.
use fastapi_claude_template.Prelude.{
  ℕ, ◌≤◌, ◌<◌, ◌⊎◌, String, ◌≡◌, refl, ap, subst, ◌∙◌, ◌↔◌, ◌≢◌, Bool, true, false, Option, none,
  some, List, [], ◌∷◌, ◌++◌, reverse, arith, inl, inr, Bool-cases, foldr, reverse-cons, All,
}
use fastapi_claude_template.Errors.{
  ApiError, ErrorClass, api, api_error, bad_request_error, not_found_error, conflict_error,
  unauthorized_error, forbidden_error, entity_too_large, server_error, too_many_requests_error,
}
use fastapi_claude_template.Exec.{ok, err}
use fastapi_claude_template.Exec.Laws.{run-cases}
use fastapi_claude_template.Provider.{
  Response, Request, CallNext, error_of, is_success, api_error_of, check_response, request_error,
  wrap_loop, wrap_middleware, register, unregister,
}

-- The status that each class of error stands for; `APIError` itself stands for every other.
abbrev pub class_status : ErrorClass → Option ℕ
class_status api_error = none
class_status bad_request_error = some 400
class_status not_found_error = some 404
class_status conflict_error = some 409
class_status unauthorized_error = some 401
class_status forbidden_error = some 403
class_status entity_too_large = some 413
class_status server_error = some 500
class_status too_many_requests_error = some 429

module _ {S : Type 0} where
  check_response-eq-ok :
      (response r : Response S) (t s' : S)
      → check_response response t ≡ (ok r, s')
      → (response ≡ r) × (t ≡ s') × (200 ≤ response.status) × (response.status ≤ 226)
  unfolding check_response is_success
  check_response-eq-ok response r t s' h = elim (Bool-cases (is_success response)) [
    | inl good ↦ ground arith
    | inr bad ↦ elim (run-cases (response.read t)) [
      | inl (content, u, e) ↦ cc (rw (bad, e, check_response) at h)
      | inr (f, u, e) ↦ cc (rw (bad, e, check_response) at h)
    ]
  ]

  -- What the error middleware returns is the response of the next call, with a status from 200 to 226.
  pub request_error_ok :
      (call_next : CallNext S) (request : Request) (s s' : S) (r : Response S)
      → request_error call_next request s ≡ (ok r, s')
      → (call_next request s ≡ (ok r, s')) × (200 ≤ r.status) × (r.status ≤ 226)
  unfolding request_error
  request_error_ok call_next request s s' r h = elim (run-cases (call_next request s)) [
    | inr (f, t, e) ↦ cc (rw (e, request_error) at h)
    | inl (response, t, e) ↦
        let (same, unchanged, low, high) =
          check_response-eq-ok response r t s' (rw (e, request_error) at h) in
        (
          rw e (ap (λ x. (ok x, t)) same ∙ ap (λ u. (ok r, u)) unchanged),
          subst (λ x. 200 ≤ x.status) same low,
          subst (λ x. x.status ≤ 226) same high,
        )
  ]

  -- A response with any other status, whose body can be read, becomes an error that carries the
  -- status, the body and the URL.
  pub request_error_fails :
      (call_next : CallNext S) (request : Request) (response : Response S) (content : String)
      (s t u : S)
      → call_next request s ≡ (ok response, t)
      → (response.status < 200) ⊎ (226 < response.status)
      → response.read t ≡ (ok content, u)
      → (e : ApiError) × (request_error call_next request s ≡ (err (api e), u))
        × (e.status_code ≡ response.status)
        × (e.content ≡ content)
        × (e.url ≡ some response.url)
        × (e.class ≡ (error_of response.status).0)
  unfolding request_error check_response is_success api_error_of
  request_error_fails call_next request response content s t u called status body =
      let bad : is_success response ≡ false = ground arith in
      (
        api_error_of response content,
        rw (called, check_response, bad, body) refl,
        refl,
        refl,
        refl,
        refl,
      )

-- Each class but `APIError` itself is raised for its status and for no other.
pub error_of-class :
    (status : ℕ) (c : ErrorClass)
    → c ≢ api_error
    → ((error_of status).0 ≡ c) ↔ (class_status c ≡ some status)
unfolding error_of
error_of-class status c named = ground arith

module _ {S M : Type 0} (apply : M → CallNext S → CallNext S) where
  wrap_loop-append :
      (xs ys : List M) (next : CallNext S)
      → wrap_loop apply (xs ++ ys) next ≡ wrap_loop apply ys (wrap_loop apply xs next)
  unfolding wrap_loop
  wrap_loop-append [] ys next = refl
  wrap_loop-append (x ∷ xs) ys next = wrap_loop-append xs ys (apply x next)

  -- The middlewares wrap the request as an onion: the first in the list is the outermost.
  pub wrap_middleware-nested :
      (ms : List M) (make_request : CallNext S)
      → wrap_middleware apply ms make_request ≡ foldr apply make_request ms
  unfolding wrap_middleware wrap_loop
  wrap_middleware-nested [] make_request = refl
  wrap_middleware-nested (m ∷ ms) make_request =
      rw (reverse-cons m ms, wrap_loop-append (reverse ms) (m ∷ []) make_request)
        (ap (apply m) (wrap_middleware-nested ms make_request))

  -- A middleware that is registered runs inside all the earlier ones, and unregistering it gives the
  -- calls back as they were, if it was not among them before.
  pub wrap_middleware-register :
      (same : M → M → Bool) (m : M) (ms : List M) (make_request : CallNext S)
      → same m m ≡ true
      → All (λ x. same x m ≡ false) ms
      → (wrap_middleware apply (register m ms) make_request
          ≡ wrap_middleware apply ms (apply m make_request))
        × (unregister same m (register m ms) ≡ ok ms)
  unfolding register unregister
  wrap_middleware-register same m ms make_request self fresh = (
    rw
        (
          wrap_middleware-nested (register m ms) make_request,
          wrap_middleware-nested ms (apply m make_request),
        )
        (foldr-register ms make_request),
    unregister-register ms fresh,
  )
    where
      foldr-register :
          (ms : List M) (next : CallNext S)
          → foldr apply next (register m ms) ≡ foldr apply (apply m next) ms
      foldr-register [] next = refl
      foldr-register (x ∷ ms) next = ap (apply x) (foldr-register ms next)

      unregister-register :
          (ms : List M) → All (λ x. same x m ≡ false) ms → unregister same m (register m ms) ≡ ok ms
      unregister-register [] fresh = rw self refl
      unregister-register (x ∷ ms) (other, fresh) = rw (other, unregister-register ms fresh) refl
