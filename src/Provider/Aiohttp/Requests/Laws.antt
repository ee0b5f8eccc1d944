-- ===== src/Provider/Aiohttp/Requests/Laws.antt =====
-- What a request of the aiohttp provider comes to.
use fastapi_claude_template.Prelude.{
  String, ◌<>◌, List, ◌≡◌, ◌⊎◌, refl, true, false, none, some, if◌then◌else◌, Bool-cases, inl, inr,
  Option-cases,
}
use fastapi_claude_template.Errors.{value_error, type_error, network_error}
use fastapi_claude_template.Exec.{Result, ok, err}
use fastapi_claude_template.Provider.{Request, Response}
use fastapi_claude_template.Provider.Aiohttp
use fastapi_claude_template.Provider.Aiohttp.{
  AiohttpProvider, ClientSession, is_open, open_session, close_session,
}
use fastapi_claude_template.Provider.Aiohttp.Requests.{
  ClientLibrary, Net, Fetched, answered, timed_out, client_error, failed, has_scheme, resolve_url,
  make_request, outcome_of, update_cookies, update_headers, exit,
}

module _ {C X : Type 0} where
  open_session-open :
      (p : AiohttpProvider C X)
      → (s : ClientSession C) × ((open_session p).session ≡ some s) × (s.closed ≡ false)
  unfolding open_session is_open
  open_session-open p = elim (Option-cases p.session) [
    | inl e ↦ (record { connector = p.connector; closed = false }, rw e refl, refl)
    | inr (s, e) ↦ elim (Bool-cases s.closed) [
      | inl c ↦ (record { connector = p.connector; closed = false }, rw (e, c) refl, refl)
      | inr c ↦ (s, rw (open_session, e, c) refl, c)
    ]
  ]

  create_session-open :
      (p : AiohttpProvider C X)
      → (s : ClientSession C) × ((Aiohttp.create_session p).session ≡ some s) × (s.closed ≡ false)
  unfolding Aiohttp.create_session
  create_session-open p =
      open_session-open (if p.should_reset_connector then close_session p else p)

  close_session-closed :
      (p : AiohttpProvider C X)
      → ((close_session p).session ≡ none)
        ⊎ ((s : ClientSession C) × ((close_session p).session ≡ some s) × (s.closed ≡ true))
  unfolding close_session is_open
  close_session-closed p = elim (Option-cases p.session) [
    | inl e ↦ inl (rw (close_session, e) refl)
    | inr (s, e) ↦ elim (Bool-cases s.closed) [
      | inl c ↦ inr (s, rw (close_session, e, c) refl, c)
      | inr c ↦ inr (record s { closed = true }, rw (close_session, e, c) refl, refl)
    ]
  ]

module _ {C X S : Type 0} (aiohttp : ClientLibrary C S) where
  -- An endpoint cannot be requested without a base URL: after the session was created nothing is
  -- sent.
  pub make_request-unresolved :
      (request : Request) (n : Net C X S)
      → has_scheme request.url_or_endpoint ≡ false
      → (n.url ≡ none)
      → make_request aiohttp request n ≡ (
        err (value_error "If you want to use endpoints you should provide url."),
        record n { provider = Aiohttp.create_session n.provider },
      )
  unfolding make_request resolve_url
  make_request-unresolved request n h no_url = rw (h, no_url) refl

  -- What a request promises: the response with its content to read, NetworkError for a timeout and for
  -- each error of the client, and any other exception as it is
  abbrev pub promised : Fetched → Result (Response (Net C X S))
  promised (answered r) =
      ok (record { status = r.status; url = r.url; read = λ n. (ok r.content, n) })
  promised timed_out = err (network_error "Request timeout error")
  promised (client_error class) = err (network_error (class <> " occurred"))
  promised (failed e) = err e

  outcome_of-promised : (f : Fetched) → outcome_of aiohttp f ≡ promised f
  unfolding outcome_of
  outcome_of-promised (answered r) = refl
  outcome_of-promised timed_out = refl
  outcome_of-promised (client_error class) = refl
  outcome_of-promised (failed e) = refl

  -- A request with a URL of its own goes over an open session, whose answer it returns with the
  -- content to read; a timeout and each error of the client become NetworkError, and other
  -- exceptions pass.
  pub make_request_lem :
      (method url : String) (n : Net C X S)
      → has_scheme url ≡ true
      → (s : ClientSession C) × (s.closed ≡ false)
        × (make_request aiohttp (record { method = method; url_or_endpoint = url }) n ≡ (
          promised
              (aiohttp.request s (record { method = method; url_or_endpoint = url }) n.inner).0,
          record n {
            provider = Aiohttp.create_session n.provider;
            inner =
                (aiohttp.request s (record { method = method; url_or_endpoint = url }) n.inner).1;
          },
        ))
  unfolding make_request resolve_url
  make_request_lem method url n h =
      let (s, e, opened) = create_session-open n.provider in
      (
        s,
        opened,
        rw
            (
              h,
              e,
              outcome_of-promised
                  (aiohttp.request s (record { method = method; url_or_endpoint = url }) n.inner).0,
            )
            refl,
      )

  -- After leaving the provider, cookies and headers are refused until a session is created again.
  pub update-exit :
      (values : List (String × String)) (n : Net C X S)
      → ((m : String) × (update_cookies aiohttp values (exit aiohttp n).1
            ≡ (err (type_error m), (exit aiohttp n).1)))
        × ((m : String) × (update_headers aiohttp values (exit aiohttp n).1
              ≡ (err (type_error m), (exit aiohttp n).1)))
  unfolding update_cookies update_headers
  update-exit values n = elim (close_session-closed n.provider) [
    | inl e ↦ (
      ("Cannot update headers while session is not connected", rw e refl),
      ("Cannot update headers while session is not connected", rw e refl),
    )
    | inr (s, e, c) ↦ (
      ("Cannot update headers while session disconnected", rw (e, c) refl),
      ("Cannot update headers while session disconnected", rw (e, c) refl),
    )
  ]
