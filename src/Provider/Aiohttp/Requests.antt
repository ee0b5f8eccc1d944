-- ===== src/Provider/Aiohttp/Requests.antt =====
-- src/infrastructure/http/provider/aiohttp.py: `make_request`, `stream_content`, the URL of an
-- endpoint and the updates of a session; and clients/base.py over them. What aiohttp does with a
-- session, and `urllib.parse.urljoin`, are parameters.
pub mod Calls
pub mod Laws
use Prim.Native.String
use fastapi_claude_template.Prelude.{
  ℕ, String, Char, code, Bool, true, false, not, ◌&&◌, ◌||◌, Option, none, some, List, [], ◌∷◌, leb,
  nat_beq, is_empty, ◌<>◌, if◌then◌else◌,
}
use fastapi_claude_template.Errors.{Failure, network_error, type_error, value_error, external}
use fastapi_claude_template.Exec.{Result, ok, err, Exec, pure, raise, ◌>>=◌, ◌>>◌}
use fastapi_claude_template.Provider.{Response, Request}
use fastapi_claude_template.Provider.Aiohttp
use fastapi_claude_template.Provider.Aiohttp.{ClientSession, AiohttpProvider}

-- aiohttp's `ClientResponse` with its content read
pub record ClientResponse : Type 0 where
  pub status : ℕ
  pub url : String
  pub content : String

-- How a request over a session ends: `TimeoutError`, a `ClientError` of a class, or another exception
pub data Fetched : Type 0 where
  answered : ClientResponse → Fetched
  timed_out : Fetched
  client_error : String → Fetched
  failed : Failure → Fetched

pub record ClientLibrary (C S : Type 0) : Type 0 where
  pub request : ClientSession C → Request → S → Fetched × S
  -- `session.get` with the chunks of its content
  pub get : ClientSession C → String → ℕ → Bool → Exec S (List String)
  pub update_cookies : ClientSession C → List (String × String) → Exec S (Unit {0})
  pub update_headers : ClientSession C → List (String × String) → Exec S (Unit {0})
  pub urljoin : String → String → String

-- The provider with its base URL, and what is outside
pub record Net (C X S : Type 0) : Type 0 where
  pub provider : AiohttpProvider C X
  pub url : Option String
  pub inner : S

abbrev is_between : ℕ → ℕ → Char → Bool
is_between a b c = leb a (code c) && leb (code c) b

abbrev is_letter : Char → Bool
is_letter c = is_between b'a' b'z' c || is_between b'A' b'Z' c

-- `scheme_chars`
abbrev is_scheme_char : Char → Bool
is_scheme_char c =
    is_letter c
    || is_between b'0' b'9' c
    || nat_beq (code c) b'+'
    || nat_beq (code c) b'-'
    || nat_beq (code c) b'.'

-- Whether a colon follows, after characters of a scheme only
abbrev scheme_ends : String → Bool
scheme_ends String.[] = false
scheme_ends (String.◌∷◌ c s) =
    let rest = scheme_ends s in if nat_beq (code c) b':' then true else is_scheme_char c && rest

-- Tabs and line ends go, wherever they are.
abbrev strip_unsafe : String → String
strip_unsafe String.[] = ""
strip_unsafe (String.◌∷◌ c s) =
    let rest = strip_unsafe s in
    if nat_beq (code c) 9 || nat_beq (code c) 10 || nat_beq (code c) 13
    then rest
    else String.◌∷◌ c rest

abbrev begins_scheme : String → Bool
begins_scheme String.[] = false
begins_scheme (String.◌∷◌ c s) = is_letter c && scheme_ends s

-- `url.lstrip` of control characters and spaces
abbrev strip_start : String → String
strip_start String.[] = ""
strip_start (String.◌∷◌ c s) =
    let rest = strip_start s in if leb (code c) 32 then rest else String.◌∷◌ c s

-- `urlparse(url).scheme != ""`
unfoldable pub has_scheme : String → Bool
has_scheme url = begins_scheme (strip_unsafe (strip_start url))

module _ {C X S : Type 0} (aiohttp : ClientLibrary C S) where
  abbrev pub on_inner : {A : Type 0} → Exec S A → Exec (Net C X S) A
  on_inner m n = ((m n.inner).0, record n { inner = (m n.inner).1 })

  -- `if not self.url:`
  abbrev pub join_or_raise : Option String → String → Exec (Net C X S) String
  join_or_raise none endpoint =
      raise (value_error "If you want to use endpoints you should provide url.")
  join_or_raise (some url) endpoint =
      if is_empty url
      then raise (value_error "If you want to use endpoints you should provide url.")
      else pure (aiohttp.urljoin url endpoint)

  unfoldable pub resolve_url : String → Exec (Net C X S) String
  unfolding has_scheme
  resolve_url url_or_endpoint n =
      if has_scheme url_or_endpoint
      then (ok url_or_endpoint, n)
      else join_or_raise n.url url_or_endpoint n

  -- `await self.create_session()`, with the session that it returns
  abbrev pub create_session : Exec (Net C X S) (Option (ClientSession C))
  create_session n = (
    ok (Aiohttp.create_session n.provider).session,
    record n { provider = Aiohttp.create_session n.provider },
  )

  -- An attribute of `None` is an AttributeError.
  abbrev pub session_or_raise :
      {A : Type 0}
      → (ClientSession C → Exec (Net C X S) A)
      → Option (ClientSession C)
      → Exec (Net C X S) A
  session_or_raise f none = raise (external "AttributeError")
  session_or_raise f (some session) = f session

  -- `ClientResponseAdapter`
  abbrev pub adapter : ClientResponse → Response (Net C X S)
  adapter response = record {
    status = response.status;
    url = response.url;
    read = pure response.content;
  }

  -- The handlers of `make_request`
  unfoldable pub outcome_of : Fetched → Result (Response (Net C X S))
  outcome_of (answered response) = ok (adapter response)
  outcome_of timed_out = err (network_error "Request timeout error")
  outcome_of (client_error class) = err (network_error (class <> " occurred"))
  outcome_of (failed e) = err e

  abbrev pub fetch : ClientSession C → Request → Exec (Net C X S) (Response (Net C X S))
  fetch session request n = (
    outcome_of (aiohttp.request session request n.inner).0,
    record n { inner = (aiohttp.request session request n.inner).1 },
  )

  unfoldable pub make_request : Request → Exec (Net C X S) (Response (Net C X S))
  unfolding resolve_url outcome_of
  make_request request = do
    session ← create_session
    url ← resolve_url request.url_or_endpoint
    session_or_raise (λ s. fetch s (record { method = request.method; url_or_endpoint = url }))
        session

  -- The chunks that the caller gets when it reads them all
  unfoldable pub stream_content : String → ℕ → Bool → Exec (Net C X S) (List String)
  unfolding resolve_url
  stream_content url_or_endpoint chunk_size raise_for_status = do
    session ← create_session
    url ← resolve_url url_or_endpoint
    session_or_raise (λ s. on_inner (aiohttp.get s url chunk_size raise_for_status)) session

  abbrev pub connected_or_raise :
      {A : Type 0}
      → (ClientSession C → Exec (Net C X S) A)
      → Option (ClientSession C)
      → Exec (Net C X S) A
  connected_or_raise f none =
      raise (type_error "Cannot update headers while session is not connected")
  connected_or_raise f (some session) =
      if session.closed
      then raise (type_error "Cannot update headers while session disconnected")
      else f session

  unfoldable pub update_cookies : List (String × String) → Exec (Net C X S) (Unit {0})
  update_cookies values n =
      connected_or_raise (λ s. on_inner (aiohttp.update_cookies s values)) n.provider.session n

  unfoldable pub update_headers : List (String × String) → Exec (Net C X S) (Unit {0})
  update_headers values n =
      connected_or_raise (λ s. on_inner (aiohttp.update_headers s values)) n.provider.session n

  -- `__aenter__`, and `__aexit__` of base.py
  abbrev pub enter : Exec (Net C X S) (Unit {0})
  enter n = (ok tt, record n { provider = Aiohttp.create_session n.provider })

  abbrev pub exit : Exec (Net C X S) (Unit {0})
  exit n = (ok tt, record n { provider = Aiohttp.close_session n.provider })
