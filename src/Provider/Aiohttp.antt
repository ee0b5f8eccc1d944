-- ===== src/Provider/Aiohttp.antt =====
-- src/infrastructure/http/provider/aiohttp.py: the life of the client session of `AiohttpProvider`.
-- aiohttp's connectors are a parameter `C`, proxies a parameter `X`, and `prepare` is what
-- `_prepare_connector` makes of a proxy with the library for socks. Requests themselves are I/O.
pub mod Laws
pub mod Proxies
pub mod Requests
use fastapi_claude_template.Prelude.{
  ℕ, suc, ◌≡◌, Bool, true, false, not, Option, none, some, List, [], ◌∷◌, if◌then◌else◌,
}

-- aiohttp's `ClientSession`
pub record ClientSession (C : Type 0) : Type 0 where
  pub connector : C
  pub closed : Bool

-- The provider's fields, and how many sessions it has opened and closed
pub record AiohttpProvider (C X : Type 0) : Type 0 where
  pub session : Option (ClientSession C)
  pub connector : C
  pub should_reset_connector : Bool
  pub proxy : Option X
  pub opened : ℕ
  pub ended : ℕ

-- `self._session is not None and not self._session.closed`
unfoldable pub is_open : {C : Type 0} → Option (ClientSession C) → Bool
is_open none = false
is_open (some s) = not s.closed

-- The session itself is closed, which every name of it sees.
abbrev pub closed_session : {C : Type 0} → Option (ClientSession C) → Option (ClientSession C)
closed_session none = none
closed_session (some s) = some (record s { closed = true })

module _ {C X : Type 0} where
  -- `__init__` with the default connector and no proxy
  unfoldable pub new_provider : C → AiohttpProvider C X
  new_provider connector = record {
    session = none;
    connector = connector;
    should_reset_connector = true;
    proxy = none;
    opened = 0;
    ended = 0;
  }

  unfoldable pub close_session : AiohttpProvider C X → AiohttpProvider C X
  unfolding is_open
  close_session p =
      if is_open p.session
      then record p { session = closed_session p.session; ended = suc p.ended }
      else p

  -- `if self._session is None or self._session.closed:`
  unfoldable pub open_session : AiohttpProvider C X → AiohttpProvider C X
  unfolding is_open
  open_session p = if is_open p.session then p else record p {
    session = some (record { connector = p.connector; closed = false });
    should_reset_connector = false;
    opened = suc p.opened;
  }

  -- The session that it returns is that of the provider after it.
  unfoldable pub create_session : AiohttpProvider C X → AiohttpProvider C X
  unfolding close_session open_session
  create_session p = open_session (if p.should_reset_connector then close_session p else p)

  -- `_setup_proxy_connector` and the setter of `proxy`
  unfoldable pub set_proxy : (X → C) → X → AiohttpProvider C X → AiohttpProvider C X
  set_proxy prepare proxy p = record p {
    connector = prepare proxy;
    proxy = some proxy;
    should_reset_connector = true;
  }

-- What a program does with a provider: entering it or requesting creates the session, leaving closes
-- it.
pub data Step (X : Type 0) : Type 0 where
  create close : Step X
  proxy_to : X → Step X

module _ {C X : Type 0} (prepare : X → C) where
  unfoldable pub step : Step X → AiohttpProvider C X → AiohttpProvider C X
  unfolding create_session set_proxy
  step create p = create_session p
  step close p = close_session p
  step (proxy_to x) p = set_proxy prepare x p

  unfoldable pub run : List (Step X) → AiohttpProvider C X → AiohttpProvider C X
  unfolding step
  run [] p = p
  run (s ∷ ss) p = run ss (step s p)
