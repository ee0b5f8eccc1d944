-- ===== src/Provider/Aiohttp/Proxies.antt =====
-- src/infrastructure/http/provider/aiohttp.py: `_retrieve_basic` and `_prepare_connector`. What
-- aiohttp_socks reads in a proxy's URL is a parameter.
pub mod Laws
use fastapi_claude_template.Prelude.{ℕ, String, Bool, true, Option, none, some, List, [], ◌∷◌}
use fastapi_claude_template.Errors.{Failure, value_error}
use fastapi_claude_template.Exec.{Result, ok, err}

-- What stands in a tuple or a chain: a URL, aiohttp's `BasicAuth`, or a URL with one
pub data Item : Type 0 where
  text : String → Item
  basic_auth : String → String → Item
  pair : String → String → String → Item

-- `_ProxyType`: a URL, a tuple, or another iterable
pub data Proxy : Type 0 where
  url : String → Proxy
  tuple : List Item → Proxy
  iterable : List Item → Proxy

pub record ProxyInfo : Type 0 where
  pub proxy_type : String
  pub host : String
  pub port : ℕ
  pub username : Option String
  pub password : Option String
  pub rdns : Bool

pub data Connector : Type 0 where
  -- the connector of a provider without a proxy
  tcp : Connector
  proxy : ProxyInfo → Connector
  chain : List ProxyInfo → Connector

abbrev pub info_with : Option (String × String) → ProxyInfo → ProxyInfo
info_with none info = record info { rdns = true }
info_with (some (login, password)) info = record info {
  username = some login;
  password = some password;
  rdns = true;
}

abbrev pub on_ok : {A B : Type 0} → (A → B) → Result A → Result B
on_ok f (ok a) = ok (f a)
on_ok f (err e) = err e

module _ (parse_proxy_url : Item → Result ProxyInfo) where
  unfoldable pub retrieve_basic : Item → Result ProxyInfo
  retrieve_basic (text u) = on_ok (info_with none) (parse_proxy_url (text u))
  retrieve_basic (pair u login password) =
      on_ok (info_with (some (login, password))) (parse_proxy_url (text u))
  -- `proxy_url, proxy_auth = basic` on the three fields of a `BasicAuth`
  retrieve_basic (basic_auth login password) = err (value_error "too many values to unpack")

  -- `_retrieve_basic` of a tuple of two
  abbrev pub retrieve_tuple : Item → Item → Result ProxyInfo
  retrieve_tuple u (basic_auth login password) =
      on_ok (info_with (some (login, password))) (parse_proxy_url u)
  retrieve_tuple u _ = on_ok (info_with none) (parse_proxy_url u)

  abbrev pub and_rest : Result ProxyInfo → Result (List ProxyInfo) → Result (List ProxyInfo)
  and_rest (ok info) rest = on_ok (λ infos. info ∷ infos) rest
  and_rest (err e) rest = err e

  unfoldable pub retrieve_all : List Item → Result (List ProxyInfo)
  unfolding retrieve_basic
  retrieve_all [] = ok []
  retrieve_all (i ∷ is) = and_rest (retrieve_basic i) (retrieve_all is)

  unfoldable pub prepare_connector : Proxy → Result Connector
  unfolding retrieve_basic retrieve_all
  prepare_connector (url u) = on_ok proxy (retrieve_basic (text u))
  prepare_connector (tuple (u ∷ auth ∷ [])) = on_ok proxy (retrieve_tuple u auth)
  prepare_connector (tuple is) = on_ok chain (retrieve_all is)
  prepare_connector (iterable is) = on_ok chain (retrieve_all is)
