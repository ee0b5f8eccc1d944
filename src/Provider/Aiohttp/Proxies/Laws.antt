-- ===== src/Provider/Aiohttp/Proxies/Laws.antt =====
-- Which proxies a connector goes through.
use fastapi_claude_template.Prelude.{String, ◌≡◌, refl, none, [], ◌∷◌}
use fastapi_claude_template.Exec.{Result, ok}
use fastapi_claude_template.Provider.Aiohttp.Proxies.{
  Item, text, ProxyInfo, chain, url, tuple, iterable, info_with, retrieve_basic, retrieve_all,
  prepare_connector,
}

-- Two proxies whose URLs can be read are both gone through when they come in a list; as a tuple
-- they count as the first one alone.
pub prepare_connector-two :
    (parse_proxy_url : Item → Result ProxyInfo) (first second : String) (i j : ProxyInfo)
    → parse_proxy_url (text first) ≡ ok i
    → parse_proxy_url (text second) ≡ ok j
    → (prepare_connector parse_proxy_url (iterable (text first ∷ text second ∷ []))
        ≡ ok (chain (info_with none i ∷ info_with none j ∷ [])))
      × (prepare_connector parse_proxy_url (tuple (text first ∷ text second ∷ []))
          ≡ prepare_connector parse_proxy_url (url first))
unfolding prepare_connector retrieve_all retrieve_basic
prepare_connector-two parse_proxy_url first second i j h k = (rw (h, k) refl, refl)
