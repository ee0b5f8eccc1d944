-- ===== src/Endpoints/Laws.antt =====
-- The cookie that carries a session from one endpoint to the next.
use fastapi_claude_template.Prelude.{
  String, ◌≡◌, refl, Bool, true, false, some, List, [], ◌∷◌, is_empty, Dict, lookup, insert, erase,
  lookup-insert,
}
use fastapi_claude_template.Exec.{ok}
use fastapi_claude_template.World.{World}
use fastapi_claude_template.Auth
use fastapi_claude_template.Auth.{TokensExpire}
use fastapi_claude_template.UseCases.{Env, RegisterRequest}
use fastapi_claude_template.UseCases.Login
use fastapi_claude_template.UseCases.Refresh.{refresh_token}
use fastapi_claude_template.Endpoints.{
  Cookie, set_cookie, delete_cookie, OkResponse, token_response, login_endpoint, refresh_endpoint,
}

-- What a client holds after a response, by name
abbrev pub stored : List Cookie → Dict String → Dict String
stored [] cookies = cookies
stored (set_cookie name value expires httponly secure samesite ∷ more) cookies =
    stored more (insert name value cookies)
stored (delete_cookie name ∷ more) cookies = stored more (erase name cookies)

module _ {C D : Type 0} (env : Env C D) (production : Bool) where
  -- The response that hands out a pair of tokens
  abbrev pub handed_out : TokensExpire → OkResponse String
  handed_out t = record {
    body = t.tokens.access;
    cookies =
        set_cookie "refresh_token" t.tokens.refresh t.refresh_expire true production "lax" ∷ [];
  }

  refreshed :
      (fingerprint value : String) (cookies : Dict String) (w w' : World C D) (t : TokensExpire)
      → lookup "refresh_token" cookies ≡ some value
      → is_empty value ≡ false
      → Auth.verify_refresh env.auth fingerprint value w ≡ (ok t, w')
      → refresh_endpoint env production fingerprint cookies w ≡ (ok (handed_out t), w')
  unfolding refresh_endpoint refresh_token token_response
  refreshed fingerprint value cookies w w' t sent full e = rw (sent, full, e) refl

  -- A login's response carries the access token, and the refresh token in a cookie that scripts
  -- cannot read and that production sends over TLS only. When the token is not empty, a client with
  -- any other cookies sends it back and the session service accepts this token, the response is of
  -- the same form with the new tokens that the service issued.
  pub refresh_endpoint-login_endpoint :
      (body : RegisterRequest) (fingerprint : String) (cookies : Dict String) (w w' w'' : World C D)
      (t t' : TokensExpire)
      → Login.login env body w ≡ (ok t, w')
      → is_empty t.tokens.refresh ≡ false
      → Auth.verify_refresh env.auth fingerprint t.tokens.refresh w' ≡ (ok t', w'')
      → (r : OkResponse String) × (login_endpoint env production body w ≡ (ok r, w'))
        × (r ≡ handed_out t)
        × (refresh_endpoint env production fingerprint (stored r.cookies cookies) w'
            ≡ (ok (handed_out t'), w''))
  unfolding login_endpoint token_response
  refresh_endpoint-login_endpoint body fingerprint cookies w w' w'' t t' logged full accepted = (
    token_response production t,
    rw logged refl,
    refl,
    refreshed fingerprint t.tokens.refresh (insert "refresh_token" t.tokens.refresh cookies) w' w''
        t' (lookup-insert "refresh_token" "refresh_token" t.tokens.refresh cookies) full accepted,
  )
