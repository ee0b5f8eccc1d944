-- ===== src/Settings/Laws.antt =====
-- The URL of the database.
use text.Mathlib.TextLemmas
use text.Mathlib.Text.{find?}
use fastapi_claude_template.Prelude.{String, ◌≡◌, refl, ap, ◌∙◌, ◌<>◌, is_some, true, false}
use fastapi_claude_template.Exec.{Result, ok}
use fastapi_claude_template.Formatter.{Piece, plain, parse, scan}
use fastapi_claude_template.Formatter.Laws.{is_text, scan-text}
use fastapi_claude_template.Settings.{
  DatabaseSettings, url, str_format, format_pieces, or_none_text, port_text,
}

parse-template :
    (t : String)
    → is_text t ≡ true
    → parse (t <> "{}:{}@{}:{}/{}") ≡ scan (plain t) "{}:{}@{}:{}/{}"
unfolding parse
parse-template t h =
    scan-text t "" "{}:{}@{}:{}/{}" h
    ∙ ap (λ s. scan (plain s) "{}:{}@{}:{}/{}") (TextLemmas.nil-append t)

-- A URI that is a text without braces and then the five placeholders, and has no sqlite in it, gets
-- the user, the password, the host, the port and the name as they stand, with None for what is not
-- set.
pub url_lem :
    (other_field : Piece → Result String) (t : String) (self : DatabaseSettings)
    → self.uri ≡ t <> "{}:{}@{}:{}/{}"
    → is_text t ≡ true
    → is_some (find? self.uri "sqlite") ≡ false
    → url other_field self
      ≡ ok (
          t
          <> or_none_text self.user
          <> ":"
          <> or_none_text self.password
          <> "@"
          <> or_none_text self.host
          <> ":"
          <> port_text self.port
          <> "/"
          <> self.name)
unfolding url str_format format_pieces scan
url_lem other_field t self e h server =
    rw (server, e, parse-template t h, TextLemmas.append-nil self.name) refl
