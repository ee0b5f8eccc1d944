-- ===== src/Settings.antt =====
-- src/settings/core.py: the settings with their defaults, the database's URL and `load_settings`.
-- What pydantic reads from the environment and .env is a parameter: a function from the defaults.
pub mod Laws
use fastapi_claude_template.Prelude.{
  ℕ, zero, suc, ◌+◌, String, Char, Bool, true, false, not, Option, none, some, List, [], ◌∷◌,
  is_some, decimal, ◌<>◌, if◌then◌else◌,
}
use Prim.Native.String
use text.Mathlib.Text.{find?}
use fastapi_claude_template.Errors.{external, value_error}
use fastapi_claude_template.Exec.{Result, ok, err}
use fastapi_claude_template.Formatter.{Piece, literal, field, parse, is_number}
use fastapi_claude_template.Jwt.{CipherSettings}

pub record DatabaseSettings : Type 0 where
  pub uri : String
  pub name : String
  pub host : Option String
  pub port : Option ℕ
  pub user : Option String
  pub password : Option String
  pub connection_pool_size : ℕ
  pub connection_max_overflow : ℕ
  pub connection_pool_pre_ping : Bool

abbrev pub default_database : DatabaseSettings
default_database = record {
  uri = "";
  name = "";
  host = none;
  port = none;
  user = none;
  password = none;
  connection_pool_size = 10;
  connection_max_overflow = 90;
  connection_pool_pre_ping = true;
}

abbrev pub or_none_text : Option String → String
or_none_text none = "None"
or_none_text (some s) = s

abbrev pub port_text : Option ℕ → String
port_text none = "None"
port_text (some n) = decimal n

-- `args[n]` of `str.format`
abbrev pub argument : List String → ℕ → Result String
argument [] n = err (external "IndexError")
argument (a ∷ args) zero = ok a
argument (a ∷ args) (suc n) = argument args n

abbrev pub joined : Result String → Result String → Result String
joined (ok s) (ok t) = ok (s <> t)
joined (ok s) (err e) = err e
joined (err e) rest = err e

-- What `str.format` makes of a field that is not `{}` is `other_field`.
module _ (other_field : Piece → Result String) where
  -- `n` counts the `{}` so far.
  unfoldable pub format_pieces : List String → ℕ → List Piece → Result String
  format_pieces args n [] = ok ""
  format_pieces args n (literal t ∷ ps) = joined (ok t) (format_pieces args n ps)
  format_pieces args n (field String.[] none String.[] ∷ ps) =
      joined (argument args n) (format_pieces args (suc n) ps)
  format_pieces args n (field name conversion spec ∷ ps) =
      joined (other_field (field name conversion spec)) (format_pieces args n ps)

  abbrev pub format_parsed : List String → Option (List Piece) → Result String
  format_parsed args none = err (value_error "format")
  format_parsed args (some ps) = format_pieces args 0 ps

  -- `text.format(*args)`
  unfoldable pub str_format : String → List String → Result String
  unfolding parse format_pieces
  str_format text args = format_parsed args (parse text)

  -- `DatabaseSettings.url`
  unfoldable pub url : DatabaseSettings → Result String
  unfolding str_format
  url self =
      if is_some (find? self.uri "sqlite")
      then str_format self.uri (self.name ∷ [])
      else str_format self.uri (
          or_none_text self.user
          ∷ or_none_text self.password
          ∷ or_none_text self.host
          ∷ port_text self.port
          ∷ self.name
          ∷ [])

pub record AppSettings : Type 0 where
  pub root_path : String
  pub title : String
  pub debug : Bool
  pub version : String
  pub production : Bool
  pub swagger : Bool
  pub log_level : String

abbrev pub default_app : AppSettings
default_app = record {
  root_path = "/api";
  title = "Example";
  debug = true;
  version = "0.0.1";
  production = true;
  swagger = true;
  log_level = "DEBUG";
}

pub record RedisSettings : Type 0 where
  pub host : String
  pub port : ℕ
  pub password : Option String

abbrev pub default_redis : RedisSettings
default_redis = record { host = "127.0.0.1"; port = 6379; password = none }

-- `none` is the number of workers "auto".
pub record ServerSettings : Type 0 where
  pub methods : List String
  pub headers : List String
  pub origins : List String
  pub type_ : String
  pub host : String
  pub port : ℕ
  pub workers : Option ℕ
  pub threads : ℕ

abbrev pub default_server : ServerSettings
default_server = record {
  methods = "*" ∷ [];
  headers = "*" ∷ [];
  origins = "*" ∷ [];
  type_ = "granian";
  host = "127.0.0.1";
  port = 8080;
  workers = none;
  threads = 1;
}

abbrev pub default_ciphers : CipherSettings
default_ciphers = record {
  algorithm = "";
  secret_key = "";
  public_key = "";
  access_token_expire_seconds = 0;
  refresh_token_expire_seconds = 0;
}

pub record NatsSettings : Type 0 where
  pub servers : List String
  pub user : String
  pub password : String

abbrev pub default_nats : NatsSettings
default_nats = record { servers = []; user = ""; password = "" }

pub record Settings : Type 0 where
  pub app : AppSettings
  pub db : DatabaseSettings
  pub redis : RedisSettings
  pub server : ServerSettings
  pub ciphers : CipherSettings
  pub nats : NatsSettings

-- Pydantic's reading of each class: what the environment puts in place of its defaults
pub record Environment : Type 0 where
  pub app : AppSettings → AppSettings
  pub db : DatabaseSettings → DatabaseSettings
  pub redis : RedisSettings → RedisSettings
  pub server : ServerSettings → ServerSettings
  pub ciphers : CipherSettings → CipherSettings
  pub nats : NatsSettings → NatsSettings

-- `given or Class()`; a settings object is true
abbrev pub given_or : {A : Type 0} → Option A → A → A
given_or none a = a
given_or (some a) b = a

unfoldable pub load_settings :
    Environment
    → Option DatabaseSettings
    → Option RedisSettings
    → Option ServerSettings
    → Option CipherSettings
    → Option AppSettings
    → Option NatsSettings
    → Settings
load_settings environment db redis server ciphers app nats = record {
  db = given_or db (environment.db default_database);
  redis = given_or redis (environment.redis default_redis);
  server = given_or server (environment.server default_server);
  ciphers = given_or ciphers (environment.ciphers default_ciphers);
  app = given_or app (environment.app default_app);
  nats = given_or nats (environment.nats default_nats);
}
