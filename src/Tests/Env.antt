-- ===== src/Tests/Env.antt =====
-- The services of the examples: the store in memory, the spelling library and the rows.
use fastapi_claude_template.Prelude.{
  ◌*◌, refl, true, false, none, some, List, [], ◌∷◌, ◌<>◌, ◌==◌, if◌then◌else◌, arith, lookup,
  insert, erase, merge, dict_keys, join, decimal,
}
use fastapi_claude_template.Redis.Memory.{
  Memory, empty_memory, memory_redis, strings, lists, memory_redis-IsRedis,
}
use fastapi_claude_template.Exec.{Result, ok, err}
use fastapi_claude_template.Cache
use fastapi_claude_template.Jwt
use fastapi_claude_template.Auth.Pairs.{split, pair_of}
use fastapi_claude_template.World.{World, microseconds}
use fastapi_claude_template.Auth
use fastapi_claude_template.Auth.{Deps, TokensExpire}
use fastapi_claude_template.Auth.Refresh.{IsIssuing}
use fastapi_claude_template.Auth.Sessions.{IsUser}
use fastapi_claude_template.Db.{User}
use fastapi_claude_template.UseCases.{Env, RegisterRequest, matched, mismatch}
use fastapi_claude_template.Tests.Codec.{spelling, ciphers, stamps}
use fastapi_claude_template.Tests.Rows.{Rows, rows_session, member}

abbrev pub deps : Deps Memory
deps = record { jwt = spelling; ciphers = ciphers; redis = memory_redis; parse_uuid = λ s. some s }

abbrev pub deps-IsIssuing : IsIssuing deps
deps-IsIssuing = record { access = omega arith; refresh = omega arith }

abbrev pub ann_request : RegisterRequest
ann_request = record { login = "ann"; password = "correct horse"; fingerprint = "fp" }

abbrev pub env : Env Memory Rows
env = record {
  auth = deps;
  session = rows_session;
  hash = λ salt plain. salt <> plain;
  verify = λ hashed plain. if hashed == ("s" <> plain) then matched else mismatch;
  dump_json = λ r. r.login;
  validate_json = λ s. if s == "ann" then some ann_request else none;
}

abbrev pub ann : User
ann = record {
  uuid = "u";
  login = "ann";
  password = "scorrect horse";
  active = true;
  role_uuid = "r1";
  role = some member;
}

abbrev pub world_of : Memory → List User → World Memory Rows
world_of cache users = record {
  cache = cache;
  db = record { stored = users; seen = users; open_ = false };
  times = λ n. n * microseconds;
  reads = 1;
  entropy = λ n. "s";
  draws = 0;
}

-- Nobody has registered; and ann has
abbrev pub fresh : World Memory Rows
fresh = world_of empty_memory []

abbrev pub start : World Memory Rows
start = world_of empty_memory (ann ∷ [])

-- What runs in the examples
unfoldable pub engine : Unit {0}
unfolding memory_redis memory_redis-IsRedis strings lists lookup insert erase merge dict_keys join
    decimal Cache.get Cache.set Cache.delete Cache.set_list Cache.get_list Cache.discard Jwt.create
    Jwt.verify_token Auth.login Auth.evict Auth.issue Auth.verify_token Auth.parse_sub
    Auth.find_verified Auth.verify_refresh Auth.drop_token Auth.invalidate_refresh split pair_of
    stamps
engine = tt

-- What a run returned
abbrev pub value : {A : Type 0} → A → Result A → A
value default (ok a) = a
value default (err e) = default

abbrev pub no_tokens : TokensExpire
no_tokens = record { refresh_expire = 0; tokens = record { access = ""; refresh = "" } }

pub start-IsUser : IsUser deps memory_redis-IsRedis "u" start
unfolding engine
start-IsUser = record { literal = refl; no_string = refl }
