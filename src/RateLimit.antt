-- ===== src/RateLimit.antt =====
-- src/presentation/http/common/guards/rate_limit.py: the guard `RateLimit`. Times are whole seconds.
-- Redis stands under `store`, and orjson's coding of an entry is a parameter.
pub mod Laws
pub mod Window
use Prim.Native.String
use Prim.Native.Char.{Char, code}
use fastapi_claude_template.Prelude.{
  ℕ, ◌+◌, ◌-◌, ◌*◌, ◌/◌, String, Bool, true, false, ◌&&◌, ◌||◌, Option, none, some, List, [], ◌∷◌,
  ◌++◌, length, keep, is_empty, leb, ltb, nat_beq, ◌<>◌, decimal, if◌then◌else◌,
}
use fastapi_claude_template.Errors.{Failure, app, too_many_requests, external}
use fastapi_claude_template.Exec.{Exec, pure, raise, ◌>>=◌, ◌>>◌}
use fastapi_claude_template.Redis.{Redis}
use fastapi_claude_template.Cache
use fastapi_claude_template.World
use fastapi_claude_template.World.{World, microseconds, on_cache}

pub data DurationUnit : Type 0 where
  second minute hour day : DurationUnit

-- `DURATION_VALUES`, in seconds
unfoldable pub duration_value : DurationUnit → ℕ
duration_value second = 1
duration_value minute = 60
duration_value hour = 3600
duration_value day = 86400

-- The guard's fields; a limit below zero, which the source does not exclude, acts as zero does.
pub record RateLimit : Type 0 where
  pub duration : DurationUnit
  pub limit : ℕ
  pub scope : Option String
  pub header_policy : String
  pub header_limit : String
  pub header_remaining : String
  pub header_reset : String

-- What the guard reads of starlette's request: a header by its name, and the peer's host
pub record HttpRequest : Type 0 where
  pub method : String
  pub path : String
  pub header : String → Option String
  pub client : Option String

-- orjson: `none` is a text that is no JSON object; inside, `none` is a missing member.
pub record EntryJson : Type 0 where
  pub dumps : List ℕ → ℕ → String
  pub loads : String → Option (Option (List ℕ) × Option ℕ)

-- `s.split(",")[0]`
unfoldable pub first_part : String → String
first_part String.[] = ""
first_part (String.◌∷◌ c s) =
    let rest = first_part s in if nat_beq (code c) b',' then "" else String.◌∷◌ c rest

-- The white space of `str.strip` among the characters of a header, which are below 256
abbrev is_space : Char → Bool
is_space c =
    (leb 9 (code c) && leb (code c) 13)
    || (leb 28 (code c) && leb (code c) 32)
    || nat_beq (code c) 133
    || nat_beq (code c) 160

abbrev strip_left : String → String
strip_left String.[] = ""
strip_left (String.◌∷◌ c s) = let rest = strip_left s in if is_space c then rest else String.◌∷◌ c s

abbrev strip_right : String → String
strip_right String.[] = ""
strip_right (String.◌∷◌ c s) =
    let rest = strip_right s in if is_empty rest && is_space c then "" else String.◌∷◌ c rest

-- A header that is missing or empty is false.
abbrev or_else : Option String → (String → String) → String → String
or_else none f other = other
or_else (some s) f other = if is_empty s then other else f s

abbrev client_host : Option String → String
client_host none = "anonymous"
client_host (some host) = host

unfoldable pub get_client_ip : HttpRequest → String
unfolding first_part
get_client_ip request =
    or_else (request.header "X-Forwarded-For") (λ s. strip_left (strip_right (first_part s)))
      (or_else (request.header "X-Real-IP") (λ s. s) (client_host request.client))

module _ (self : RateLimit) where
  unfoldable pub window : ℕ
  unfolding duration_value
  window = duration_value self.duration

  unfoldable pub limit_key : HttpRequest → String
  unfolding get_client_ip
  limit_key request =
      "ratelimit::"
      <> get_client_ip request
      <> "::"
      <> or_else self.scope (λ s. s) (request.method <> ":" <> request.path)

  unfoldable pub build_headers : ℕ → Option ℕ → List (String × String)
  unfolding window
  build_headers remaining retry_after =
      (self.header_policy, decimal self.limit <> "; w=" <> decimal window)
      ∷ (self.header_limit, decimal self.limit)
      ∷ (self.header_remaining, decimal remaining)
      ∷ elim retry_after [ none ↦ [] | some n ↦ (self.header_reset, decimal n) ∷ [] ]

  -- `TooManyRequestsError(message=..., headers=...)`
  unfoldable pub too_many : ℕ → Failure
  too_many retry_after = app (record {
    kind = too_many_requests;
    message = "Too Many Requests";
    headers = some (build_headers 0 (some retry_after));
    additional = [];
  })

-- `ts > cutoff` with `cutoff = now - window` below zero too
unfoldable pub prune_history : List ℕ → ℕ → ℕ → List ℕ
prune_history history now window = keep (λ ts. ltb now (ts + window)) history

-- `data.get(name, default)`
abbrev get_or : {A : Type 0} → Option A → A → A
get_or none default = default
get_or (some a) default = a

-- `data.get("history", [])`, `data.get("reset", now + window)` and the test on the latter
unfoldable pub entry_at : Option (List ℕ) → Option ℕ → ℕ → ℕ → List ℕ × ℕ
entry_at history reset now window =
    let reset_ts = get_or reset (now + window) in
    if leb reset_ts now then ([], now + window) else (get_or history [], reset_ts)

module _ {S : Type 0} (json : EntryJson) where
  unfoldable pub read_history : Option String → ℕ → ℕ → Exec S (List ℕ × ℕ)
  unfolding entry_at
  read_history none now window = pure ([], now + window)
  read_history (some raw) now window =
      if is_empty raw then pure ([], now + window) else elim (json.loads raw) [
        | none ↦ raise (external "JSONDecodeError")
        | some (history, reset) ↦ pure (entry_at history reset now window)
      ]

module _ {S : Type 0} (store : Redis S) (json : EntryJson) where
  unfoldable pub get_history : String → ℕ → ℕ → Exec S (List ℕ × ℕ)
  unfolding read_history
  get_history key now window = do raw ← Cache.get store key; read_history json raw now window

  module _ (self : RateLimit) where
    unfoldable pub save_history : String → List ℕ → ℕ → Exec S (Unit {0})
    unfolding window
    save_history key history reset_ts =
        Cache.set store key (json.dumps history reset_ts) (some (window self))

    -- The rest of the call, once the history is there
    unfoldable pub admit : String → ℕ → List ℕ × ℕ → Exec S (List (String × String))
    unfolding build_headers prune_history save_history window too_many
    admit key now (found, reset_ts) =
        let history = prune_history found now (window self) in
        if leb self.limit (length history) then raise (too_many self (reset_ts - now)) else do
          save_history key (now ∷ history) reset_ts
          pure (build_headers self (self.limit - length (now ∷ history)) (some (reset_ts - now)))

    -- The call at a time; what it returns is what it puts in `request.state.rate_limit_headers`.
    unfoldable pub limit_at : String → ℕ → Exec S (List (String × String))
    unfolding get_history admit window
    limit_at key now = do found ← get_history key now (window self); admit key now found

module _ {C D : Type 0} (store : Redis C) (json : EntryJson) (self : RateLimit) where
  -- `__call__`
  unfoldable pub call : HttpRequest → Exec (World C D) (List (String × String))
  unfolding limit_at limit_key
  call request = do
    time ← World.now
    on_cache (limit_at store json self (limit_key self request) (time / microseconds))
