-- ===== src/Tests/Limits.antt =====
-- The rate limit's theorems at concrete inputs.
use Prim.Native.Char.{Char, code, char}
use fastapi_claude_template.Prelude.{
  zero, ap, ◌∙◌, if◌then◌else◌, ℕ, suc, ◌≤◌, ◌+◌, ◌≡◌, refl, String, true, false, Option, none,
  some, List, [], ◌∷◌, arith, is_empty, nat_beq,
}
use fastapi_claude_template.Exec.{err}
use fastapi_claude_template.Redis.Memory.{
  Memory, memory_redis, empty_memory, lists, strings, memory_redis-IsRedis,
}
use fastapi_claude_template.RateLimit.{
  RateLimit, EntryJson, minute, window, duration_value, limit_at, get_history, read_history,
  entry_at, admit, save_history, prune_history, build_headers, too_many,
}
use fastapi_claude_template.RateLimit.Laws.{
  IsEntryJson, Counter, current, is_admitted, take, is_ok, IsEntry, limit_at-Counter,
}
use fastapi_claude_template.RateLimit.Window.{
  admitted, admitted-le, limit_at-again, limit_at-refused,
}
use fastapi_claude_template.Tests.Env.{engine}

abbrev dot : Char
dot = char 46 tt

abbrev stroke : Char
stroke = char 120 tt

-- A coding of entries: a stroke for each second, and a full stop behind each number
abbrev tally : ℕ → String → String
tally zero tail = String.◌∷◌ dot tail
tally (suc n) tail = String.◌∷◌ stroke (tally n tail)

abbrev tallies : List ℕ → String
tallies [] = ""
tallies (n ∷ ns) = tally n (tallies ns)

abbrev bump : List ℕ → List ℕ
bump [] = []
bump (n ∷ ns) = suc n ∷ ns

abbrev counts : String → List ℕ
counts String.[] = []
counts (String.◌∷◌ c s) = let rest = counts s in if nat_beq (code c) 46 then 0 ∷ rest else bump rest

counts-tally : (n : ℕ) (tail : String) → counts (tally n tail) ≡ n ∷ counts tail
counts-tally zero tail = refl
counts-tally (suc n) tail = ap bump (counts-tally n tail)

counts-tallies : (ns : List ℕ) → counts (tallies ns) ≡ ns
counts-tallies [] = refl
counts-tallies (n ∷ ns) = counts-tally n (tallies ns) ∙ ap (λ r. n ∷ r) (counts-tallies ns)

abbrev entry_of : List ℕ → Option (Option (List ℕ) × Option ℕ)
entry_of [] = none
entry_of (r ∷ h) = some (some h, some r)

abbrev json : EntryJson
json = record { dumps = λ h r. tally r (tallies h); loads = λ s. entry_of (counts s) }

tally-nonempty : (n : ℕ) (tail : String) → is_empty (tally n tail) ≡ false
tally-nonempty zero tail = refl
tally-nonempty (suc n) tail = refl

json-IsEntryJson : IsEntryJson json
json-IsEntryJson = record {
  loads-dumps =
      λ h r. ap entry_of (counts-tally r (tallies h) ∙ ap (λ l. r ∷ l) (counts-tallies h));
  dumps-nonempty = λ h r. tally-nonempty r (tallies h);
}

-- Two requests in a minute
abbrev guard : RateLimit
guard = record {
  duration = minute;
  limit = 2;
  scope = none;
  header_policy = "RateLimit-Policy";
  header_limit = "RateLimit-Limit";
  header_remaining = "RateLimit-Remaining";
  header_reset = "RateLimit-Reset";
}

unfoldable limits : Unit {0}
unfolding engine limit_at get_history read_history entry_at admit save_history prune_history window
    duration_value build_headers too_many current is_admitted take admitted
limits = tt

-- The store after a request at second 5, and after another at second 9
abbrev one : Memory
one = (limit_at memory_redis json guard "ip" 5 empty_memory).1

abbrev two : Memory
two = (limit_at memory_redis json guard "ip" 9 one).1

abbrev after_one : Counter
after_one = record { taken = 1; ends = 65 }

abbrev after_two : Counter
after_two = record { taken = 2; ends = 65 }

limit_at-Counter_example :
    (is_ok (limit_at memory_redis json guard "ip" 9 one).0 ≡ true)
    × IsEntry json json-IsEntryJson 60 (strings two "ip") (some after_two)
    × (lists two "ip" ≡ [])
unfolding limits
limit_at-Counter_example =
    limit_at-Counter json json-IsEntryJson memory_redis memory_redis-IsRedis guard "ip" 9
      (some after_one) one refl (5 ∷ [], refl, refl, (omega arith, tt)) (omega arith)

admitted-le_example : admitted memory_redis json guard "ip" (9 ∷ 9 ∷ 12 ∷ []) one + 1 ≤ 2
unfolding limits
admitted-le_example =
    admitted-le json json-IsEntryJson memory_redis memory_redis-IsRedis guard "ip" (9 ∷ 9 ∷ 12 ∷ [])
      after_one one refl (5 ∷ [], refl, refl, (omega arith, tt))
      ((omega arith, omega arith), ((omega arith, omega arith), ((omega arith, omega arith), tt)))
      (omega arith)

limit_at-refused_example :
    (wait : ℕ) × (1 ≤ wait)
    × (wait ≤ 60)
    × (65 ≡ 12 + wait)
    × (limit_at memory_redis json guard "ip" 12 two ≡ (err (too_many guard wait), two))
unfolding limits
limit_at-refused_example =
    limit_at-refused json json-IsEntryJson memory_redis memory_redis-IsRedis guard "ip" 12
      (some after_two) two refl (9 ∷ 5 ∷ [], refl, refl, (omega arith, (omega arith, tt)))
      (omega arith) refl

limit_at-again_example :
    (wait : ℕ) × (limit_at memory_redis json guard "ip" 12 two ≡ (err (too_many guard wait), two))
    × (is_ok (limit_at memory_redis json guard "ip" (12 + wait) two).0 ≡ true)
unfolding limits
limit_at-again_example =
    limit_at-again json json-IsEntryJson memory_redis memory_redis-IsRedis guard "ip" 12
      (some after_two) two (omega arith) refl
      (9 ∷ 5 ∷ [], refl, refl, (omega arith, (omega arith, tt))) (omega arith) refl
