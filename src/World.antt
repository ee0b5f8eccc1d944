-- ===== src/World.antt =====
-- What lives outside the program: the Redis server and the database server, whose states are
-- parameters `C` and `D`; the clock, read at times that the environment chooses; and the sources of
-- randomness. The clock counts microseconds.
use fastapi_claude_template.Prelude.{ℕ, String, suc}
use fastapi_claude_template.Exec.{ok, Exec}

pub record World (C D : Type 0) : Type 0 where
  pub cache : C
  pub db : D
  -- the time that the n-th reading shows, and how many readings there have been
  pub times : ℕ → ℕ
  pub reads : ℕ
  -- the n-th random text, and how many were drawn
  pub entropy : ℕ → String
  pub draws : ℕ

abbrev pub microseconds : ℕ
microseconds = 1000000

module _ {C D : Type 0} where
  abbrev pub on_cache {ℓ} : {A : Type ℓ} → Exec C A → Exec (World C D) A
  on_cache m w = ((m w.cache).0, record w { cache = (m w.cache).1 })

  abbrev pub on_db {ℓ} : {A : Type ℓ} → Exec D A → Exec (World C D) A
  on_db m w = ((m w.db).0, record w { db = (m w.db).1 })

  -- `datetime.now(UTC)`
  abbrev pub now : Exec (World C D) ℕ
  now w = (ok (w.times w.reads), record w { reads = suc w.reads })

  -- `secrets.token_hex(16)`, a salt, `uuid4().hex`
  abbrev pub random_text : Exec (World C D) String
  random_text w = (ok (w.entropy w.draws), record w { draws = suc w.draws })
