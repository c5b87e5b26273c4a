-- ===== src/Redis/Port.antt =====
-- What src/core/redis relies on of the Redis server and its client (ioredis): the commands that the
-- Lua scripts call, as a parameter with the documented behaviour of each.
use nest_fastify_boilerplate.Prelude.{
  ℕ, suc, ◌+◌, ◌*◌, ◌<◌, String, ◌≡◌, Bool, ◌&&◌, Option, none, some, ltb, is_none, is_some, ◌==◌,
  if◌then◌else◌,
}

-- A string value; one that reads as an integer is a `counter`.
pub data Value : Type 0 where
  text : String → Value
  counter : ℕ → Value

pub record Entry : Type 0 where
  pub value : Value
  pub deadline : Option ℕ

-- What a command sees of an entry at a time: a key is gone once its deadline is reached.
abbrev pub visible : ℕ → Option Entry → Option Value
visible now none = none
visible now (some e) = elim e.deadline [
  | none ↦ some e.value
  | some d ↦ if ltb now d then some e.value else none
]

abbrev pub retime : ℕ → Option Entry → Option Entry
retime d none = none
retime d (some e) = some (record e { deadline = some d })

-- INCR of an absent key counts from 0; of a value that is no integer it is an error.
abbrev pub incremented : Option Value → Option ℕ
incremented none = some 1
incremented (some (counter n)) = some (suc n)
incremented (some (text t)) = none

-- INCR keeps the deadline of a live key.
abbrev pub deadline_of : ℕ → Option Entry → Option ℕ
deadline_of now none = none
deadline_of now (some e) = if is_none (visible now (some e)) then none else e.deadline

abbrev pub counted : ℕ → Option Entry → Option Entry
counted now e = elim (incremented (visible now e)) [
  | none ↦ e
  | some n ↦ some (record { value = counter n; deadline = deadline_of now e })
]

-- A command takes the server's clock, in milliseconds, at which it runs.
pub record Redis : Type 1 where
  pub State : Type 0
  pub entry : State → String → Option Entry
  pub get : ℕ → String → State → Option Value
  -- `none` is an error, which a time to live of 0 is
  pub set_nx_px : ℕ → String → String → ℕ → State → Option Bool × State
  pub pexpire : ℕ → String → ℕ → State → Bool × State
  pub del : ℕ → String → State → Bool × State
  pub incr : ℕ → String → State → Option ℕ × State
  -- a text as the server keeps it, and as it gives it back
  pub stored : String → Value
  pub shown : Value → String
  pub set_ex : ℕ → String → String → ℕ → State → State
  pub shown-stored : (v : String) → shown (stored v) ≡ v
  -- the time to live is in seconds, and positive
  pub set_ex-entry :
      (now : ℕ) (k v : String) (seconds : ℕ) (s : State) (j : String)
      → 0 < seconds
      → entry (set_ex now k v seconds s) j ≡ (
          if k == j
          then some (record { value = stored v; deadline = some (now + seconds * 1000) })
          else entry s j)
  pub get_lem : (now : ℕ) (k : String) (s : State) → get now k s ≡ visible now (entry s k)
  pub set_nx_px-result :
      (now : ℕ) (k v : String) (ttl : ℕ) (s : State)
      → (set_nx_px now k v ttl s).0
        ≡ (if ltb 0 ttl then some (is_none (visible now (entry s k))) else none)
  pub set_nx_px-entry :
      (now : ℕ) (k v : String) (ttl : ℕ) (s : State) (j : String)
      → entry (set_nx_px now k v ttl s).1 j ≡ (
          if (k == j) && is_none (visible now (entry s k)) && ltb 0 ttl
          then some (record { value = text v; deadline = some (now + ttl) })
          else entry s j)
  pub pexpire-result :
      (now : ℕ) (k : String) (ttl : ℕ) (s : State)
      → (pexpire now k ttl s).0 ≡ is_some (visible now (entry s k))
  pub pexpire-entry :
      (now : ℕ) (k : String) (ttl : ℕ) (s : State) (j : String)
      → entry (pexpire now k ttl s).1 j ≡ (
          if (k == j) && is_some (visible now (entry s k))
          then retime (now + ttl) (entry s j)
          else entry s j)
  pub del-result :
      (now : ℕ) (k : String) (s : State) → (del now k s).0 ≡ is_some (visible now (entry s k))
  pub del-entry :
      (now : ℕ) (k : String) (s : State) (j : String)
      → entry (del now k s).1 j ≡ (if k == j then none else entry s j)
  pub incr-result :
      (now : ℕ) (k : String) (s : State) → (incr now k s).0 ≡ incremented (visible now (entry s k))
  pub incr-entry :
      (now : ℕ) (k : String) (s : State) (j : String)
      → entry (incr now k s).1 j ≡ (if k == j then counted now (entry s j) else entry s j)
