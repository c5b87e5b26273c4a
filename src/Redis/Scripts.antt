-- ===== src/Redis/Scripts.antt =====
-- src/core/redis/scripts: the Lua scripts of the lock, run atomically at one reading of the server's
-- clock. An error of a command ends the script and undoes nothing.
pub mod Locking
pub mod Spec
pub mod Lease
pub mod Fencing
use nest_fastify_boilerplate.Prelude.{
  ℕ, String, Bool, true, false, Option, none, some, ◌==◌, if◌then◌else◌,
}
use nest_fastify_boilerplate.Effects.{Outcome, Exec, returned, thrown, error}
use nest_fastify_boilerplate.Redis.Port.{Value, Redis, text, counter}

-- `redis.call("get", KEYS[1]) == ARGV[1]`
abbrev pub is_token : String → Option Value → Bool
is_token token none = false
is_token token (some (text t)) = t == token
is_token token (some (counter n)) = false

-- The integer replies 1 and 0.
abbrev pub reply : Bool → ℕ
reply true = 1
reply false = 0

module _ (R : Redis) where
  open R use {State, get, set_nx_px, pexpire, del, incr}

  abbrev pub fence_reply : Option ℕ × State → Outcome (Option ℕ) × State
  fence_reply (none, s) = (thrown (error "ERR value is not an integer or out of range"), s)
  fence_reply (some n, s) = (returned (some n), s)

  abbrev after_set : ℕ → String → Bool → Option Bool × State → Outcome (Option ℕ) × State
  after_set now fence_key fencing (none, s) =
      (thrown (error "ERR invalid expire time in 'set' command"), s)
  after_set now fence_key fencing (some true, s) =
      if fencing then fence_reply (incr now fence_key s) else (returned (some 1), s)
  after_set now fence_key fencing (some false, s) = (returned none, s)

  -- `false` comes back to the client as null.
  unfoldable pub acquire_lock : ℕ → String → String → String → ℕ → Bool → Exec State (Option ℕ)
  acquire_lock now lock_key fence_key token ttl fencing s =
      after_set now fence_key fencing (set_nx_px now lock_key token ttl s)

  unfoldable pub extend_lock : ℕ → String → String → ℕ → Exec State ℕ
  extend_lock now lock_key token ttl s =
      if is_token token (get now lock_key s)
      then (let (done, s') = pexpire now lock_key ttl s in (returned (reply done), s'))
      else (returned 0, s)

  unfoldable pub release_lock : ℕ → String → String → Exec State ℕ
  release_lock now lock_key token s =
      if is_token token (get now lock_key s)
      then (let (done, s') = del now lock_key s in (returned (reply done), s'))
      else (returned 0, s)
