-- ===== src/Redis/RateLimit.antt =====
-- The sliding window of src/core/redis/scripts/rate-limit.lua.ts and
-- src/core/redis/services/rate-limit.service.ts.
pub mod Commands
pub mod Window
pub mod Limit
pub mod Memory
pub mod Tests
use nest_fastify_boilerplate.Prelude.{
  ℕ, ◌+◌, ◌-◌, ◌*◌, String, Bool, true, false, Option, none, some, eqb, ltb, leb, ◌<>◌,
  if◌then◌else◌, show,
}
use nest_fastify_boilerplate.Redis.RateLimit.Commands.{Member, SortedSets}

-- `{ allowed, remaining, oldest }`
pub record Reply : Type 0 where
  pub allowed : ℕ
  pub remaining : ℕ
  pub oldest : ℕ

pub record RateLimitResult : Type 0 where
  pub allowed : Bool
  pub remaining : ℕ
  pub reset_at : ℕ

-- `now - window`, below 0 if the window is the longer
abbrev pub start_of : ℕ → ℕ → Option ℕ
start_of now window = if leb window now then some (now - window) else none

abbrev oldest_of : ℕ → Option Member → ℕ
oldest_of now none = now
oldest_of now (some (member, score)) = score

module _ (R : SortedSets) where
  open R use {State, zremrangebyscore, zcard, zadd, pexpire, zrange_first}

  -- The end of the script, with the count that it has come to.
  abbrev answer : ℕ → String → ℕ → ℕ → ℕ → ℕ → State → Reply × State
  answer server key now limit allowed count s = (
    record {
      allowed = allowed;
      remaining = limit - count;
      oldest = oldest_of now (zrange_first server key s);
    },
    s,
  )

  -- `server` is the server's clock, `now` the argument of the caller.
  unfoldable pub rate_limit : ℕ → String → ℕ → ℕ → ℕ → String → State → Reply × State
  rate_limit server key now window limit member s =
      let pruned = zremrangebyscore server key (start_of now window) s in
      let count = zcard server key pruned in
      if ltb count limit
      then answer server key now limit 1 (count + 1)
          (pexpire server key window (zadd server key now member pruned))
      else answer server key now limit 0 count pruned

  -- `hit`, with the server's clock and the caller's, and a random UUID.
  unfoldable pub hit : ℕ → ℕ → String → String → ℕ → ℕ → State → RateLimitResult × State
  unfolding show
  hit server now uuid key limit window_seconds s =
      let (r, s') =
        rate_limit server ("rl:" <> key) now (window_seconds * 1000) limit (show now <> ":" <> uuid)
          s in
      (
        record {
          allowed = eqb r.allowed 1;
          remaining = r.remaining;
          reset_at = r.oldest + window_seconds * 1000;
        },
        s',
      )
