-- ===== src/Redis/Scripts/Spec.antt =====
-- The specification of the lock scripts: a lock is a lease, which its owner's token holds until a
-- deadline. Each operation answers yes or no, and leaves a lease. No lease is granted for no time.
use nest_fastify_boilerplate.Prelude.{
  ℕ, ◌+◌, String, Bool, true, false, Option, none, some, ◌==◌, if◌then◌else◌, ltb, ◌&&◌, ◌||◌, not,
}

pub record Lease : Type 0 where
  pub owner : String
  pub until : ℕ

abbrev pub is_live : ℕ → Option Lease → Bool
is_live now none = false
is_live now (some l) = ltb now l.until

abbrev pub owns : ℕ → String → Option Lease → Bool
owns now token none = false
owns now token (some l) = ltb now l.until && (l.owner == token)

abbrev pub acquire : ℕ → String → ℕ → Option Lease → Bool × Option Lease
acquire now token ttl l =
    if is_live now l || not (ltb 0 ttl)
    then (false, l)
    else (true, some (record { owner = token; until = now + ttl }))

abbrev pub extend : ℕ → String → ℕ → Option Lease → Bool × Option Lease
extend now token ttl l =
    if owns now token l
    then (true, some (record { owner = token; until = now + ttl }))
    else (false, l)

abbrev pub release : ℕ → String → Option Lease → Bool × Option Lease
release now token l = if owns now token l then (true, none) else (false, l)
