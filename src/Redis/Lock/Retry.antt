-- ===== src/Redis/Lock/Retry.antt =====
-- The retry loop of src/core/redis/services/lock.service.ts ends, and keeps to its deadline.
use nest_fastify_boilerplate.Prelude.{
  ℕ, ◌+◌, ◌-◌, ◌*◌, ◌≤◌, ◌<◌, min, max, String, ◌≡◌, ◌≢◌, Bool, Option, none, some, List, [], ◌∷◌,
  All, length, arith,
}
use nest_fastify_boilerplate.Effects.{returned, ◌>>=◌}
use nest_fastify_boilerplate.Redis.Port.{Redis}
use nest_fastify_boilerplate.Redis.Lock.{
  Turn, World, running, try_once, retry_loop, sleep, delay_of, retry_if_asked, acquire,
  retry_acquire, retry_of, has_fencing,
}
use nest_fastify_boilerplate.Redis.Lock.Arguments.{
  Millis, LockOptions, RetryOptions, milliseconds, min_delay, max_delay,
}

abbrev pub wait_of : Option RetryOptions → ℕ
wait_of none = 0
wait_of (some o) = milliseconds o.wait_ms

module _ (R : Redis) (random_token : ℕ → String) (key : String) (ttl : ℕ) (fencing : Bool) where
  pub now-try_once : (w : World R.State) → (try_once R random_token key ttl fencing w).1.now ≡ w.now
  unfolding try_once
  now-try_once w = ground arith

  abbrev pub IsPunctual : Turn R.State → Type 0
  IsPunctual t = (t.gap ≡ 0) × (t.late ≡ 0)

  -- Each round takes at least a millisecond: a loop that is given more turns than milliseconds are
  -- left until its deadline does not use them up.
  pub retry_loop_ends :
      (turns : List (Turn R.State)) (max_delay_ms deadline base : ℕ) (w : World R.State)
      → deadline - w.now < length turns
      → (retry_loop R random_token key ttl fencing turns max_delay_ms deadline base w).0
        ≢ returned running
  unfolding retry_loop
  retry_loop_ends [] m d b w h = absurd (omega arith)
  retry_loop_ends (t ∷ turns) m d b w h = ground (
    arith,
    now-try_once (sleep R t (delay_of R t m d b w.now) w),
    retry_loop_ends turns m d (min (b * 2) m)
        (try_once R random_token key ttl fencing (sleep R t (delay_of R t m d b w.now) w)).1,
  )

  -- With timers and a clock that are on time, the loop never waits past its deadline, however the
  -- delays are drawn.
  pub retry_loop-deadline :
      (turns : List (Turn R.State)) (max_delay_ms deadline base : ℕ) (w : World R.State)
      → All IsPunctual turns
      → (retry_loop R random_token key ttl fencing turns max_delay_ms deadline base w).1.now
        ≤ max w.now deadline
  unfolding retry_loop
  retry_loop-deadline [] m d b w h = omega arith
  retry_loop-deadline (t ∷ turns) m d b w h = ground (
    arith,
    now-try_once (sleep R t (delay_of R t m d b w.now) w),
    retry_loop-deadline turns m d (min (b * 2) m)
        (try_once R random_token key ttl fencing (sleep R t (delay_of R t m d b w.now) w)).1,
  )

  retry_if_asked_settles :
      (turns : List (Turn R.State)) (retry : Option RetryOptions) (w : World R.State)
      → wait_of retry < length turns
      → ((try_once R random_token key ttl fencing
            >>= retry_if_asked R random_token key ttl fencing turns retry)
          w).0
        ≢ returned running
  unfolding retry_acquire
  retry_if_asked_settles turns none w h = ground arith
  retry_if_asked_settles turns (some o) w h = ground (
    arith,
    retry_loop_ends turns (milliseconds (max_delay o))
        ((try_once R random_token key ttl fencing w).1.now + milliseconds o.wait_ms)
        (milliseconds (min_delay o)) (try_once R random_token key ttl fencing w).1,
  )

-- With more turns than milliseconds to wait, `acquire` settles: it throws, or it answers with a lock
-- or with none.
pub acquire_settles :
    (R : Redis) (random_token : ℕ → String) (turns : List (Turn R.State)) (key : String)
    (ttl : Millis) (opts : Option LockOptions) (w : World R.State)
    → wait_of (retry_of opts) < length turns
    → (acquire R random_token turns key ttl opts w).0 ≢ returned running
unfolding acquire
acquire_settles R random_token turns key ttl opts w h = ground (
  arith,
  retry_if_asked_settles R random_token key (milliseconds ttl) (has_fencing opts) turns
      (retry_of opts) w,
)
