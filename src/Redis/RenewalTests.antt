-- ===== src/Redis/RenewalTests.antt =====
-- The watchdog and the decorator of src/core/redis on concrete runs.
use nest_fastify_boilerplate.Prelude.{
  ℕ, ◌+◌, ◌∷◌, arith, String, ◌≡◌, refl, true, false, none, some, List, [], show, ◌<>◌,
  if◌then◌else◌,
}
use nest_fastify_boilerplate.Effects.{Exec, returned, pure}
use nest_fastify_boilerplate.Redis.Memory.{memory, no_keys}
use nest_fastify_boilerplate.Redis.Lock.Arguments.{whole, LockOptions, validate_lock_args}
use nest_fastify_boilerplate.Redis.Lock.{Turn, World, answered, Lock, ended, acquire, try_once}
use nest_fastify_boilerplate.Redis.Scripts.{acquire_lock}
use nest_fastify_boilerplate.Redis.Renewal.{Round}
use nest_fastify_boilerplate.Redis.Renewal.Keeping.{IsPunctual}
use nest_fastify_boilerplate.Redis.Renewal.Running.{
  Work, renewed_state, with_renewed_lock, IsRunUnderLock, with_renewed_lock_acquired,
}
use nest_fastify_boilerplate.Redis.Watchdog.{
  Watchdog, Run, start, fire, answer, settle, renewed, here, next, fires, answers, settles,
  IsSingleFlight, Run-IsSingleFlight,
}
use nest_fastify_boilerplate.Redis.Decorator.{
  WithLockMetadata, with_lock_wrapper, with_lock_wrapper_throws, is_thrown,
}

-- One renewal, and one that finds the lock lost.
abbrev renewed_once : Watchdog
renewed_once = settle (answer renewed (fire start))

first_renewal : Run start renewed_once
unfolding fire answer settle
first_renewal = next (next (next here (fires refl)) (answers renewed refl)) (settles refl)

Run-IsSingleFlight_example : IsSingleFlight renewed_once
Run-IsSingleFlight_example = Run-IsSingleFlight first_renewal

abbrev token_of : ℕ → String
token_of n = "token" <> show n

abbrev empty_world : World memory.State
empty_world = record { redis = no_keys; now = 1000; drawn = 0; calls = 0; link = λ n. answered }

abbrev no_turns : List (Turn memory.State)
no_turns = []

abbrev by_order : WithLockMetadata String
by_order = record {
  key = λ order. "order:" <> order;
  ttl_ms = whole 5000;
  retry = none;
  auto_renew = false;
  on_timeout = none;
}

abbrev pay : String → Exec (World memory.State) ℕ
pay order w = (returned 1, record w { now = w.now + 5 })

with_lock_wrapper_throws_example :
    (is_thrown (with_lock_wrapper memory token_of no_turns by_order (some 1) pay "7" empty_world).0
      ≡ true)
    × ((with_lock_wrapper memory token_of no_turns by_order (some 1) pay "7" empty_world).1
        ≡ empty_world)
with_lock_wrapper_throws_example =
    with_lock_wrapper_throws memory token_of no_turns by_order (some 1) pay "7" empty_world

abbrev job : Lock
job = record { key = "job"; token = "t1"; fencing_token = none }

abbrev renewing : LockOptions
renewing = record { retry = none; auto_renew = true; fencing = false; on_timeout = none }

-- "job" is asked for, for three seconds.
abbrev granted : World memory.State
granted = (acquire memory (λ n. "t1") no_turns "job" (whole 3000) (some renewing) empty_world).1

is_granted :
    (acquire memory (λ n. "t1") no_turns "job" (whole 3000) (some renewing) empty_world).0
    ≡ returned (ended (some job))
unfolding acquire validate_lock_args try_once acquire_lock
is_granted = refl

-- The timer is set for 1000 ms, and fires 2 ms late.
abbrev third : Round memory.State
third = record { late = 2; before = λ s. s; back = 3; after = λ s. s }

third-IsPunctual : IsPunctual memory job 3000 third
third-IsPunctual = record {
  in_time = omega arith;
  back_in_time = omega arith;
  kept_before = λ s. refl;
  kept_after = λ s. refl;
}

-- Work of two renewals, that answers 7 as long as its signal is not aborted.
abbrev long_work : Lock → Work memory.State ℕ
long_work lock = record {
  rounds = third ∷ third ∷ [];
  finish = λ aborted. pure (if aborted then 0 else 7);
}

with_renewed_lock_acquired_example :
    IsRunUnderLock memory long_work job "job" 3000 granted
      (renewed_state memory long_work true job 3000 granted)
      (with_renewed_lock memory long_work
        (λ n. "t1")
        no_turns
        "job"
        (whole 3000)
        (some renewing)
        empty_world)
unfolding acquire validate_lock_args try_once acquire_lock
with_renewed_lock_acquired_example =
    with_renewed_lock_acquired memory (λ n. "t1") no_turns long_work "job" (whole 3000)
      (some renewing) empty_world job refl is_granted (third-IsPunctual, (third-IsPunctual, tt))
      (λ i h. refl)
