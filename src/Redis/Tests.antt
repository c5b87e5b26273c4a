-- ===== src/Redis/Tests.antt =====
-- The lock of src/core/redis on concrete inputs, on the Redis of Redis/Memory.antt.
use nest_fastify_boilerplate.Prelude.{
  ℕ, ◌+◌, String, ◌≡◌, ◌≢◌, refl, true, false, none, some, List, [], ◌∷◌, ◌<>◌, arith, show, ◌≤◌,
  max,
}
use nest_fastify_boilerplate.Effects.{Exec, returned, thrown, error}
use nest_fastify_boilerplate.Redis.Memory.{memory, no_keys}
use nest_fastify_boilerplate.Redis.Scripts.{reply, acquire_lock, extend_lock, release_lock}
use nest_fastify_boilerplate.Redis.Scripts.Spec
use nest_fastify_boilerplate.Redis.Scripts.Lease.{lease_of, is_granted, scripts_refine}
use nest_fastify_boilerplate.Redis.Scripts.Fencing.{History, Action, IsFenced, run, run-IsFenced}
use nest_fastify_boilerplate.Redis.Lock.Keys.{lock_key, fence_key, fence_key-ne-lock_key}
use nest_fastify_boilerplate.Redis.Lock.Arguments.{
  whole, LockOptions, RetryOptions, return_undefined, validate_lock_args,
}
use nest_fastify_boilerplate.Redis.Lock.{
  Turn, World, answered, Lock, ended, running, acquire, with_lock, retry_loop, try_once,
}
use nest_fastify_boilerplate.Redis.Lock.Retry.{
  retry_loop_ends, retry_loop-deadline, acquire_settles,
}
use nest_fastify_boilerplate.Redis.Lock.Holding.{
  Holds, IsEndedBy, with_lock_acquired, fence_collision,
}

abbrev Server : Type 0
Server = memory.State

abbrev token_of : ℕ → String
token_of n = "token" <> show n

abbrev fresh_world : World Server
fresh_world = record { redis = no_keys; now = 1000; drawn = 0; calls = 0; link = λ n. answered }

-- Another client holds that key until 1200.
abbrev taken : String → Server
taken k = (memory.set_nx_px 1000 k "other" 200 no_keys).1

abbrev busy_world : World Server
busy_world = record {
  redis = taken (lock_key "job");
  now = 1000;
  drawn = 0;
  calls = 0;
  link = λ n. answered;
}

-- A round in which no time is lost and nobody else acts.
abbrev quiet_turn : Turn Server
quiet_turn = record { gap = 0; draw = λ cap. cap; late = 0; others = λ s. s }

abbrev no_turns : List (Turn Server)
no_turns = []

abbrev three_turns : List (Turn Server)
three_turns = quiet_turn ∷ quiet_turn ∷ quiet_turn ∷ []

abbrev two_ms : RetryOptions
two_ms = record { wait_ms = whole 2; min_delay_ms = some (whole 1); max_delay_ms = some (whole 2) }

abbrev patient : LockOptions
patient = record {
  retry = some two_ms;
  auto_renew = false;
  fencing = true;
  on_timeout = some return_undefined;
}

abbrev polite : LockOptions
polite = record {
  retry = none;
  auto_renew = false;
  fencing = false;
  on_timeout = some return_undefined;
}

-- What the locked function does: it takes 5 ms.
abbrev work : Lock → Exec (World Server) ℕ
work lock w = (returned 7, record w { now = w.now + 5 })

scripts_refine_example :
    ((is_granted (acquire_lock memory 1000 (lock_key "a") (fence_key "a") "t" 50 false no_keys).0
        ≡ (Spec.acquire 1000 "t" 50 (lease_of (no_keys (lock_key "a")))).0)
      × (lease_of (
            memory.entry
              (acquire_lock memory 1000 (lock_key "a") (fence_key "a") "t" 50 false no_keys).1
              (lock_key "a"))
          ≡ (Spec.acquire 1000 "t" 50 (lease_of (no_keys (lock_key "a")))).1))
    × (((extend_lock memory 1000 (lock_key "a") "t" 50 no_keys).0
          ≡ returned (reply (Spec.extend 1000 "t" 50 (lease_of (no_keys (lock_key "a")))).0))
        × (lease_of (
              memory.entry (extend_lock memory 1000 (lock_key "a") "t" 50 no_keys).1 (lock_key "a"))
            ≡ (Spec.extend 1000 "t" 50 (lease_of (no_keys (lock_key "a")))).1))
    × (((release_lock memory 1000 (lock_key "a") "t" no_keys).0
          ≡ returned (reply (Spec.release 1000 "t" (lease_of (no_keys (lock_key "a")))).0))
        × (lease_of
              (memory.entry (release_lock memory 1000 (lock_key "a") "t" no_keys).1 (lock_key "a"))
            ≡ (Spec.release 1000 "t" (lease_of (no_keys (lock_key "a")))).1))
scripts_refine_example =
    scripts_refine memory 1000 (lock_key "a") (fence_key "a") "t" 50 no_keys tt
      (fence_key-ne-lock_key "a")

abbrev job_history : History memory (lock_key "job") (fence_key "job")
job_history = record { redis = no_keys; now = 1000; owners = []; fences = [] }

-- One client is granted the lock, a second one after the first one's lease has run out.
abbrev two_clients : List (Action memory (lock_key "job") (fence_key "job"))
two_clients =
    Action.acquire "a" 50 true
    ∷ Action.wait 60
    ∷ Action.acquire "b" 50 true
    ∷ Action.release "a"
    ∷ []

run-IsFenced_example :
    IsFenced memory
      (lock_key "job")
      (fence_key "job")
      (run memory (lock_key "job") (fence_key "job") two_clients job_history)
run-IsFenced_example =
    run-IsFenced memory (lock_key "job") (fence_key "job") two_clients job_history
      (fence_key-ne-lock_key "job") (record { counts = refl; owned = tt })

retry_loop_ends_example :
    (retry_loop memory token_of "job" 50 true three_turns 2 1002 1 busy_world).0 ≢ returned running
retry_loop_ends_example =
    retry_loop_ends memory token_of "job" 50 true three_turns 2 1002 1 busy_world (omega arith)

retry_loop-deadline_example :
    (retry_loop memory token_of "job" 50 true three_turns 2 1002 1 busy_world).1.now ≤ max 1000 1002
retry_loop-deadline_example =
    retry_loop-deadline memory token_of "job" 50 true three_turns 2 1002 1 busy_world
      ((refl, refl), ((refl, refl), ((refl, refl), tt)))

acquire_settles_example :
    (acquire memory token_of three_turns "job" (whole 50) (some patient) busy_world).0
    ≢ returned running
acquire_settles_example =
    acquire_settles memory token_of three_turns "job" (whole 50) (some patient) busy_world
      (omega arith)

abbrev granted : Lock
granted = record { key = "job"; token = token_of 0; fencing_token = none }

acquire_free :
    (acquire memory token_of no_turns "job" (whole 50) (some polite) fresh_world).0
    ≡ returned (ended (some granted))
unfolding acquire try_once acquire_lock validate_lock_args
acquire_free = refl

-- The lock's token behind the work that takes 5 ms, where the call of `release` is answered.
with_lock_acquired_example :
    IsEndedBy memory answered "job"
      (token_of 0)
      (returned (ended (some 7)))
      (work granted
        (acquire memory token_of no_turns "job" (whole 50) (some polite) fresh_world).1).1
      (with_lock memory token_of no_turns work "job" (whole 50) (some polite) fresh_world)
unfolding acquire validate_lock_args try_once acquire_lock
with_lock_acquired_example =
    with_lock_acquired memory token_of no_turns work "job" (whole 50) (some polite) fresh_world
      granted acquire_free

abbrev clashing_world : World Server
clashing_world = record {
  redis = taken (lock_key "fence:job");
  now = 1000;
  drawn = 0;
  calls = 0;
  link = λ n. answered;
}

patient_is_valid : validate_lock_args (whole 50) (some patient) ≡ none
unfolding validate_lock_args
patient_is_valid = refl

fence_collision_example :
    ((acquire memory token_of three_turns "job" (whole 50) (some patient) clashing_world).0
      ≡ thrown (error "ERR value is not an integer or out of range"))
    × Holds memory "job"
        (token_of 0)
        50
        (acquire memory token_of three_turns "job" (whole 50) (some patient) clashing_world).1
fence_collision_example =
    fence_collision memory token_of three_turns "job" "other" (whole 50) patient clashing_world
      patient_is_valid refl refl refl refl
