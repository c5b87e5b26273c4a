-- ===== src/Redis/Lock.antt =====
-- src/core/redis/services/lock.service.ts: acquiring a lock, with retries until a deadline, and running
-- a function under it.
pub mod Arguments
pub mod Keys
pub mod Retry
pub mod Holding
use Prim.Native.String
use nest_fastify_boilerplate.Prelude.{
  ℕ, suc, ◌+◌, ◌-◌, ◌*◌, min, max, String, Bool, true, false, Option, none, some, List, [], ◌∷◌,
  ltb, eqb, if◌then◌else◌,
}
use nest_fastify_boilerplate.Effects.{
  Thrown, Outcome, Exec, AppException, returned, thrown, error, app_exception, pure, throw, finally,
  ◌>>=◌, ◌>>◌,
}
use nest_fastify_boilerplate.Redis.Port.{Redis}
use nest_fastify_boilerplate.Redis.Scripts.{acquire_lock, extend_lock, release_lock}
use nest_fastify_boilerplate.Redis.Lock.Keys.{lock_key, fence_key}
use nest_fastify_boilerplate.Redis.Lock.Arguments.{
  Millis, LockOptions, RetryOptions, TimeoutMode, ArgumentError, throw_error, return_undefined,
  bad_ttl, bad_wait, bad_min_delay, bad_max_delay, ttl_too_short, validate_lock_args, milliseconds,
  min_delay, max_delay,
}

pub record Grant : Type 0 where
  pub token : String
  pub fencing_token : Option ℕ

-- The `Lock` of the port. Its methods are `release` and `extend` below; its signal is the watchdog's.
pub record Lock : Type 0 where
  pub key : String
  pub token : String
  pub fencing_token : Option ℕ

abbrev pub lock_acquisition_failed : AppException
lock_acquisition_failed = record {
  message_key = "redis.LOCK_ACQUISITION_FAILED";
  status = 409;
  args = [];
  code = none;
}

-- The messages of `validateLockArgs`; the first names the value too.
abbrev message_of : ArgumentError → String
message_of bad_ttl = "LockService: ttlMs phải > 0"
message_of bad_wait = "LockService: retry.waitMs phải >= 0"
message_of bad_min_delay = "LockService: retry.minDelayMs phải > 0"
message_of bad_max_delay = "LockService: retry.maxDelayMs phải >= minDelayMs"
message_of ttl_too_short = "LockService: autoRenew yêu cầu ttlMs >= 3000ms để watchdog an toàn"

-- What happens during one round of the retry loop: the time between its two readings of the clock,
-- the number drawn below a cap, how late the timer fires, and what other clients do meanwhile.
pub record Turn (S : Type 0) : Type 0 where
  pub gap : ℕ
  pub draw : ℕ → ℕ
  pub late : ℕ
  pub others : S → S

-- A wait that ends, or that still runs when the turns given to it are used up.
pub data Waited {ℓ} (A : Type ℓ) : Type ℓ where
  ended : A → Waited A
  running : Waited A

-- What becomes of a call of the client: it is answered; it is rejected and the server has not run it;
-- or the server has run it, and the answer is lost.
pub data Link : Type 0 where
  answered : Link
  unreached unanswered : Thrown → Link

-- The server, the clock that `Date.now()` reads, how many random tokens were drawn, and how many calls
-- were made, with what becomes of each call.
pub record World (S : Type 0) : Type 0 where
  pub redis : S
  pub now : ℕ
  pub drawn : ℕ
  pub calls : ℕ
  pub link : ℕ → Link

abbrev pub has_fencing : Option LockOptions → Bool
has_fencing none = false
has_fencing (some o) = o.fencing

abbrev pub retry_of : Option LockOptions → Option RetryOptions
retry_of none = none
retry_of (some o) = o.retry

abbrev pub timeout_of : Option LockOptions → Option TimeoutMode
timeout_of none = none
timeout_of (some o) = o.on_timeout

module _ (R : Redis) where
  abbrev over :
      {A : Type 0} → Link → Outcome A × R.State → World R.State → Outcome A × World R.State
  over answered (r, s) w = (r, record w { redis = s })
  over (unreached e) ran w = (thrown e, w)
  over (unanswered e) (r, s) w = (thrown e, record w { redis = s })

  abbrev pub call_script : {A : Type 0} → (ℕ → Exec R.State A) → Exec (World R.State) A
  call_script script w =
      over (w.link w.calls) (script w.now w.redis) (record w { calls = suc w.calls })

  -- The lock's methods.
  unfoldable pub extend : Lock → ℕ → Exec (World R.State) Bool
  extend lock ms = do
    done ← call_script (λ now. extend_lock R now (lock_key lock.key) lock.token ms)
    pure (eqb done 1)

  unfoldable pub release : Lock → Exec (World R.State) Bool
  release lock = do
    done ← call_script (λ now. release_lock R now (lock_key lock.key) lock.token)
    pure (eqb done 1)

  -- `setTimeout` waits at least its delay, and at least 1 ms.
  abbrev pub sleep : Turn R.State → ℕ → World R.State → World R.State
  sleep t delay w = record w {
    redis = t.others w.redis;
    now = w.now + t.gap + max delay 1 + t.late;
  }

  -- `Math.min(Math.floor(Math.random() * cap), remaining)`. A remaining time below 0 sleeps as 0 does.
  abbrev pub delay_of : Turn R.State → ℕ → ℕ → ℕ → ℕ → ℕ
  delay_of t max_delay_ms deadline base now =
      min (t.draw (min max_delay_ms base)) (deadline - (now + t.gap))

  -- `randomBytes(20).toString('hex')` is the stream `random_token`.
  module _ (random_token : ℕ → String) (key : String) (ttl : ℕ) (fencing : Bool) where
    abbrev pub draw_token : Exec (World R.State) String
    draw_token w = (returned (random_token w.drawn), record w { drawn = w.drawn + 1 })

    abbrev pub grant_of : String → Option ℕ → Option Grant
    grant_of token none = none
    grant_of token (some n) =
        some (record { token = token; fencing_token = if fencing then some n else none })

    unfoldable pub try_once : Exec (World R.State) (Option Grant)
    try_once = do
      token ← draw_token
      res ← call_script (λ now. acquire_lock R now (lock_key key) (fence_key key) token ttl fencing)
      pure (grant_of token res)

    abbrev after_try :
        Exec (World R.State) (Waited (Option Grant))
        → Option Grant
        → Exec (World R.State) (Waited (Option Grant))
    after_try again none = again
    after_try again (some g) = pure (ended (some g))

    -- The loop of `retryAcquire`, a turn for each round.
    unfoldable pub retry_loop :
        List (Turn R.State) → ℕ → ℕ → ℕ → Exec (World R.State) (Waited (Option Grant))
    retry_loop [] max_delay_ms deadline base w = (returned running, w)
    retry_loop (t ∷ turns) max_delay_ms deadline base w = elim (ltb w.now deadline) [
      | true ↦
          (try_once
              >>= after_try (retry_loop turns max_delay_ms deadline (min (base * 2) max_delay_ms)))
            (sleep t (delay_of t max_delay_ms deadline base w.now) w)
      | false ↦ (returned (ended none), w)
    ]

    unfoldable pub retry_acquire :
        List (Turn R.State) → RetryOptions → Exec (World R.State) (Waited (Option Grant))
    retry_acquire turns retry w =
        retry_loop turns (milliseconds (max_delay retry)) (w.now + milliseconds retry.wait_ms)
          (milliseconds (min_delay retry)) w

    abbrev retry_if_asked :
        List (Turn R.State)
        → Option RetryOptions
        → Option Grant
        → Exec (World R.State) (Waited (Option Grant))
    retry_if_asked turns retry (some g) = pure (ended (some g))
    retry_if_asked turns none none = pure (ended none)
    retry_if_asked turns (some retry) none = retry_acquire turns retry

    abbrev build_lock : Waited (Option Grant) → Waited (Option Lock)
    build_lock running = running
    build_lock (ended none) = ended none
    build_lock (ended (some g)) =
        ended (some (record { key = key; token = g.token; fencing_token = g.fencing_token }))

  module _ (random_token : ℕ → String) (turns : List (Turn R.State)) where
    abbrev check : Option ArgumentError → Exec (World R.State) Unit
    check none = pure tt
    check (some e) = throw (error (message_of e))

    unfoldable pub acquire :
        String → Millis → Option LockOptions → Exec (World R.State) (Waited (Option Lock))
    acquire key ttl opts = do
      check (validate_lock_args ttl opts)
      got ← try_once random_token key (milliseconds ttl) (has_fencing opts)
      waited ←
          retry_if_asked random_token key (milliseconds ttl) (has_fencing opts) turns
            (retry_of opts) got
      pure (build_lock random_token key (milliseconds ttl) (has_fencing opts) waited)

    module _ {A : Type 0} (fn : Lock → Exec (World R.State) A) where
      abbrev not_acquired : Option TimeoutMode → Exec (World R.State) (Waited (Option A))
      not_acquired (some return_undefined) = pure (ended none)
      not_acquired _ = throw (app_exception lock_acquisition_failed)

      abbrev run_locked :
          Option TimeoutMode → Waited (Option Lock) → Exec (World R.State) (Waited (Option A))
      run_locked mode running = pure running
      run_locked mode (ended none) = not_acquired mode
      run_locked mode (ended (some lock)) =
          finally (fn lock >>= λ a. pure (ended (some a))) (release lock)

      unfoldable pub with_lock :
          String → Millis → Option LockOptions → Exec (World R.State) (Waited (Option A))
      with_lock key ttl opts = acquire key ttl opts >>= run_locked (timeout_of opts)
