-- ===== src/Redis/Lock/Holding.antt =====
-- Who holds the lock when the methods of src/core/redis/services/lock.service.ts return.
use nest_fastify_boilerplate.Prelude.{
  ℕ, ◌<>◌, ◌+◌, ◌*◌, ◌<◌, min, String, ◌≡◌, Bool, true, false, Option, none, some, List, [], ◌∷◌,
  arith, refl, subst, eq_refl,
}
use nest_fastify_boilerplate.Effects.{
  Outcome, Exec, returned, thrown, app_exception, error, finally, pure, continue, ◌>>=◌,
}
use nest_fastify_boilerplate.Redis.Port.{Redis, text}
use nest_fastify_boilerplate.Redis.Scripts.{is_token}
use nest_fastify_boilerplate.Redis.Scripts.Locking.{
  held, holder, acquire_lock-result, acquire_lock-entry, release_lock-entry, release_lock-result,
}
use nest_fastify_boilerplate.Redis.Lock.Arguments.{
  Millis, LockOptions, RetryOptions, TimeoutMode, throw_error, return_undefined, milliseconds,
  min_delay, max_delay, validate_lock_args, validate_lock_args_lem,
}
use nest_fastify_boilerplate.Redis.Lock.Keys.{
  lock_key, fence_key, fence_key-ne-lock_key, fence_key-eq-lock_key,
}
use nest_fastify_boilerplate.Redis.Lock.{
  Link, answered, unanswered, unreached, Turn, World, Waited, Grant, Lock, ended, try_once,
  retry_loop, retry_acquire, retry_if_asked, retry_of, timeout_of, lock_acquisition_failed, sleep,
  delay_of, acquire, release, with_lock, has_fencing,
}

module _ (R : Redis) where
  -- The lock is this token's, for `ttl` from now on.
  abbrev pub Holds : String → String → ℕ → World R.State → Type 0
  Holds key token ttl w = R.entry w.redis (lock_key key) ≡ held token (w.now + ttl)

  module _ (random_token : ℕ → String) (key : String) (ttl : ℕ) (fencing : Bool) where
    try_once-Holds :
        (w : World R.State) (g : Grant)
        → (try_once R random_token key ttl fencing w).0 ≡ returned (some g)
        → Holds key g.token ttl (try_once R random_token key ttl fencing w).1
    unfolding try_once
    try_once-Holds w g h = ground (
      arith,
      eq_refl (lock_key key),
      fence_key-ne-lock_key key,
      acquire_lock-result R w.now (lock_key key) (fence_key key) (random_token w.drawn) ttl w.redis
          fencing (fence_key-ne-lock_key key),
      acquire_lock-entry R w.now (lock_key key) (fence_key key) (random_token w.drawn) ttl w.redis
          fencing (lock_key key) (fence_key-ne-lock_key key),
    )

    retry_loop-Holds :
        (turns : List (Turn R.State)) (m d b : ℕ) (w : World R.State) (g : Grant)
        → (retry_loop R random_token key ttl fencing turns m d b w).0 ≡ returned (ended (some g))
        → Holds key g.token ttl (retry_loop R random_token key ttl fencing turns m d b w).1
    unfolding retry_loop
    retry_loop-Holds [] m d b w g h = cc
    retry_loop-Holds (t ∷ turns) m d b w g h = ground (
      arith,
      try_once-Holds (sleep R t (delay_of R t m d b w.now) w) g,
      retry_loop-Holds turns m d (min (b * 2) m)
          (try_once R random_token key ttl fencing (sleep R t (delay_of R t m d b w.now) w)).1 g,
    )

    retry_if_asked-Holds :
        (turns : List (Turn R.State)) (retry : Option RetryOptions) (w : World R.State) (g : Grant)
        → ((try_once R random_token key ttl fencing
              >>= retry_if_asked R random_token key ttl fencing turns retry)
            w).0
          ≡ returned (ended (some g))
        → Holds key g.token ttl
            ((try_once R random_token key ttl fencing
                >>= retry_if_asked R random_token key ttl fencing turns retry)
              w).1
    unfolding retry_acquire
    retry_if_asked-Holds turns none w g h = ground (arith, try_once-Holds w g)
    retry_if_asked-Holds turns (some o) w g h = ground (
      arith,
      try_once-Holds w g,
      retry_loop-Holds turns (milliseconds (max_delay o))
          ((try_once R random_token key ttl fencing w).1.now + milliseconds o.wait_ms)
          (milliseconds (min_delay o)) (try_once R random_token key ttl fencing w).1 g,
    )

-- Where `acquire` answers with a lock, after retries or not, the key asked for holds the lock's token
-- and no other for the time to live from then on.
pub acquire-Holds :
    (R : Redis) (random_token : ℕ → String) (turns : List (Turn R.State)) (key : String)
    (ttl : Millis) (opts : Option LockOptions) (w : World R.State) (lock : Lock)
    → (acquire R random_token turns key ttl opts w).0 ≡ returned (ended (some lock))
    → (lock.key ≡ key)
      × Holds R key lock.token (milliseconds ttl) (acquire R random_token turns key ttl opts w).1
unfolding acquire
acquire-Holds R random_token turns key ttl opts w lock h = ground (
  arith,
  retry_if_asked-Holds R random_token key (milliseconds ttl) (has_fencing opts) turns
      (retry_of opts) w (record { token = lock.token; fencing_token = lock.fencing_token }),
)

module _ (R : Redis) where
  -- The token does not hold the lock.
  abbrev pub IsLetGo : String → String → World R.State → Type 0
  IsLetGo key token w = is_token token (holder R w.now (lock_key key) w.redis) ≡ false

  -- How the `finally` with `release` ends, by what becomes of its call: answered, the outcome is that
  -- of the work; rejected, the rejection takes its place. The token has the lock no more, unless the
  -- server has not run the script: then the lock's key is as it was before.
  abbrev pub IsEndedBy :
      {B : Type 0}
      → Link
      → String
      → String
      → Outcome B
      → World R.State
      → Outcome B × World R.State
      → Type 0
  IsEndedBy answered key token outcome before result =
      (result.0 ≡ outcome) × IsLetGo key token result.1
  IsEndedBy (unanswered e) key token outcome before result =
      (result.0 ≡ thrown e) × IsLetGo key token result.1
  IsEndedBy (unreached e) key token outcome before result =
      (result.0 ≡ thrown e)
      × (R.entry result.1.redis (lock_key key) ≡ R.entry before.redis (lock_key key))

  -- The call that `release` makes next.
  abbrev pub next_link : World R.State → Link
  next_link w = w.link w.calls

  pub finally-release :
      {B : Type 0} (m : Exec (World R.State) B) (lock : Lock) (w : World R.State)
      → IsEndedBy
          (next_link (m w).1)
          lock.key
          lock.token
          (m w).0
          (m w).1
          (finally m (release R lock) w)
  unfolding release
  finally-release m lock w = by_link (next_link (m w).1) refl
    where
      by_link :
          (l : Link)
          → next_link (m w).1 ≡ l
          → IsEndedBy l lock.key lock.token (m w).0 (m w).1 (finally m (release R lock) w)
      by_link answered e = ground (
        arith,
        e,
        eq_refl (lock_key lock.key),
        release_lock-result R (m w).1.now (lock_key lock.key) lock.token (m w).1.redis,
        release_lock-entry R (m w).1.now (lock_key lock.key) lock.token (m w).1.redis
            (lock_key lock.key),
      )
      by_link (unanswered x) e = ground (
        arith,
        e,
        eq_refl (lock_key lock.key),
        release_lock-entry R (m w).1.now (lock_key lock.key) lock.token (m w).1.redis
            (lock_key lock.key),
      )
      by_link (unreached x) e = ground (arith, e)

abbrev pub settled {ℓ} : {A : Type ℓ} → Outcome A → Outcome (Waited (Option A))
settled (returned a) = returned (ended (some a))
settled (thrown e) = thrown e

-- `return await fn(lock)`
abbrev pub awaited : {S A : Type 0} → Exec S A → Exec S (Waited (Option A))
awaited m = m >>= λ a. pure (ended (some a))

pub awaited_lem : {S A : Type 0} (m : Exec S A) (w : S) → awaited m w ≡ (settled (m w).0, (m w).1)
awaited_lem {S} {A} m w = by_outcome (m w)
  where
    by_outcome :
        (r : Outcome A × S) → continue (λ a. pure (ended (some a))) r.0 r.1 ≡ (settled r.0, r.1)
    by_outcome (returned a, t) = refl
    by_outcome (thrown e, t) = refl

pub awaited-release :
    (R : Redis) {A : Type 0} (m : Exec (World R.State) A) (lock : Lock) (w : World R.State)
    → IsEndedBy R
        (next_link R (m w).1)
        lock.key
        lock.token
        (settled (m w).0)
        (m w).1
        (finally (awaited m) (release R lock) w)
awaited-release R m lock w =
    subst
      (λ x.
        IsEndedBy R (next_link R x.1) lock.key lock.token x.0 x.1
          (finally (awaited m) (release R lock) w))
      (awaited_lem m w) (finally-release R (awaited m) lock w)

-- Where `acquire` answers with a lock, whatever the function does and whatever goes on meanwhile: if the
-- call of `release` is answered, `withLock` returns what the function returns and throws what it
-- throws, and the token holds the lock no more at the end. If that call is rejected, `withLock`
-- throws the rejection instead, whatever the function came to; the token then holds the lock no more
-- if the server has run the call, and otherwise the lock's key is as the function left it.
pub with_lock_acquired :
    (R : Redis) (random_token : ℕ → String) (turns : List (Turn R.State)) {A : Type 0}
    (fn : Lock → Exec (World R.State) A) (key : String) (ttl : Millis) (opts : Option LockOptions)
    (w : World R.State) (lock : Lock)
    → (acquire R random_token turns key ttl opts w).0 ≡ returned (ended (some lock))
    → IsEndedBy R
        (next_link R (fn lock (acquire R random_token turns key ttl opts w).1).1)
        key
        lock.token
        (settled (fn lock (acquire R random_token turns key ttl opts w).1).0)
        (fn lock (acquire R random_token turns key ttl opts w).1).1
        (with_lock R random_token turns fn key ttl opts w)
unfolding with_lock
with_lock_acquired R random_token turns fn key ttl opts w lock h =
    let granted : World R.State = (acquire R random_token turns key ttl opts w).1 in
    let result = with_lock R random_token turns fn key ttl opts w in
    let run : finally (awaited (fn lock)) (release R lock) granted ≡ result = rw h refl in
    subst
      (λ r.
        IsEndedBy R (next_link R (fn lock granted).1) key lock.token (settled (fn lock granted).0)
          (fn lock granted).1 r)
      run
      (subst
        (λ k.
          IsEndedBy R (next_link R (fn lock granted).1) k lock.token (settled (fn lock granted).0)
            (fn lock granted).1 (finally (awaited (fn lock)) (release R lock) granted))
        (acquire-Holds R random_token turns key ttl opts w lock h).0
        (awaited-release R (fn lock) lock granted))

abbrev pub refusal {ℓ} : {A : Type ℓ} → Option TimeoutMode → Outcome (Waited (Option A))
refusal (some return_undefined) = returned (ended none)
refusal (some throw_error) = thrown (app_exception lock_acquisition_failed)
refusal none = thrown (app_exception lock_acquisition_failed)

-- Where `acquire` gives up, the function is not run and nothing more is done: `withLock` answers
-- undefined if the caller asked for that, and otherwise throws LOCK_ACQUISITION_FAILED, status 409.
pub with_lock_refused :
    (R : Redis) (random_token : ℕ → String) (turns : List (Turn R.State)) {A : Type 0}
    (fn : Lock → Exec (World R.State) A) (key : String) (ttl : Millis) (opts : Option LockOptions)
    (w : World R.State)
    → (acquire R random_token turns key ttl opts w).0 ≡ returned (ended none)
    → with_lock R random_token turns fn key ttl opts w
      ≡ (refusal (timeout_of opts), (acquire R random_token turns key ttl opts w).1)
unfolding with_lock
with_lock_refused R random_token turns fn key ttl opts w h = ground arith

-- With a fencing token asked for, a lock whose key is `fence:<key>` breaks the lock of `<key>`: the
-- first one's token sits in the counter's place, so INCR fails. Where the arguments are valid, the
-- lock of `<key>` is free and the call is answered, `acquire` throws without a retry, and leaves the lock
-- of `<key>` held for its time to live by a token that no caller was given.
pub fence_collision :
    (R : Redis) (random_token : ℕ → String) (turns : List (Turn R.State)) (key other : String)
    (ttl : Millis) (opts : LockOptions) (w : World R.State)
    → validate_lock_args ttl (some opts) ≡ none
    → opts.fencing ≡ true
    → w.link w.calls ≡ answered
    → holder R w.now (lock_key ("fence:" <> key)) w.redis ≡ some (text other)
    → holder R w.now (lock_key key) w.redis ≡ none
    → ((acquire R random_token turns key ttl (some opts) w).0
        ≡ thrown (error "ERR value is not an integer or out of range"))
      × Holds R key
          (random_token w.drawn)
          (milliseconds ttl)
          (acquire R random_token turns key ttl (some opts) w).1
unfolding acquire try_once
fence_collision R random_token turns key other ttl opts w valid fenced link taken free =
    let taken' : holder R w.now (fence_key key) w.redis ≡ some (text other) =
      rw (fence_key-eq-lock_key key) taken in
    let positive : 0 < milliseconds ttl = ((validate_lock_args_lem ttl (some opts)).0 valid).0 in
    ground (
      arith,
      positive,
      valid,
      fenced,
      link,
      taken',
      eq_refl (lock_key key),
      acquire_lock-result R w.now (lock_key key) (fence_key key) (random_token w.drawn)
          (milliseconds ttl) w.redis true (fence_key-ne-lock_key key),
      acquire_lock-entry R w.now (lock_key key) (fence_key key) (random_token w.drawn)
          (milliseconds ttl) w.redis true (lock_key key) (fence_key-ne-lock_key key),
    )
