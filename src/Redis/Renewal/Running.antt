-- ===== src/Redis/Renewal/Running.antt =====
-- `withLock` of src/core/redis/services/lock.service.ts with `autoRenew`: the watchdog renews the lock
-- while the function runs, and `release` in the `finally` stops it.
use nest_fastify_boilerplate.Prelude.{
  All, subst, refl, true, ℕ, String, ◌≡◌, false, Bool, Option, none, some, List, length,
}
use nest_fastify_boilerplate.Effects.{
  Outcome, Exec, returned, app_exception, pure, throw, finally, ◌>>=◌,
}
use nest_fastify_boilerplate.Redis.Port.{Redis}
use nest_fastify_boilerplate.Redis.Lock.Arguments.{
  Millis, LockOptions, TimeoutMode, return_undefined, milliseconds,
}
use nest_fastify_boilerplate.Redis.Lock.{
  World, Waited, Lock, Turn, ended, running, acquire, release, timeout_of, lock_acquisition_failed,
}
use nest_fastify_boilerplate.Redis.Lock.Holding.{
  IsEndedBy, next_link, awaited, awaited-release, settled, acquire-Holds,
}
use nest_fastify_boilerplate.Redis.Watchdog.{Watchdog}
use nest_fastify_boilerplate.Redis.Renewal.{Round, watchdog_of, renewals, release_renewed}
use nest_fastify_boilerplate.Redis.Renewal.Keeping.{IsKept, IsPunctual, AreAnswered, renewals_keep}

-- What the function given to `withLock` does: the renewals that come while it runs, in whose `before`
-- and `after` its own writes stand, and what it does behind the last of them, where it can ask
-- whether the lock's signal is aborted.
pub record Work (S A : Type 0) : Type 0 where
  pub rounds : List (Round S)
  pub finish : Bool → Exec (World S) A

abbrev pub is_renewed : Option LockOptions → Bool
is_renewed none = false
is_renewed (some o) = o.auto_renew

module _ (R : Redis) {A : Type 0} (work : Lock → Work R.State A) where
  -- The watchdog and the world behind the renewals.
  abbrev pub renewed_state : Bool → Lock → ℕ → World R.State → Watchdog × World R.State
  renewed_state auto_renew lock ttl w =
      renewals R lock ttl (work lock).rounds (watchdog_of auto_renew, w)

  -- the lock's `release`
  abbrev release_with : Watchdog → Lock → ℕ → Exec (World R.State) Bool
  release_with dog lock ttl w =
      let (done, (_, after)) = release_renewed R lock ttl (dog, w) in (done, after)

  unfoldable pub run_renewed : Bool → Lock → ℕ → Exec (World R.State) (Waited (Option A))
  run_renewed auto_renew lock ttl w =
      let (dog, late) = renewed_state auto_renew lock ttl w in
      finally (awaited ((work lock).finish dog.aborted)) (release_with dog lock ttl) late

  abbrev not_acquired : Option TimeoutMode → Exec (World R.State) (Waited (Option A))
  not_acquired (some return_undefined) = pure (ended none)
  not_acquired _ = throw (app_exception lock_acquisition_failed)

  abbrev when_acquired :
      Option LockOptions → ℕ → Waited (Option Lock) → Exec (World R.State) (Waited (Option A))
  when_acquired opts ttl running = pure running
  when_acquired opts ttl (ended none) = not_acquired (timeout_of opts)
  when_acquired opts ttl (ended (some lock)) = run_renewed (is_renewed opts) lock ttl

  module _ (random_token : ℕ → String) (turns : List (Turn R.State)) where
    unfoldable pub with_renewed_lock :
        String → Millis → Option LockOptions → Exec (World R.State) (Waited (Option A))
    with_renewed_lock key ttl opts =
        acquire R random_token turns key ttl opts >>= when_acquired opts (milliseconds ttl)

-- Behind the last renewal, at `late`, the lock is kept and the signal not aborted, and the outcome is by
-- the call of `release` that of the rest of the work, told so. `granted` is the world behind `acquire`.
abbrev pub IsRunUnderLock :
    (R : Redis) {A : Type 0}
    → (Lock → Work R.State A)
    → Lock
    → String
    → ℕ
    → World R.State
    → Watchdog × World R.State
    → Outcome (Waited (Option A)) × World R.State
    → Type 0
IsRunUnderLock R work lock key ttl granted late result =
    ((left : ℕ) × IsKept R lock ttl granted (length (work lock).rounds) left late)
    × IsEndedBy R (next_link R ((work lock).finish false late.1).1) key lock.token
        (settled ((work lock).finish false late.1).0) ((work lock).finish false late.1).1 result

-- `withLock` with `autoRenew` around work of any length. Where `acquire` answers with a lock, each timer
-- and each callback of the watchdog is late by less than a third of the time to live, the calls of
-- `extend` are answered, and the work and others leave the lock's key alone until the last renewal:
-- behind it the token has the lock for more than two thirds of its time to live, and the rest of the
-- work finds its signal not aborted. If the call of `release` is answered, `withLock` returns what the
-- work returns and throws what it throws, and the token holds the lock no more at the end; if it is
-- rejected, `withLock` throws the rejection, and the token holds the lock no more if the server has
-- run the call, and otherwise the lock's key is as the work left it.
pub with_renewed_lock_acquired :
    (R : Redis) (random_token : ℕ → String) (turns : List (Turn R.State)) {A : Type 0}
    (work : Lock → Work R.State A) (key : String) (ttl : Millis) (opts : Option LockOptions)
    (w : World R.State) (lock : Lock)
    → is_renewed opts ≡ true
    → (acquire R random_token turns key ttl opts w).0 ≡ returned (ended (some lock))
    → All (IsPunctual R lock (milliseconds ttl)) (work lock).rounds
    → AreAnswered (acquire R random_token turns key ttl opts w).1 (length (work lock).rounds)
    → IsRunUnderLock R work lock key
        (milliseconds ttl)
        (acquire R random_token turns key ttl opts w).1
        (renewed_state R work
          (is_renewed opts)
          lock
          (milliseconds ttl)
          (acquire R random_token turns key ttl opts w).1)
        (with_renewed_lock R work random_token turns key ttl opts w)
unfolding with_renewed_lock run_renewed release_renewed
with_renewed_lock_acquired R random_token turns {A} work key ttl opts w lock renews acquired
      punctual reached =
    let granted : World R.State = (acquire R random_token turns key ttl opts w).1 in
    let late : Watchdog × World R.State =
      renewed_state R work true lock (milliseconds ttl) granted in
    let (left, kept) =
      renewals_keep R random_token turns key ttl opts (work lock).rounds w lock acquired punctual
        reached in
    let (same, _) = acquire-Holds R random_token turns key ttl opts w lock acquired in
    let finish : Exec (World R.State) A = (work lock).finish false in
    let run : finally (awaited finish) (release R lock) late.1
        ≡ with_renewed_lock R work random_token turns key ttl opts w =
      rw (acquired, renews, kept.unaborted) refl in
    rw renews (
      (left, kept),
      subst
          (λ k.
            IsEndedBy R (next_link R (finish late.1).1) k lock.token (settled (finish late.1).0)
              (finish late.1).1 (with_renewed_lock R work random_token turns key ttl opts w))
          same
          (subst
            (λ r.
              IsEndedBy R (next_link R (finish late.1).1) lock.key lock.token
                (settled (finish late.1).0) (finish late.1).1 r)
            run (awaited-release R finish lock late.1)),
    )
