-- ===== src/Redis/Renewal.antt =====
-- `autoRenew` in `buildLock` of src/core/redis/services/lock.service.ts: the watchdog on the `extend` of
-- its lock, and `release` behind `watchdog.stop()`.
pub mod Keeping
pub mod Running
use nest_fastify_boilerplate.Prelude.{ℕ, ◌+◌, ◌/◌, Bool, true, false, List, [], ◌∷◌, if◌then◌else◌}
use nest_fastify_boilerplate.Effects.{Outcome, Exec, returned, thrown}
use nest_fastify_boilerplate.Redis.Port.{Redis}
use nest_fastify_boilerplate.Redis.Lock.{World, Lock, extend, release}
use nest_fastify_boilerplate.Redis.Watchdog
use nest_fastify_boilerplate.Redis.Watchdog.{
  Watchdog, Answer, renewed, lost, failed, idle, start, fire, answer, settle,
}

-- What goes on from one timer of the watchdog to the next: how late the timer fires and the server runs
-- the script, with what the work and others do until then, and the time until the callback behind
-- it has run, with what they do meanwhile.
pub record Round (S : Type 0) : Type 0 where
  pub late : ℕ
  pub before : S → S
  pub back : ℕ
  pub after : S → S

abbrev pub answer_of : Outcome Bool → Answer
answer_of (returned true) = renewed
answer_of (returned false) = lost
answer_of (thrown e) = failed

-- `setTimeout` drops the fraction of a millisecond.
unfoldable pub period : ℕ → ℕ
period ttl = ttl / 3

-- Without `autoRenew` there is no watchdog: one that has no timer and never acts.
abbrev pub watchdog_of : Bool → Watchdog
watchdog_of true = start
watchdog_of false = record {
  timer = false;
  inflight = idle;
  stopped = true;
  aborted = false;
  extensions = 0;
}

module _ (R : Redis) (lock : Lock) (ttl : ℕ) where
  -- The watchdog of a lock, and the world.
  abbrev pub State : Type 0
  State = Watchdog × World R.State

  -- `run`, from the timer to the next one.
  unfoldable pub renew : Round R.State → State → State
  renew r (d, w) =
      let (ok, w') =
        extend R lock ttl
          (record w { redis = r.before w.redis; now = w.now + period ttl + r.late }) in
      (
        settle (answer (answer_of ok) (fire d)),
        record w' { redis = r.after w'.redis; now = w'.now + r.back },
      )

  -- The same time without a timer.
  abbrev pass_time : Round R.State → State → State
  pass_time r (d, w) = (
    d,
    record w { redis = r.after (r.before w.redis); now = w.now + period ttl + r.late + r.back },
  )

  unfoldable pub renewals : List (Round R.State) → State → State
  renewals [] s = s
  renewals (r ∷ rs) s =
      let timed = renewals rs (renew r s) in
      let untimed = renewals rs (pass_time r s) in if s.0.timer then timed else untimed

  -- `release` between two renewals: the watchdog stops first.
  unfoldable pub release_renewed : State → Outcome Bool × State
  release_renewed (d, w) = let (done, w') = release R lock w in (done, (Watchdog.stop d, w'))
