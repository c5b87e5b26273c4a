-- ===== src/Redis/Renewal/Keeping.antt =====
-- A watchdog whose timers fire in time keeps its lock.
use nest_fastify_boilerplate.Prelude.{
  ℕ, ◌+◌, ◌-◌, ◌*◌, ◌≤◌, ◌<◌, All, suc, String, Option, some, Option-cases, inl, inr, ◌≡◌, refl,
  true, false, List, [], ◌∷◌, length, ap, sym, subst, ◌∙◌, arith, eq_refl,
}
use nest_fastify_boilerplate.Effects.{returned}
use nest_fastify_boilerplate.Redis.Port.{Redis}
use nest_fastify_boilerplate.Redis.Scripts.Locking.{held, extend_lock-result, extend_lock-entry}
use nest_fastify_boilerplate.Redis.Lock.{World, answered, Lock, Turn, ended, acquire, extend}
use nest_fastify_boilerplate.Redis.Lock.Arguments.{
  Millis, LockOptions, milliseconds, validate_lock_args, validate_lock_args_lem,
}
use nest_fastify_boilerplate.Redis.Lock.Keys.{lock_key}
use nest_fastify_boilerplate.Redis.Lock.Holding.{acquire-Holds}
use nest_fastify_boilerplate.Redis.Watchdog
use nest_fastify_boilerplate.Redis.Watchdog.{Watchdog, idle, renewed, start, fire, answer, settle}
use nest_fastify_boilerplate.Redis.Renewal.{Round, period, renew, renewals}

-- The timer is late, with its script, by less than a third of the time to live, the callback comes within
-- less than a third, and the work and others leave the lock's key alone, as the scripts of others do
-- while it is held.
pub record IsPunctual (R : Redis) (lock : Lock) (ttl : ℕ) (r : Round R.State) : Type 0 where
  pub in_time : r.late * 3 < ttl
  pub back_in_time : r.back * 3 < ttl
  pub kept_before :
      (s : R.State) → R.entry (r.before s) (lock_key lock.key) ≡ R.entry s (lock_key lock.key)
  pub kept_after :
      (s : R.State) → R.entry (r.after s) (lock_key lock.key) ≡ R.entry s (lock_key lock.key)

-- The next `n` calls are answered.
abbrev pub AreAnswered : {S : Type 0} → World S → ℕ → Type 0
AreAnswered w n = (i : ℕ) → i < n → w.link (w.calls + i) ≡ answered

-- From the world `begun` on, behind `n` renewals: the watchdog has called `extend` once for each, has
-- not aborted the signal and waits for its next timer, and the token has the lock for `left`
-- milliseconds, more than two thirds of its time to live.
pub record IsKept (R : Redis) (lock : Lock) (ttl : ℕ) (begun : World R.State) (n left : ℕ)
    (s : Watchdog × World R.State) : Type 0 where
  pub timer : s.0.timer ≡ true
  pub idle : s.0.inflight ≡ Watchdog.Inflight.idle
  pub going : s.0.stopped ≡ false
  pub unaborted : s.0.aborted ≡ false
  pub counted : s.0.extensions ≡ n
  pub holds : R.entry s.1.redis (lock_key lock.key) ≡ held lock.token (s.1.now + left)
  pub lasting : ttl * 2 < left * 3
  pub links : s.1.link ≡ begun.link
  pub called : s.1.calls ≡ begun.calls + n

module _ (R : Redis) (lock : Lock) (ttl : ℕ) where
  extend-held :
      (w : World R.State) (d : ℕ)
      → R.entry w.redis (lock_key lock.key) ≡ held lock.token d
      → w.now < d
      → w.link w.calls ≡ answered
      → ((extend R lock ttl w).0 ≡ returned true)
        × (R.entry (extend R lock ttl w).1.redis (lock_key lock.key)
            ≡ held lock.token (w.now + ttl))
        × ((extend R lock ttl w).1.now ≡ w.now)
        × ((extend R lock ttl w).1.link ≡ w.link)
        × ((extend R lock ttl w).1.calls ≡ suc w.calls)
  unfolding extend
  extend-held w d h below reached = ground (
    arith,
    h,
    reached,
    eq_refl lock.token,
    eq_refl (lock_key lock.key),
    extend_lock-result R w.now (lock_key lock.key) lock.token w.redis ttl,
    extend_lock-entry R w.now (lock_key lock.key) lock.token w.redis ttl (lock_key lock.key),
  )

  module _ (begun : World R.State) where
    renew-IsKept :
        (n left : ℕ) (r : Round R.State) (s : Watchdog × World R.State)
        → IsPunctual R lock ttl r
        → begun.link (begun.calls + n) ≡ answered
        → IsKept R lock ttl begun n left s
        → IsKept R lock ttl begun (suc n) (ttl - r.back) (renew R lock ttl r s)
    unfolding renew fire answer settle period
    renew-IsKept n left r (d, w) p reached k =
        let asked : World R.State = record w {
          redis = r.before w.redis;
          now = w.now + period ttl + r.late;
        } in
        let third : period ttl * 3 ≤ ttl = omega arith in
        let link : asked.link asked.calls ≡ answered =
          ap (λ f. f w.calls) k.links ∙ ap begun.link k.called ∙ reached in
        let (ok, entry, time, links, called) =
          extend-held asked (w.now + left) (p.kept_before w.redis ∙ k.holds)
            (omega (arith, p.in_time, k.lasting, third)) link in
        record {
          timer = ground (arith, ok, k.going);
          idle = ground (arith, ok, k.going);
          going = ground (arith, ok, k.going);
          unaborted = ground (arith, ok, k.going, k.unaborted);
          counted = ground (arith, ok, k.going, k.counted);
          holds =
              p.kept_after (extend R lock ttl asked).1.redis
              ∙ entry
              ∙ ap (held lock.token) (omega (arith, time, p.back_in_time));
          lasting = omega (arith, p.back_in_time);
          links = links ∙ k.links;
          called = omega (arith, called, k.called);
        }

    renewals-cons :
        (r : Round R.State) (rs : List (Round R.State)) (s : Watchdog × World R.State)
        → s.0.timer ≡ true
        → renewals R lock ttl (r ∷ rs) s ≡ renewals R lock ttl rs (renew R lock ttl r s)
    unfolding renewals
    renewals-cons r rs s h = ground (arith, h)

    renewals-IsKept :
        (n left : ℕ) (rs : List (Round R.State)) (s : Watchdog × World R.State)
        → All (IsPunctual R lock ttl) rs
        → AreAnswered begun (n + length rs)
        → IsKept R lock ttl begun n left s
        → (rest : ℕ) × IsKept R lock ttl begun (n + length rs) rest (renewals R lock ttl rs s)
    unfolding renewals
    renewals-IsKept n left [] s p reached k =
        (left, subst (λ m. IsKept R lock ttl begun m left s) (omega arith) k)
    renewals-IsKept n left (r ∷ rs) s (p, ps) reached k =
        let longer : suc n + length rs ≡ n + length (r ∷ rs) = omega arith in
        let (rest, kept) =
          renewals-IsKept (suc n) (ttl - r.back) rs (renew R lock ttl r s) ps
            (subst (AreAnswered begun) (sym longer) reached)
            (renew-IsKept n left r s p (reached n (omega arith)) k) in
        (
          rest,
          subst (IsKept R lock ttl begun (n + length (r ∷ rs)) rest)
              (sym (renewals-cons r rs s k.timer))
              (subst
                (λ m.
                  IsKept R lock ttl begun m rest (renewals R lock ttl rs (renew R lock ttl r s)))
                longer kept),
        )

acquired-positive :
    (R : Redis) (random_token : ℕ → String) (turns : List (Turn R.State)) (key : String)
    (ttl : Millis) (opts : Option LockOptions) (w : World R.State) (lock : Lock)
    → (acquire R random_token turns key ttl opts w).0 ≡ returned (ended (some lock))
    → 0 < milliseconds ttl
unfolding acquire
acquired-positive R random_token turns key ttl opts w lock h =
    elim (Option-cases (validate_lock_args ttl opts)) [
      | inl valid ↦ ((validate_lock_args_lem ttl opts).0 valid).0
      | inr (e, invalid) ↦ absurd (ground (arith, h, invalid))
    ]

-- A lock that is renewed in time is kept, however long the work takes. Where `acquire` answers with a
-- lock whose watchdog runs, each timer and each callback is less than a third of the time to live
-- late, the calls of `extend` are answered, and others leave the lock's key alone: the signal is not
-- aborted, each timer extends the lock once, the next timer is set, and the token has the lock for
-- more than two thirds of its time to live.
pub renewals_keep :
    (R : Redis) (random_token : ℕ → String) (turns : List (Turn R.State)) (key : String)
    (ttl : Millis) (opts : Option LockOptions) (rs : List (Round R.State)) (w : World R.State)
    (lock : Lock)
    → (acquire R random_token turns key ttl opts w).0 ≡ returned (ended (some lock))
    → All (IsPunctual R lock (milliseconds ttl)) rs
    → AreAnswered (acquire R random_token turns key ttl opts w).1 (length rs)
    → (left : ℕ) × IsKept R lock
        (milliseconds ttl)
        (acquire R random_token turns key ttl opts w).1
        (length rs)
        left
        (renewals R lock
          (milliseconds ttl)
          rs
          (start, (acquire R random_token turns key ttl opts w).1))
renewals_keep R random_token turns key ttl opts rs w lock acquired punctual reached =
    let (same, holds) = acquire-Holds R random_token turns key ttl opts w lock acquired in
    let granted : World R.State = (acquire R random_token turns key ttl opts w).1 in
    let positive = acquired-positive R random_token turns key ttl opts w lock acquired in
    let begun : IsKept R lock (milliseconds ttl) granted 0 (milliseconds ttl) (start, granted) =
      record {
        timer = refl;
        idle = refl;
        going = refl;
        unaborted = refl;
        counted = refl;
        holds = ap (λ k. R.entry granted.redis (lock_key k)) same ∙ holds;
        lasting = omega (arith, positive);
        links = refl;
        called = omega arith;
      } in
    let at_first : 0 + length rs ≡ length rs = omega arith in
    let (left, kept) =
      renewals-IsKept R lock (milliseconds ttl) granted 0 (milliseconds ttl) rs (start, granted)
        punctual (subst (AreAnswered granted) (sym at_first) reached) begun in
    (
      left,
      subst
          (λ m.
            IsKept R lock (milliseconds ttl) granted m left
              (renewals R lock (milliseconds ttl) rs (start, granted)))
          at_first kept,
    )
