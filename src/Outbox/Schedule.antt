-- ===== src/Outbox/Schedule.antt =====
-- The timer of src/core/outbox/outbox-relay.service.ts, as a state machine: a drain is scheduled, runs,
-- and schedules the next one when it ends, also if it threw, until the module is destroyed.
use nest_fastify_boilerplate.Prelude.{ℕ, ◌+◌, ◌≡◌, refl, Bool, true, false, if◌then◌else◌, arith}
use nest_fastify_boilerplate.Effects.{Outcome}

-- `timer` says that a timer is set and has not fired.
pub record Relay : Type 0 where
  pub timer : Bool
  pub draining : Bool
  pub stopped : Bool
  pub drains : ℕ

abbrev pub created : Relay
created = record { timer = false; draining = false; stopped = false; drains = 0 }

unfoldable pub schedule_next : Relay → Relay
schedule_next r = if r.stopped then r else record r { timer = true }

unfoldable pub on_application_bootstrap : Relay → Relay
unfolding schedule_next
on_application_bootstrap r = schedule_next r

unfoldable pub on_module_destroy : Relay → Relay
on_module_destroy r = record r { stopped = true; timer = false }

-- The callback of the timer, as far as the drain.
unfoldable pub fire : Relay → Relay
fire r = record r { timer = false; draining = true; drains = r.drains + 1 }

-- `catch` logs, `finally` schedules: the outcome of the drain does not matter.
unfoldable pub finish : Outcome (Unit {0}) → Relay → Relay
unfolding schedule_next
finish outcome r = schedule_next (record r { draining = false })

pub data Step (r : Relay) : Relay → Type 0 where
  fires : r.timer ≡ true → Step r (fire r)
  finishes : (outcome : Outcome (Unit {0})) → r.draining ≡ true → Step r (finish outcome r)
  destroys : Step r (on_module_destroy r)

pub data Run (r : Relay) : Relay → Type 0 where
  here : Run r r
  next : {s t : Relay} → Run r s → Step s t → Run r t

pub record IsScheduled (r : Relay) : Type 0 where
  pub alone : r.timer ≡ true → r.draining ≡ false
  pub quiet : r.stopped ≡ true → r.timer ≡ false
  pub alive : r.stopped ≡ false → r.draining ≡ false → r.timer ≡ true

Step-IsScheduled : {r s : Relay} → Step r s → IsScheduled r → IsScheduled s
unfolding fire finish on_module_destroy
Step-IsScheduled (fires h) i = ground arith
Step-IsScheduled (finishes outcome h) i = ground arith
Step-IsScheduled destroys i = ground arith

-- Once the application has started: never two drains at once nor one scheduled beside one that runs,
-- none scheduled after the module is destroyed, and until then one is always scheduled or running,
-- whatever the drains before it came to.
pub Run-IsScheduled : {r : Relay} → Run (on_application_bootstrap created) r → IsScheduled r
unfolding on_application_bootstrap
Run-IsScheduled here = ground arith
Run-IsScheduled (next run s) = Step-IsScheduled s (Run-IsScheduled run)

record IsStopped (n : ℕ) (r : Relay) : Type 0 where
  stopped : r.stopped ≡ true
  untimed : r.timer ≡ false
  counted : r.drains ≡ n

Step-IsStopped : {n : ℕ} {r s : Relay} → Step r s → IsStopped n r → IsStopped n s
unfolding fire finish on_module_destroy
Step-IsStopped (fires h) q = ground arith
Step-IsStopped (finishes outcome h) q = ground arith
Step-IsStopped destroys q = ground arith

Run-IsStopped : {n : ℕ} {r s : Relay} → Run r s → IsStopped n r → IsStopped n s
Run-IsStopped here q = q
Run-IsStopped (next run s) q = Step-IsStopped s (Run-IsStopped run q)

-- After the module is destroyed, in whatever state, no drain begins any more.
pub drains_after_destroy :
    (r : Relay) {s : Relay}
    → Run (on_module_destroy r) s
    → (s.drains ≡ r.drains) × (s.stopped ≡ true)
unfolding on_module_destroy
drains_after_destroy r {s} run =
    let q : IsStopped r.drains s =
      Run-IsStopped run (record { stopped = refl; untimed = refl; counted = refl }) in
    (q.counted, q.stopped)
