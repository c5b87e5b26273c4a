-- ===== src/Redis/Watchdog.antt =====
-- `startWatchdog` of src/core/redis/services/lock.service.ts: the renewal of a lock as a state machine.
-- A step is what the event loop does at once: a timer fires, an extension is answered, the callback
-- behind it runs, or the owner calls `stop`.
use nest_fastify_boilerplate.Prelude.{ℕ, ◌+◌, ◌≡◌, refl, Bool, true, false, if◌then◌else◌, arith}

-- What `await extend(ttlMs)` comes to.
pub data Answer : Type 0 where
  renewed lost failed : Answer

-- `inflight` is null; the extension is awaited; it is answered and its callback is to run.
pub data Inflight : Type 0 where
  idle extending answered : Inflight

-- `timer` says that a timer is set and has not fired; `extensions` counts the calls of `extend`.
pub record Watchdog : Type 0 where
  pub timer : Bool
  pub inflight : Inflight
  pub stopped : Bool
  pub aborted : Bool
  pub extensions : ℕ

abbrev schedule : Watchdog → Watchdog
schedule w = if w.stopped then w else record w { timer = true }

abbrev pub start : Watchdog
start = record { timer = true; inflight = idle; stopped = false; aborted = false; extensions = 0 }

-- `run`, as far as its first `await`
unfoldable pub fire : Watchdog → Watchdog
fire w = record w { timer = false; inflight = extending; extensions = w.extensions + 1 }

-- `run`, behind that `await`; an extension that throws is logged
unfoldable pub answer : Answer → Watchdog → Watchdog
answer renewed w = record w { inflight = answered }
answer lost w = record w { inflight = answered; stopped = true; aborted = true }
answer failed w = record w { inflight = answered }

-- `.then(…)`
unfoldable pub settle : Watchdog → Watchdog
settle w = schedule (record w { inflight = idle })

-- `stop`, as far as its `await`
unfoldable pub stop : Watchdog → Watchdog
stop w = record w { stopped = true; timer = false }

pub data Step (w : Watchdog) : Watchdog → Type 0 where
  fires : w.timer ≡ true → Step w (fire w)
  answers : (a : Answer) → w.inflight ≡ extending → Step w (answer a w)
  settles : w.inflight ≡ answered → Step w (settle w)
  stops : Step w (stop w)

pub data Run (w : Watchdog) : Watchdog → Type 0 where
  here : Run w w
  next : {u v : Watchdog} → Run w u → Step u v → Run w v

-- At most one extension at a time, none scheduled beside it or after a stop; the signal is aborted
-- only by a watchdog that has stopped; one that has not stopped is waiting or extending.
pub record IsSingleFlight (w : Watchdog) : Type 0 where
  pub alone : w.timer ≡ true → w.inflight ≡ idle
  pub quiet : w.stopped ≡ true → w.timer ≡ false
  pub abort_stops : w.aborted ≡ true → w.stopped ≡ true
  pub alive : w.stopped ≡ false → w.inflight ≡ idle → w.timer ≡ true

Step-IsSingleFlight : {w v : Watchdog} → Step w v → IsSingleFlight w → IsSingleFlight v
unfolding fire answer settle stop
Step-IsSingleFlight (fires h) i = ground arith
Step-IsSingleFlight (answers renewed h) i = ground arith
Step-IsSingleFlight (answers lost h) i = ground arith
Step-IsSingleFlight (answers failed h) i = ground arith
Step-IsSingleFlight (settles h) i = ground arith
Step-IsSingleFlight stops i = ground arith

start-IsSingleFlight : IsSingleFlight start
start-IsSingleFlight = ground arith

-- In every state that a started watchdog reaches: no extension is scheduled beside one in flight nor
-- after a stop, an abort comes with a stop, and a watchdog that has not stopped goes on renewing.
pub Run-IsSingleFlight : {w : Watchdog} → Run start w → IsSingleFlight w
Run-IsSingleFlight here = start-IsSingleFlight
Run-IsSingleFlight (next r s) = Step-IsSingleFlight s (Run-IsSingleFlight r)

record IsQuiet (n : ℕ) (w : Watchdog) : Type 0 where
  stopped : w.stopped ≡ true
  single : IsSingleFlight w
  counted : w.extensions ≡ n

Step-IsQuiet : {n : ℕ} {w v : Watchdog} → Step w v → IsQuiet n w → IsQuiet n v
unfolding fire answer settle stop
Step-IsQuiet (fires h) q = ground arith
Step-IsQuiet (answers renewed h) q = ground arith
Step-IsQuiet (answers lost h) q = ground arith
Step-IsQuiet (answers failed h) q = ground arith
Step-IsQuiet (settles h) q = ground arith
Step-IsQuiet stops q = ground arith

Run-IsQuiet : {n : ℕ} {w v : Watchdog} → Run w v → IsQuiet n w → IsQuiet n v
Run-IsQuiet here q = q
Run-IsQuiet (next r s) q = Step-IsQuiet s (Run-IsQuiet r q)

-- Once a started watchdog has stopped, by its owner or because the lock was lost, it never calls
-- `extend` again, whatever happens next.
pub extensions_after_stop :
    {w v : Watchdog}
    → Run start w
    → w.stopped ≡ true
    → Run w v
    → (v.extensions ≡ w.extensions) × (v.stopped ≡ true)
extensions_after_stop {w} {v} r h after =
    let q : IsQuiet w.extensions v =
      Run-IsQuiet after (record { stopped = h; single = Run-IsSingleFlight r; counted = refl }) in
    (q.counted, q.stopped)
