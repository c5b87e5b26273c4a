-- ===== src/Outbox/Tests.antt =====
-- The outbox on the table of Outbox/Table.antt, with a broker that refuses one event.
use nest_fastify_boilerplate.Prelude.{
  ℕ, suc, ◌≤◌, String, ◌≡◌, ◌≢◌, refl, false, none, some, [], ◌∷◌, All, length, ◌==◌, if◌then◌else◌,
  arith, eq_iff,
}
use nest_fastify_boilerplate.Effects.{Exec, returned, thrown, error}
use nest_fastify_boilerplate.Outbox.Rows.{Row, pending, published, find}
use nest_fastify_boilerplate.Outbox.Table.{Table, table, pick}
use nest_fastify_boilerplate.Outbox.Repository.{is_due}
use nest_fastify_boilerplate.Outbox.Relay.{Config, World, drain_once}
use nest_fastify_boilerplate.Outbox.Relay.Verdicts.{IsConsistent, judge_all}
use nest_fastify_boilerplate.Outbox.Relay.Drain.{
  delay, claimed_of, locked_of, verdicts_of, drain_once_lem,
}
use nest_fastify_boilerplate.Outbox.Relay.Consistency.{drain_once-IsConsistent}
use nest_fastify_boilerplate.Outbox.Schedule.{
  Relay, Run, created, on_application_bootstrap, fire, finish, here, next, fires, finishes,
  IsScheduled, Run-IsScheduled, schedule_next,
}

abbrev event : String → ℕ → Row ℕ
event id at = record {
  id = id;
  message_id = id;
  routing_key = "user.registered";
  payload = 1;
  request_id = none;
  status = pending;
  attempts = 0;
  available_at = 10;
  created_at = at;
  published_at = none;
}

-- An event that was published before, and two that wait.
abbrev old_event : Row ℕ
old_event = record (event "a" 1) { status = published; published_at = some 2 }

abbrev pub three_events : World (Table ℕ) ℕ
three_events = record {
  db = record { rows = old_event ∷ event "b" 2 ∷ event "c" 3 ∷ []; now = 20 };
  broker = 0;
}

-- The broker counts the events, and refuses one of them.
abbrev pub send : Row ℕ → Exec ℕ (Unit {0})
send row n = if row.id == "b" then (thrown (error "closed"), n) else (returned tt, suc n)

abbrev pub settings : Config
settings = record { poll_ms = 1000; batch = 50; max_attempts = 10 }

drain_once_lem_example :
    ((drain_once table send settings three_events).0 ≡ returned tt)
    × (length (claimed_of table send settings three_events) ≤ 50)
    × ((drain_once table send settings three_events).1.db.rows
        ≡ judge_all
            (delay table send settings)
            10
            (claimed_of table send settings three_events)
            (verdicts_of table send settings
              (claimed_of table send settings three_events)
              (locked_of table send settings three_events))
            three_events.db.rows)
drain_once_lem_example = drain_once_lem table send settings three_events

-- the events that are due
two_claimed : claimed_of table send settings three_events ≡ event "b" 2 ∷ event "c" 3 ∷ []
unfolding pick is_due
two_claimed = refl

differ : (a b : String) → (a == b) ≡ false → a ≢ b
differ a b h e = absurd (ground (arith, eq_iff a b))

old_is_not_claimed : All (λ c. c.id ≢ "a") (claimed_of table send settings three_events)
unfolding pick is_due
old_is_not_claimed = (differ "b" "a" refl, (differ "c" "a" refl, tt))

three_events-IsConsistent : All (IsConsistent (delay table send settings) 10) three_events.db.rows
three_events-IsConsistent = (
  record {
    stamped = λ e. refl;
    unstamped = λ n. absurd (n refl);
    open_below = λ e. cc;
    spent = λ e. cc;
  },
  (
    record {
      stamped = λ e. cc;
      unstamped = λ n. refl;
      open_below = λ e. omega arith;
      spent = λ e. cc;
    },
    (
      record {
        stamped = λ e. cc;
        unstamped = λ n. refl;
        open_below = λ e. omega arith;
        spent = λ e. cc;
      },
      tt,
    ),
  ),
)

drain_once-IsConsistent_example :
    All
      (IsConsistent (delay table send settings) 10)
      (drain_once table send settings three_events).1.db.rows
    × (find "a" (drain_once table send settings three_events).1.db.rows
        ≡ find "a" three_events.db.rows)
drain_once-IsConsistent_example =
    drain_once-IsConsistent table send settings three_events "a" three_events-IsConsistent
      old_is_not_claimed

abbrev booted : Relay
booted = on_application_bootstrap created

abbrev rejected_once : Relay
rejected_once = finish (thrown (error "database is down")) (fire booted)

first_drain : Run booted rejected_once
unfolding on_application_bootstrap schedule_next fire finish
first_drain = next (next here (fires refl)) (finishes (thrown (error "database is down")) refl)

Run-IsScheduled_example : IsScheduled rejected_once
Run-IsScheduled_example = Run-IsScheduled first_drain
