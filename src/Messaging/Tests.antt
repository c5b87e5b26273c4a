-- ===== src/Messaging/Tests.antt =====
-- src/core/messaging on a concrete message, with services whose state is the marker of that message and
-- whether its lock is free.
use mathlib.Core.List.{Memᴰ}
use nest_fastify_boilerplate.Prelude.{
  ℕ, suc, String, ◌≡◌, ◌⊎◌, refl, Bool, true, false, Option, none, some, List, [], ◌∷◌, All, any,
  if◌then◌else◌, arith,
}
use nest_fastify_boilerplate.Effects.{Thrown, Exec, returned, error}
use nest_fastify_boilerplate.Messaging.Constants.{exchange_names}
use nest_fastify_boilerplate.Messaging.Contracts.{Subscription, subscriptions}
use nest_fastify_boilerplate.Messaging.Message.{Message}
use nest_fastify_boilerplate.Messaging.Topology.{build_queues}
use nest_fastify_boilerplate.Messaging.Topology.Bound.{HasTarget, Reaches, build_queues-HasTarget}
use nest_fastify_boilerplate.Messaging.Routing.{publications_reach}
use nest_fastify_boilerplate.Messaging.Consume.{
  Services, Config, Params, nack_requeue, Trace, present, retry_publication, dlq_publication,
  process, lock_and_process, handle,
}
use nest_fastify_boilerplate.Messaging.Consume.Accounts.{fresh}
use nest_fastify_boilerplate.Messaging.Consume.Locks.{
  IsBracketed, IsGranted, is_call_of_handler, handle-IsBracketed,
}
use nest_fastify_boilerplate.Messaging.Publisher.{publish}

-- The marker, whether the lock is free, and the messages that the broker took.
record Env : Type 0 where
  marker : Option ℕ
  free : Bool
  taken : ℕ

abbrev services : Services Env ℕ Unit
services = record {
  cache_get = λ k s. (returned s.marker, s);
  cache_set = λ k v ttl s. (returned tt, record s { marker = some v });
  acquire = λ k ttl s. (returned (if s.free then some tt else none), s);
  release = λ lock s. (returned true, s);
  publish = λ p s. (returned tt, record s { taken = suc s.taken });
  parse = λ key p. returned p;
  instant = λ s. "2026-01-01T00:00:00.000Z";
  number_of = λ s. none;
}

abbrev config : Config
config = record { exchange = "app"; max_retries = 3; idempotency_ttl = 86_400 }

abbrev mail : Params
mail = record { subscriber = "mail"; routing_key = "user.registered" }

abbrev msg : Message
msg = record { message_id = some "m1"; headers = none }

abbrev untouched : Env
untouched = record { marker = none; free = true; taken = 0 }

abbrev locked_out : Env
locked_out = record { marker = none; free = false; taken = 0 }

abbrev marked : Env
marked = record { marker = some 1; free = true; taken = 0 }

abbrev done : ℕ → Exec Env Unit
done p s = (returned tt, s)

put_back : (handle services config mail 5 msg done (fresh locked_out)).0 ≡ returned nack_requeue
unfolding handle present lock_and_process process
put_back = refl

handle-IsBracketed_example :
    IsBracketed (handle services config mail 5 msg done (fresh untouched)).1.calls
    × ((any is_call_of_handler (handle services config mail 5 msg done (fresh untouched)).1.calls
          ≡ false)
        ⊎ ((id : String) × (present msg.message_id ≡ some id) × IsGranted services id untouched))
handle-IsBracketed_example = handle-IsBracketed services config mail 5 msg done untouched

abbrev trace : Trace Env ℕ
trace = fresh untouched

abbrev failure : Thrown
failure = error "SMTP"

abbrev delays : List ℕ
delays = 5_000 ∷ 30_000 ∷ 300_000 ∷ []

abbrev to_mail : Subscription
to_mail = record { subscriber = "mail"; event = "user.registered" }

build_queues-HasTarget_example :
    All
      (HasTarget (build_queues "app" (exchange_names "app") subscriptions delays 5))
      (build_queues "app" (exchange_names "app") subscriptions delays 5)
build_queues-HasTarget_example =
    build_queues-HasTarget "app" (exchange_names "app") subscriptions delays 5

publications_reach_example :
    Reaches
      (build_queues "app" (exchange_names "app") subscriptions delays 5)
      (retry_publication services config mail 5 msg 1 failure).exchange
      (retry_publication services config mail 5 msg 1 failure).routing_key
    × Reaches
        (build_queues "app" (exchange_names "app") subscriptions delays 5)
        (dlq_publication services config "user.registered" 5 msg "SMTP" "").exchange
        (dlq_publication services config "user.registered" 5 msg "SMTP" "").routing_key
publications_reach_example =
    publications_reach services config to_mail subscriptions delays 5 5 msg 1 failure "SMTP" ""
      (Memᴰ.head refl) (omega arith) (omega arith)

abbrev publish_welcome : Exec Env Unit
publish_welcome =
    publish services.parse (λ s. "random") (λ s. 1000) services.publish "app" "user.registered" 5
      (record { message_id = some "m1"; request_id = none })
