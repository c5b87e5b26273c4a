-- ===== src/Consumers/Registration.antt =====
-- From a registration to the welcome mail: the hook of src/core/auth/auth.ts, the outbox and its relay,
-- the publisher, the consumer of src/modules/users/consumers and the queue of mails.
use nest_fastify_boilerplate.Prelude.{
  ℕ, String, ◌<>◌, ◌≡◌, refl, true, false, none, some, List, [], ◌∷◌, ◌==◌, get_elem?-Memᴰ, arith,
  ap, subst,
}
use nest_fastify_boilerplate.Effects.{Exec, returned, is_returned}
use nest_fastify_boilerplate.Outbox.Rows.{Row, Database}
use nest_fastify_boilerplate.Outbox.Repository.{enqueue}
use nest_fastify_boilerplate.Messaging.Constants.{exchange_names}
use nest_fastify_boilerplate.Messaging.Contracts.{UserRegistered, subscriptions}
use nest_fastify_boilerplate.Messaging.Payloads.{Payload, Schemas, registered, parse_contract}
use nest_fastify_boilerplate.Messaging.Message.{Message, Publication}
use nest_fastify_boilerplate.Messaging.Topology.{build_queues}
use nest_fastify_boilerplate.Messaging.Topology.Bound.{Reaches}
use nest_fastify_boilerplate.Messaging.Publisher.{publish}
use nest_fastify_boilerplate.Messaging.Delivery.{publish_lem}
use nest_fastify_boilerplate.Messaging.Consume.{
  Services, Config, Trace, Reply, asked_lock, asked_marker, handle, lock_and_process, process,
  on_error, to_retry_or_requeue, to_dlq_or_requeue, done_key, present, processing_lock_ttl_ms,
}
use nest_fastify_boilerplate.Messaging.Consume.Accounts.{fresh}
use nest_fastify_boilerplate.Messaging.Consume.Attempts.{redelivered}
use nest_fastify_boilerplate.Mail.{Queue, with_job, mail_options, enqueue_mail}
use nest_fastify_boilerplate.Auth.{Account, registered_user, registration}
use nest_fastify_boilerplate.Consumers.{
  handle_user_registered, welcome_mail, send_welcome, user_registered_params,
}

-- What the relay asks of the publisher for a row.
abbrev pub publish_row :
    {S : Type 0}
    → Schemas
    → (S → String)
    → (S → ℕ)
    → (Publication Payload → Exec S Unit)
    → String
    → Row Payload
    → Exec S Unit
publish_row schemas random_uuid clock send base row =
    publish (parse_contract schemas) random_uuid clock send base row.routing_key row.payload
      (record { message_id = some row.message_id; request_id = row.request_id })

-- The services of the consumer beside the queue of mails, with the contracts of the events.
module _ {S Q : Type 0} where
  abbrev beside_queue : {A : Type 0} → Exec S A → Exec (S × Q) A
  beside_queue m (s, q) = let (r, t) = m s in (r, (t, q))

  abbrev pub on_queue : {A : Type 0} → Exec Q A → Exec (S × Q) A
  on_queue m (s, q) = let (r, t) = m q in (r, (s, t))

module _ {S L Q : Type 0} where
  abbrev pub with_queue : Schemas → Services S Payload L → Services (S × Q) Payload L
  with_queue schemas services = record {
    cache_get = λ k. beside_queue (services.cache_get k);
    cache_set = λ k v ttl. beside_queue (services.cache_set k v ttl);
    acquire = λ k ttl. beside_queue (services.acquire k ttl);
    release = λ lock. beside_queue (services.release lock);
    publish = λ p. beside_queue (services.publish p);
    parse = parse_contract schemas;
    instant = λ (s, q). services.instant s;
    number_of = services.number_of;
  }

module _ {S L : Type 0} (queue : Queue) (schemas : Schemas) (services : Services S Payload L)
    (config : Config) where
  abbrev pub all_services : Services (S × queue.State) Payload L
  all_services = with_queue schemas services

  abbrev pub deliver : Payload → Message → Exec (Trace (S × queue.State) Payload) Reply
  deliver =
      handle_user_registered all_services config (λ mail id. on_queue (enqueue_mail queue mail id))

  pub process-jobs :
      (raw : Payload) (msg : Message) (id : String) (user : UserRegistered)
      (t : Trace (S × queue.State) Payload)
      → msg.message_id ≡ some id
      → is_returned (enqueue_mail queue (welcome_mail user) (some id) t.env.1).0 ≡ true
      → queue.jobs
          (process all_services config user_registered_params raw msg
            (send_welcome all_services config
              (λ mail i. on_queue (enqueue_mail queue mail i))
              msg.message_id)
            id
            (registered user)
            t).1.env.1
        ≡ with_job id "send" (welcome_mail user) (mail_options (some id)) (queue.jobs t.env.1)
  unfolding process on_error to_retry_or_requeue to_dlq_or_requeue enqueue_mail
  process-jobs raw msg id user t known ok =
      ground (
        arith,
        known,
        ok,
        queue.add-jobs "send" (welcome_mail user) (mail_options (some id)) t.env.1,
      )

  -- What the consumer does to the queue of mails where it was not here before and is granted the lock.
  pub deliver-jobs :
      (user : UserRegistered) (msg : Message) (id : String) (lock : L) (s : S) (q : queue.State)
      → msg.message_id ≡ some id
      → (id == "") ≡ false
      → schemas.user_registered_schema (registered user) ≡ returned user
      → (services.cache_get (done_key id) s).0 ≡ returned none
      → (services.acquire
          ("messaging:lock:" <> id)
          processing_lock_ttl_ms
          (services.cache_get (done_key id) s).1).0
        ≡ returned (some lock)
      → is_returned (enqueue_mail queue (welcome_mail user) (some id) q).0 ≡ true
      → queue.jobs (deliver (registered user) msg (fresh (s, q))).1.env.1
        ≡ with_job id "send" (welcome_mail user) (mail_options (some id)) (queue.jobs q)
  unfolding handle_user_registered handle present lock_and_process parse_contract
  deliver-jobs user msg id lock s q known named valid unmarked granted ok =
      let asked : S = (services.cache_get (done_key id) s).1 in
      let held : S = (services.acquire ("messaging:lock:" <> id) processing_lock_ttl_ms asked).1 in
      let t : Trace (S × queue.State) Payload = record {
        env = (held, q);
        calls =
            (asked_lock ("messaging:lock:" <> id), true) ∷ (asked_marker (done_key id), true) ∷ [];
      } in
      ground (
        arith,
        known,
        named,
        valid,
        unmarked,
        granted,
        process-jobs (registered user) msg id user t known ok,
      )

accepted :
    (schemas : Schemas) (raw : Payload) (user : UserRegistered)
    → schemas.user_registered_schema raw ≡ returned user
    → parse_contract schemas "user.registered" raw ≡ returned (registered user)
unfolding parse_contract
accepted schemas raw user h = ground (arith, h)

-- From a registration to the welcome mail. The row that the hook puts into the outbox, once the relay
-- publishes it and the contract accepts the user: one message is sent, under the row's message id,
-- and it reaches a queue of the topology. Where that message is delivered to the mail service for the
-- first time, is granted its lock, and the queue of mails takes the job: the queue has, under the
-- message id, a welcome mail to the user's address with its name or else its address, and no other
-- job is added, removed or changed, whatever else fails.
pub registration_mails :
    (D : Database Payload) (queue : Queue) (schemas : Schemas) {S L B : Type 0}
    (services : Services S Payload L) (config : Config) (random_uuid : B → String) (clock : B → ℕ)
    (send : Publication Payload → Exec B Unit) (delays : List ℕ) (limit : ℕ) (user : Account)
    (d : D.State) (row : Row Payload) (b : B) (lock : L) (s : S) (q : queue.State)
    → (enqueue D (registration user) d).0 ≡ returned row
    → (row.message_id == "") ≡ false
    → schemas.user_registered_schema row.payload ≡ returned (registered_user user)
    → (services.cache_get (done_key row.message_id) s).0 ≡ returned none
    → (services.acquire
        ("messaging:lock:" <> row.message_id)
        processing_lock_ttl_ms
        (services.cache_get (done_key row.message_id) s).1).0
      ≡ returned (some lock)
    → is_returned
        (enqueue_mail queue (welcome_mail (registered_user user)) (some row.message_id) q).0
      ≡ true
    → (p : Publication Payload) × (publish_row schemas random_uuid clock send config.exchange row b
        ≡ send p b)
      × Reaches
          (build_queues config.exchange (exchange_names config.exchange) subscriptions delays limit)
          p.exchange
          p.routing_key
      × (p.message_id ≡ some row.message_id)
      × (queue.jobs
            (deliver queue schemas services config p.payload (redelivered p) (fresh (s, q))).1.env.1
          ≡ with_job row.message_id "send"
              (welcome_mail (registered_user user))
              (mail_options (some row.message_id))
              (queue.jobs q))
unfolding enqueue
registration_mails D queue schemas services config random_uuid clock send delays limit user d row b
      lock s q enqueued named valid unmarked granted ok =
    let (same, _) = D.create-returned _ row d enqueued in
    let key : row.routing_key ≡ "user.registered" = ap (λ r. r.routing_key) same in
    let payload : row.payload ≡ registered (registered_user user) = ap (λ r. r.payload) same in
    let valid' : schemas.user_registered_schema (registered (registered_user user))
        ≡ returned (registered_user user) =
      subst (λ x. schemas.user_registered_schema x ≡ returned (registered_user user)) payload
        valid in
    let (p, sent, content, reached, id, _) =
      publish_lem (parse_contract schemas) random_uuid clock send config.exchange services config
        subscriptions delays limit _ row.payload (registered (registered_user user))
        (record { message_id = some row.message_id; request_id = row.request_id }) b
        (get_elem?-Memᴰ subscriptions 0 refl)
        (accepted schemas row.payload (registered_user user) valid) in
    (
      p,
      rw key sent,
      reached,
      id,
      rw content (
          deliver-jobs queue schemas services config (registered_user user) (redelivered p)
            row.message_id lock s q id named valid' unmarked granted ok),
    )
