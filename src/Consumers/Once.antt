-- ===== src/Consumers/Once.antt =====
-- A message of a registration that the consumer of src/modules/users/consumers is given more than once.
use nest_fastify_boilerplate.Prelude.{
  String, ◌<>◌, ◌≡◌, refl, true, false, Option, none, some, List, [], ◌∷◌, ◌==◌, arith, eq_refl,
  ◌∙◌, ap,
}
use nest_fastify_boilerplate.Effects.{returned, is_returned}
use nest_fastify_boilerplate.Messaging.Contracts.{UserRegistered}
use nest_fastify_boilerplate.Messaging.Payloads.{Payload, Schemas, registered, parse_contract}
use nest_fastify_boilerplate.Messaging.Message.{Message, Headers}
use nest_fastify_boilerplate.Messaging.Consume.{
  Services, Config, Trace, asked_lock, asked_marker, handle, lock_and_process, to_dlq_or_requeue,
  done_key, present, processing_lock_ttl_ms,
}
use nest_fastify_boilerplate.Messaging.Consume.Accounts.{fresh}
use nest_fastify_boilerplate.Mail.{
  Queue, Job, SendMailJob, JobOptions, has_job, with_job, mail_options, enqueue_mail,
}
use nest_fastify_boilerplate.Consumers.{handle_user_registered, welcome_mail}
use nest_fastify_boilerplate.Consumers.Registration.{deliver, process-jobs, deliver-jobs}

has_job-with_job :
    (id name : String) (mail : SendMailJob) (options : JobOptions) (jobs : List Job)
    → has_job id (with_job id name mail options jobs) ≡ true
has_job-with_job id name mail options jobs = ground (arith, eq_refl id)

module _ {S L : Type 0} (queue : Queue) (schemas : Schemas) (services : Services S Payload L)
    (config : Config) where
  -- A delivery of a message whose mail is in the queue changes no job.
  settled :
      (user : UserRegistered) (msg : Message) (id : String) (s : S) (q : queue.State)
      → msg.message_id ≡ some id
      → schemas.user_registered_schema (registered user) ≡ returned user
      → has_job id (queue.jobs q) ≡ true
      → is_returned (enqueue_mail queue (welcome_mail user) (some id) q).0 ≡ true
      → queue.jobs
          (deliver queue schemas services config (registered user) msg (fresh (s, q))).1.env.1
        ≡ queue.jobs q
  unfolding handle_user_registered handle present lock_and_process parse_contract to_dlq_or_requeue
  settled user msg id s q known valid there ok =
      let asked : S = (services.cache_get (done_key id) s).1 in
      let held : S = (services.acquire ("messaging:lock:" <> id) processing_lock_ttl_ms asked).1 in
      let t : Trace (S × queue.State) Payload = record {
        env = (held, q);
        calls =
            (asked_lock ("messaging:lock:" <> id), true) ∷ (asked_marker (done_key id), true) ∷ [];
      } in
      ground (
        arith,
        known,
        valid,
        there,
        process-jobs queue schemas services config (registered user) msg id user t known ok,
      )

  -- The message is delivered again, each time with the other services in some state and with the
  -- headers that it has by then.
  abbrev pub deliver_again :
      UserRegistered → String → List (S × Option Headers) → queue.State → queue.State
  deliver_again user id [] q = q
  deliver_again user id ((s, headers) ∷ later) q =
      deliver_again user id later
        (deliver queue schemas services config (registered user)
          (record { message_id = some id; headers = headers }) (fresh (s, q))).1.env.1

  deliver_again-jobs :
      (user : UserRegistered) (id : String) (later : List (S × Option Headers)) (q : queue.State)
      → schemas.user_registered_schema (registered user) ≡ returned user
      → ((q' : queue.State)
          → is_returned (enqueue_mail queue (welcome_mail user) (some id) q').0 ≡ true)
      → has_job id (queue.jobs q) ≡ true
      → queue.jobs (deliver_again user id later q) ≡ queue.jobs q
  deliver_again-jobs user id [] q valid takes there = refl
  deliver_again-jobs user id ((s, headers) ∷ later) q valid takes there =
      let msg : Message = record { message_id = some id; headers = headers } in
      let same = settled user msg id s q refl valid there (takes q) in
      deliver_again-jobs user id later
        (deliver queue schemas services config (registered user) msg (fresh (s, q))).1.env.1 valid
        takes (ap (has_job id) same ∙ there)
      ∙ same

  -- The message of a registration is delivered to the mail service for the first time, under a message
  -- id, with its payload valid, its marker missing and its lock granted; the queue of mails takes each
  -- job that is enqueued and keeps the jobs that it has. After that delivery and however many
  -- more, with whatever headers and in whatever state the cache and the locks are then (an expired
  -- marker, a failing Redis, a lost lock), the queue has the jobs from before and, under the message
  -- id, one welcome mail, unless a job of that id was there.
  pub mails_once :
      (user : UserRegistered) (id : String) (lock : L) (s : S) (headers : Option Headers)
      (later : List (S × Option Headers)) (q : queue.State)
      → (id == "") ≡ false
      → schemas.user_registered_schema (registered user) ≡ returned user
      → (services.cache_get (done_key id) s).0 ≡ returned none
      → (services.acquire
          ("messaging:lock:" <> id)
          processing_lock_ttl_ms
          (services.cache_get (done_key id) s).1).0
        ≡ returned (some lock)
      → ((q' : queue.State)
          → is_returned (enqueue_mail queue (welcome_mail user) (some id) q').0 ≡ true)
      → queue.jobs (deliver_again user id ((s, headers) ∷ later) q)
        ≡ with_job id "send" (welcome_mail user) (mail_options (some id)) (queue.jobs q)
  mails_once user id lock s headers later q named valid unmarked granted takes =
      let msg : Message = record { message_id = some id; headers = headers } in
      let first =
        deliver-jobs queue schemas services config user msg id lock s q refl named valid unmarked
          granted (takes q) in
      deliver_again-jobs user id later
        (deliver queue schemas services config (registered user) msg (fresh (s, q))).1.env.1 valid
        takes
        (ap (has_job id) first
          ∙ has_job-with_job id "send" (welcome_mail user) (mail_options (some id)) (queue.jobs q))
      ∙ first
