-- ===== src/Messaging/Consume/Markers.antt =====
-- The state in which `MessageConsumer.handle` leaves the services once it has written the marker.
use nest_fastify_boilerplate.Prelude.{
  ℕ, String, ◌≡◌, refl, true, false, Option, none, some, [], ◌∷◌, arith, ◌<>◌,
}
use nest_fastify_boilerplate.Effects.{
  Outcome, Exec, returned, thrown, error, zod_error, app_exception, non_error,
}
use nest_fastify_boilerplate.Messaging.Message.{Message}
use nest_fastify_boilerplate.Messaging.Consume.{
  Services, Config, Params, Event, Trace, done_key, present, processing_lock_ttl_ms,
  to_retry_or_requeue, to_dlq_or_requeue, on_error, process, lock_and_process, handle,
}
use nest_fastify_boilerplate.Messaging.Consume.Accounts.{fresh, did_mark}

module _ {S P L : Type 0} (services : Services S P L) (config : Config) (params : Params) (raw : P)
    (msg : Message) (fn : P → Exec S Unit) where
  abbrev mark : String → S → S
  mark id s = (services.cache_set (done_key id) 1 config.idempotency_ttl s).1

  process-did_mark :
      (id : String) (payload : P) (t : Trace S P)
      → did_mark t.calls ≡ false
      → did_mark (process services config params raw msg fn id payload t).1.calls ≡ true
      → (process services config params raw msg fn id payload t).1.env
        ≡ mark id (fn payload t.env).1
  unfolding process on_error to_retry_or_requeue to_dlq_or_requeue
  process-did_mark id payload t before after = ground arith

  -- The marker was written, and then a lock was released.
  abbrev pub IsMarked : String → S → Type 0
  IsMarked id s = (lock : L) × (before : S) × (s ≡ (services.release lock (mark id before)).1)

  lock_and_process-did_mark :
      (id : String) (payload : P) (t : Trace S P)
      → did_mark t.calls ≡ false
      → did_mark (lock_and_process services config params raw msg fn id payload t).1.calls ≡ true
      → IsMarked id (lock_and_process services config params raw msg fn id payload t).1.env
  unfolding lock_and_process
  lock_and_process-did_mark id payload t before after =
      by_answer (services.acquire ("messaging:lock:" <> id) processing_lock_ttl_ms t.env) refl
    where
      by_answer :
          (r : Outcome (Option L) × S)
          → services.acquire ("messaging:lock:" <> id) processing_lock_ttl_ms t.env ≡ r
          → IsMarked id (lock_and_process services config params raw msg fn id payload t).1.env
      by_answer (thrown e, s) h = absurd (ground arith)
      by_answer (returned none, s) h = absurd (ground arith)
      by_answer (returned (some lock), s) h =
          let granted : Trace S P = record {
            env = s;
            calls = (Event.asked_lock ("messaging:lock:" <> id), true) ∷ t.calls;
          } in
          (lock, (fn payload s).1, ground (arith, process-did_mark id payload granted))

  pub handle-did_mark :
      (id : String) (s : S)
      → present msg.message_id ≡ some id
      → did_mark (handle services config params raw msg fn (fresh s)).1.calls ≡ true
      → IsMarked id (handle services config params raw msg fn (fresh s)).1.env
  unfolding handle to_dlq_or_requeue
  handle-did_mark id s known after =
      by_marker (services.cache_get (done_key id) s) (services.parse params.routing_key raw) refl
        refl
    where
      by_marker :
          (r : Outcome (Option ℕ) × S) (p : Outcome P)
          → services.cache_get (done_key id) s ≡ r
          → services.parse params.routing_key raw ≡ p
          → IsMarked id (handle services config params raw msg fn (fresh s)).1.env
      by_marker (thrown e, s') p h k = absurd (ground arith)
      by_marker (returned (some m), s') p h k = absurd (ground arith)
      by_marker (returned none, s') (thrown (error m)) h k = absurd (ground arith)
      by_marker (returned none, s') (thrown (zod_error m issues)) h k = absurd (ground arith)
      by_marker (returned none, s') (thrown (app_exception e)) h k = absurd (ground arith)
      by_marker (returned none, s') (thrown (non_error m)) h k = absurd (ground arith)
      by_marker (returned none, s') (returned payload) h k =
          let asked : Trace S P = record {
            env = s';
            calls = (Event.asked_marker (done_key id), true) ∷ [];
          } in
          let same : handle services config params raw msg fn (fresh s)
              ≡ lock_and_process services config params raw msg fn id payload asked =
            ground arith in
          rw same (lock_and_process-did_mark id payload asked refl (ground arith))
