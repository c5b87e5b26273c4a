-- ===== src/Messaging/Consume/Locks.antt =====
-- How `MessageConsumer.handle` uses the lock and the marker of a message.
use nest_fastify_boilerplate.Prelude.{
  ℕ, String, ◌≡◌, ◌⊎◌, Bool, true, false, none, some, List, [], ◌∷◌, any, arith, ◌<>◌,
}
use nest_fastify_boilerplate.Effects.{Exec, returned}
use nest_fastify_boilerplate.Messaging.Message.{Message}
use nest_fastify_boilerplate.Messaging.Consume.{
  Services, Config, Params, ack, Event, asked_marker, set_marker, asked_lock, released, handled,
  published, done_key, present, processing_lock_ttl_ms, to_retry_or_requeue, to_dlq_or_requeue,
  on_error, process, lock_and_process, handle,
}
use nest_fastify_boilerplate.Messaging.Consume.Accounts.{fresh}

module _ {P : Type 0} where
  abbrev pub is_call_of_handler : Event P × Bool → Bool
  is_call_of_handler (handled p, done) = true
  is_call_of_handler _ = false

  abbrev touches_lock : Event P → Bool
  touches_lock (handled p) = true
  touches_lock released = true
  touches_lock (set_marker k ttl) = true
  touches_lock _ = false

  -- No call of the handler, of `release`, nor of the write of the marker.
  abbrev pub IsUntouched : List (Event P × Bool) → Type 0
  IsUntouched calls = any (λ c. touches_lock c.0) calls ≡ false

  -- The calls, newest first, up to the one of the handler, which is made once and right after the lock
  -- was asked for: whether the marker is written or a message published in between does not matter.
  abbrev EndsInHandler : List (Event P × Bool) → Type 0
  EndsInHandler ((set_marker k ttl, d) ∷ calls) = EndsInHandler calls
  EndsInHandler ((published p, d) ∷ calls) = EndsInHandler calls
  EndsInHandler ((handled p, d) ∷ (asked_lock k, true) ∷ calls) = IsUntouched calls
  EndsInHandler _ = ⊥

  abbrev pub IsBracketed : List (Event P × Bool) → Type 0
  IsBracketed ((released, d) ∷ calls) = EndsInHandler calls
  IsBracketed calls = IsUntouched calls

-- The marker of this id was not there, and then the lock of this id was granted.
abbrev pub IsGranted : {S P L : Type 0} → Services S P L → String → S → Type 0
IsGranted {L = L} services id s =
    ((services.cache_get (done_key id) s).0 ≡ returned none)
    × ((lock : L) × (services.acquire ("messaging:lock:" <> id) processing_lock_ttl_ms
            (services.cache_get (done_key id) s).1).0
          ≡ returned (some lock))

-- On every path, returned or thrown: either the handler is not called and no lock is released, or the
-- handler is called once, right after the lock was asked for, and the release of the lock is the last
-- call of all. Where the handler is called, the message has an id, the marker of this id was not
-- there, and the lock of this id was granted.
pub handle-IsBracketed :
    {S P L : Type 0} (services : Services S P L) (config : Config) (params : Params) (raw : P)
    (msg : Message) (fn : P → Exec S Unit) (s : S)
    → IsBracketed (handle services config params raw msg fn (fresh s)).1.calls
      × ((any is_call_of_handler (handle services config params raw msg fn (fresh s)).1.calls
            ≡ false)
          ⊎ ((id : String) × (present msg.message_id ≡ some id) × IsGranted services id s))
unfolding handle lock_and_process process on_error to_retry_or_requeue to_dlq_or_requeue
handle-IsBracketed services config params raw msg fn s = (ground arith, ground arith)

-- The marker of a message that was handled is one for all its subscribers: whatever the subscriber
-- and its routing key, a message with a marker is acknowledged, and the handler is not called.
pub marker_skips :
    {S P L : Type 0} (services : Services S P L) (config : Config) (params : Params) (raw : P)
    (msg : Message) (fn : P → Exec S Unit) (s s' : S) (id : String) (marker : ℕ)
    → present msg.message_id ≡ some id
    → services.cache_get (done_key id) s ≡ (returned (some marker), s')
    → handle services config params raw msg fn (fresh s)
      ≡ (returned ack, record { env = s'; calls = (asked_marker (done_key id), true) ∷ [] })
unfolding handle
marker_skips services config params raw msg fn s s' id marker h cached = rw h (rw cached)
