-- ===== src/Messaging/Consume/Accounts.antt =====
-- What `MessageConsumer.handle` has done by the time it answers the broker, whatever the services do.
use nest_fastify_boilerplate.Prelude.{
  ℕ, some, ◌==◌, ◌&&◌, String, ◌≡◌, ◌⊎◌, Bool, true, false, List, [], ◌∷◌, any, arith,
}
use nest_fastify_boilerplate.Effects.{Exec, returned}
use nest_fastify_boilerplate.Messaging.Constants.{exchange_names}
use nest_fastify_boilerplate.Messaging.Message.{Message}
use nest_fastify_boilerplate.Messaging.Consume.{
  Services, Config, Params, nack_requeue, Event, asked_marker, set_marker, handled, published,
  Trace, done_key, to_retry_or_requeue, to_dlq_or_requeue, on_error, process, lock_and_process,
  handle,
}

module _ {P : Type 0} where
  abbrev is_handled : Event P × Bool → Bool
  is_handled (handled p, done) = done
  is_handled _ = false

  abbrev is_marked : Event P × Bool → Bool
  is_marked (set_marker k ttl, done) = done
  is_marked _ = false

  abbrev is_published : Event P × Bool → Bool
  is_published (published p, done) = done
  is_published _ = false

  abbrev is_marked_as : String → Event P × Bool → Bool
  is_marked_as key (set_marker k ttl, done) = (k == key) && done
  is_marked_as key _ = false

  -- The marker of this message was written.
  abbrev pub did_mark_as : String → List (Event P × Bool) → Bool
  did_mark_as id = any (is_marked_as (done_key id))

  -- The handler returned, the marker was written, a publication was confirmed.
  abbrev pub did_handle : List (Event P × Bool) → Bool
  did_handle = any is_handled

  abbrev pub did_mark : List (Event P × Bool) → Bool
  did_mark = any is_marked

  abbrev pub did_publish : List (Event P × Bool) → Bool
  did_publish = any is_published

-- No call was made yet.
abbrev pub fresh : {S P : Type 0} → S → Trace S P
fresh s = record { env = s; calls = [] }

-- A publication stands for the message: it carries its id, and goes to the retry or the dead-letter
-- exchange.
abbrev pub StandsFor : {P : Type 0} → Config → Message → Event P × Bool → Type 0
StandsFor config msg (published p, done) =
    (p.message_id ≡ msg.message_id)
    × ((p.exchange ≡ (exchange_names config.exchange).retry)
        ⊎ (p.exchange ≡ (exchange_names config.exchange).dlx))
StandsFor config msg _ = Unit

-- What an acknowledged message comes to, by the calls that were made: `Named` says which ids are the
-- message's.
abbrev AccountsBy :
    {S P L : Type 0} → Services S P L → S → (String → Type 0) → List (Event P × Bool) → Type 0
AccountsBy services s Named calls =
    ((id : String) × (marker : ℕ) × Named id
      × ((services.cache_get (done_key id) s).0 ≡ returned (some marker))
      × (calls ≡ (asked_marker (done_key id), true) ∷ []))
    ⊎ ((id : String) × Named id × (did_handle calls ≡ true) × (did_mark_as id calls ≡ true))
    ⊎ (did_publish calls ≡ true)

-- The message's id, which is not empty.
abbrev pub IsIdOf : Message → String → Type 0
IsIdOf msg id = (msg.message_id ≡ some id) × ((id == "") ≡ false)

abbrev pub IsAccounted :
    {S P L : Type 0} → Services S P L → Message → S → List (Event P × Bool) → Type 0
IsAccounted services msg s calls = AccountsBy services s (IsIdOf msg) calls

module _ {S P L : Type 0} (services : Services S P L) (config : Config) (params : Params) (raw : P)
    (msg : Message) (fn : P → Exec S Unit) (s : S) where
  abbrev calls_of : List (Event P × Bool)
  calls_of = (handle services config params raw msg fn (fresh s)).1.calls

-- A message that is put back into its queue was neither marked as done nor published elsewhere.
pub nack_keeps :
    {S P L : Type 0} (services : Services S P L) (config : Config) (params : Params) (raw : P)
    (msg : Message) (fn : P → Exec S Unit) (s : S)
    → (handle services config params raw msg fn (fresh s)).0 ≡ returned nack_requeue
    → (did_mark (handle services config params raw msg fn (fresh s)).1.calls ≡ false)
      × (did_publish (handle services config params raw msg fn (fresh s)).1.calls ≡ false)
unfolding handle lock_and_process process on_error to_retry_or_requeue to_dlq_or_requeue
nack_keeps services config params raw msg fn s h = ground arith
