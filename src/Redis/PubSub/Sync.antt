-- ===== src/Redis/PubSub/Sync.antt =====
-- The handlers of src/core/redis/services/pubsub.service.ts against the channels that the connection is
-- subscribed to.
use nest_fastify_boilerplate.Prelude.{
  String, ◌≡◌, Bool, true, false, none, is_some, arith, eq_iff, eq_refl,
}
use nest_fastify_boilerplate.Effects.{Thrown, Outcome, Exec, returned, thrown, is_returned}
use nest_fastify_boilerplate.Redis.PubSub.{
  Connections, Handler, PubSub, find, on_message, publish, subscribe, unsubscribe,
}
use nest_fastify_boilerplate.Redis.PubSub.Delivery.{find-subscribe, find-unsubscribe}

-- The calls of the service, and the messages that arrive.
pub data Call (E T : Type 0) : Type 0 where
  subscribes : String → Handler E T → Call E T
  unsubscribes : String → Call E T
  publishes : String → T → Call E T
  receives : String → String → Call E T

module _ (C : Connections) {E T : Type 0} (encode : T → String) (decode : String → Outcome T) where
  abbrev pub perform : Call E T → Exec (PubSub C.State E T) Unit
  perform (subscribes c h) = subscribe C c h
  perform (unsubscribes c) = unsubscribe C c
  perform (publishes c m) = publish C encode c m
  perform (receives c payload) = on_message decode c payload

  abbrev is_answered : Call E T → Outcome (Unit {0}) → Bool
  is_answered (receives c payload) r = true
  is_answered _ r = is_returned r

  -- One call after the other, each of which is answered, except that a handler may throw.
  pub data Run (s : PubSub C.State E T) : PubSub C.State E T → Type 0 where
    here : Run s s
    next :
        {t : PubSub C.State E T} (call : Call E T)
        → Run s t
        → is_answered call (perform call t).0 ≡ true
        → Run s (perform call t).1

  -- The channels with handlers are those that the connection is subscribed to.
  abbrev pub IsSynced : PubSub C.State E T → Type 0
  IsSynced s = (c : String) → is_some (find c s.handlers) ≡ C.is_subscribed c s.connections

  subscribe-IsSynced :
      (c : String) (h : Handler E T) (s : PubSub C.State E T)
      → IsSynced s
      → is_returned (subscribe C c h s).0 ≡ true
      → IsSynced (subscribe C c h s).1
  unfolding subscribe
  subscribe-IsSynced c h s synced ok d = ground (
    arith,
    synced c,
    synced d,
    eq_iff c d,
    find-subscribe C c d h s,
    C.subscribe-is_subscribed c d s.connections,
  )

  unsubscribe-IsSynced :
      (c : String) (s : PubSub C.State E T)
      → IsSynced s
      → is_returned (unsubscribe C c s).0 ≡ true
      → IsSynced (unsubscribe C c s).1
  unfolding unsubscribe
  unsubscribe-IsSynced c s synced ok d = ground (
    arith,
    synced d,
    eq_iff c d,
    find-unsubscribe C c d s,
    C.unsubscribe-is_subscribed c d s.connections,
  )

  perform-IsSynced :
      (call : Call E T) (s : PubSub C.State E T)
      → IsSynced s
      → is_answered call (perform call s).0 ≡ true
      → IsSynced (perform call s).1
  unfolding publish on_message
  perform-IsSynced (subscribes c h) s synced ok d = subscribe-IsSynced c h s synced ok d
  perform-IsSynced (unsubscribes c) s synced ok d = unsubscribe-IsSynced c s synced ok d
  perform-IsSynced (publishes c m) s synced ok d =
      ground (arith, synced d, C.publish-is_subscribed c (encode m) d s.connections)
  perform-IsSynced (receives c payload) s synced ok d = ground (arith, synced d)

-- As long as Redis answers each command, whatever handlers throw: after any calls and messages the
-- channels that have handlers are exactly those that the connection is subscribed to.
pub Run-IsSynced :
    (C : Connections) {E T : Type 0} (encode : T → String) (decode : String → Outcome T)
    {s t : PubSub C.State E T}
    → Run C encode decode s t
    → IsSynced C encode decode s
    → IsSynced C encode decode t
Run-IsSynced C encode decode here synced = synced
Run-IsSynced C encode decode (next {t} call run ok) synced =
    perform-IsSynced C encode decode call t (Run-IsSynced C encode decode run synced) ok

-- Where the first subscription of a channel is rejected, the service does not ask again: a second
-- `subscribe` of the channel is answered without a command, and the connection is not subscribed.
pub subscribe-subscribe :
    (C : Connections) {E T : Type 0} (c : String) (h g : Handler E T) (s : PubSub C.State E T)
    (e : Thrown)
    → find c s.handlers ≡ none
    → C.is_subscribed c s.connections ≡ false
    → (subscribe C c h s).0 ≡ thrown e
    → ((subscribe C c g (subscribe C c h s).1).0 ≡ returned tt)
      × ((subscribe C c g (subscribe C c h s).1).1.connections ≡ (C.subscribe c s.connections).1)
      × (C.is_subscribed c (subscribe C c g (subscribe C c h s).1).1.connections ≡ false)
unfolding subscribe
subscribe-subscribe C c h g s e missing silent rejected = ground (
  arith,
  missing,
  silent,
  rejected,
  eq_refl c,
  find-subscribe C c c h s,
  C.subscribe-is_subscribed c c s.connections,
)
