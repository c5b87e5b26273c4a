-- ===== src/Redis/PubSub/Tests.antt =====
-- Two handlers on connections that refuse the channel "locked".
use nest_fastify_boilerplate.Prelude.{
  String, ◌≡◌, refl, Bool, true, false, none, List, [], ◌∷◌, any, ◌==◌, not, ◌&&◌, ◌||◌,
  if◌then◌else◌, arith, eq_iff,
}
use nest_fastify_boilerplate.Effects.{Outcome, Exec, returned, thrown, error, is_returned, ◌>>◌}
use nest_fastify_boilerplate.Redis.PubSub.{
  Connections, Handler, PubSub, find, put, deliver, on_message, subscribe, unsubscribe,
}
use nest_fastify_boilerplate.Redis.PubSub.Delivery.{listeners, on_message-subscribe}
use nest_fastify_boilerplate.Redis.PubSub.Sync.{
  IsSynced, Run, here, next, subscribes, Run-IsSynced, subscribe-subscribe,
}

abbrev subscribed : String → List String → Bool
subscribed c s = any (λ d. d == c) s

unfoldable dropped : String → List String → List String
dropped c [] = []
dropped c (d ∷ s) = let left = dropped c s in if d == c then left else d ∷ left

abbrev accept : String → Exec (List String) Unit
accept c s = if c == "locked" then (thrown (error "NOPERM"), s) else (returned tt, c ∷ s)

abbrev leave : String → Exec (List String) Unit
leave c s = (returned tt, dropped c s)

subscribed-accept :
    (c d : String) (s : List String)
    → subscribed d (accept c s).1 ≡ ((is_returned (accept c s).0 && (c == d)) || subscribed d s)
subscribed-accept c d s = ground arith

subscribed-dropped :
    (c d : String) (s : List String)
    → subscribed d (dropped c s) ≡ (not (true && (c == d)) && subscribed d s)
unfolding dropped
subscribed-dropped c d [] = ground arith
subscribed-dropped c d (b ∷ s) =
    ground (arith, eq_iff b c, eq_iff b d, eq_iff c d, subscribed-dropped c d s)

abbrev lists : Connections
lists = record {
  State = List String;
  is_subscribed = subscribed;
  publish = λ c text s. (returned tt, s);
  subscribe = accept;
  unsubscribe = leave;
  publish-is_subscribed = λ c text d s. refl;
  subscribe-is_subscribed = subscribed-accept;
  unsubscribe-is_subscribed = subscribed-dropped;
}

-- A handler notes what it has seen.
abbrev note : String → Handler (List String) String
note who m seen = (returned tt, who ∷ m ∷ seen)

abbrev idle : PubSub (List String) (List String) String
idle = record { handlers = []; connections = []; env = [] }

abbrev read : String → Outcome String
read s = returned s

abbrev write : String → String
write s = s

abbrev one : PubSub (List String) (List String) String
one = (subscribe lists "news" (note "a") idle).1

on_message-subscribe_example :
    (((on_message read "news" "hi" (subscribe lists "news" (note "b") one).1).0
        ≡ ((deliver (listeners "news" one) "hi" >> note "b" "hi") one.env).0)
      × ((on_message read "news" "hi" (subscribe lists "news" (note "b") one).1).1.env
          ≡ ((deliver (listeners "news" one) "hi" >> note "b" "hi") one.env).1))
    × (on_message read "news" "hi" (unsubscribe lists "news" one).1
        ≡ (returned tt, (unsubscribe lists "news" one).1))
on_message-subscribe_example =
    on_message-subscribe lists read "news" "news" "hi" (note "b") "hi" one refl

one_subscribed : Run lists write read idle one
unfolding subscribe find put
one_subscribed = next (subscribes "news" (note "a")) here refl

Run-IsSynced_example : IsSynced lists write read one
unfolding find
Run-IsSynced_example = Run-IsSynced lists write read one_subscribed (λ c. refl)

no_handlers : find "locked" idle.handlers ≡ none
unfolding find
no_handlers = refl

rejected : (subscribe lists "locked" (note "a") idle).0 ≡ thrown (error "NOPERM")
unfolding subscribe find put
rejected = refl

subscribe-subscribe_example :
    ((subscribe lists "locked" (note "b") (subscribe lists "locked" (note "a") idle).1).0
      ≡ returned tt)
    × ((subscribe lists "locked"
          (note "b")
          (subscribe lists "locked" (note "a") idle).1).1.connections
        ≡ [])
    × (subscribed "locked"
          (subscribe lists "locked"
            (note "b")
            (subscribe lists "locked" (note "a") idle).1).1.connections
        ≡ false)
subscribe-subscribe_example =
    subscribe-subscribe lists "locked" (note "a") (note "b") idle (error "NOPERM") no_handlers refl
      rejected
