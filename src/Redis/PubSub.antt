-- ===== src/Redis/PubSub.antt =====
-- src/core/redis/services/pubsub.service.ts: handlers of channels, behind one listener on the connection
-- that is subscribed to them.
pub mod Delivery
pub mod Sync
pub mod Tests
use nest_fastify_boilerplate.Prelude.{
  String, ◌≡◌, Bool, false, Option, none, some, List, [], ◌∷◌, ◌++◌, ◌==◌, ◌||◌, ◌&&◌, not,
  if◌then◌else◌,
}
use nest_fastify_boilerplate.Effects.{
  Outcome, Exec, returned, thrown, is_returned, pure, ◌>>=◌, ◌>>◌,
}

-- What is relied on of the two connections (ioredis): whether a command is answered or rejected, the
-- second is subscribed to the channels of the commands that were answered.
pub record Connections : Type 1 where
  pub State : Type 0
  pub is_subscribed : String → State → Bool
  pub publish : String → String → Exec State Unit
  pub subscribe : String → Exec State Unit
  pub unsubscribe : String → Exec State Unit
  pub publish-is_subscribed :
      (c text d : String) (s : State) → is_subscribed d (publish c text s).1 ≡ is_subscribed d s
  pub subscribe-is_subscribed :
      (c d : String) (s : State)
      → is_subscribed d (subscribe c s).1
        ≡ ((is_returned (subscribe c s).0 && (c == d)) || is_subscribed d s)
  pub unsubscribe-is_subscribed :
      (c d : String) (s : State)
      → is_subscribed d (unsubscribe c s).1
        ≡ (not (is_returned (unsubscribe c s).0 && (c == d)) && is_subscribed d s)

-- A handler may throw. `E` is what the handlers share.
abbrev pub Handler : Type 0 → Type 0 → Type 0
Handler E T = T → Exec E Unit

-- `handlers`, a Map
abbrev pub Handlers : Type 0 → Type 0 → Type 0
Handlers E T = List (String × List (Handler E T))

module _ {E T : Type 0} where
  -- `handlers.get(channel)`
  unfoldable pub find : String → Handlers E T → Option (List (Handler E T))
  find c [] = none
  find c ((d, hs) ∷ rest) = if d == c then some hs else find c rest

  -- `handlers.set(channel, hs)`, and what `push` leaves in the entry
  unfoldable pub put : String → List (Handler E T) → Handlers E T → Handlers E T
  put c hs [] = (c, hs) ∷ []
  put c hs ((d, gs) ∷ rest) = if d == c then (d, hs) ∷ rest else (d, gs) ∷ put c hs rest

  -- `handlers.delete(channel)`
  unfoldable pub remove : String → Handlers E T → Handlers E T
  remove c [] = []
  remove c ((d, hs) ∷ rest) = let left = remove c rest in if d == c then left else (d, hs) ∷ left

  -- `for (const handler of list) handler(message)`
  unfoldable pub deliver : List (Handler E T) → T → Exec E Unit
  deliver [] m = pure tt
  deliver (h ∷ hs) m = h m >> deliver hs m

pub record PubSub (S E T : Type 0) : Type 0 where
  pub handlers : Handlers E T
  pub connections : S
  pub env : E

module _ {S E T A : Type 0} where
  abbrev on_env : Exec E A → Exec (PubSub S E T) A
  on_env m s = let (r, e) = m s.env in (r, record s { env = e })

  abbrev on_connections : Exec S A → Exec (PubSub S E T) A
  on_connections m s = let (r, c) = m s.connections in (r, record s { connections = c })

-- `decode` is `JSON.parse`.
module _ {S E T : Type 0} (decode : String → Outcome T) where
  abbrev received : String → Option (List (Handler E T)) → Exec (PubSub S E T) Unit
  received payload none = pure tt
  received payload (some hs) = on_env (λ e. (decode payload, e)) >>= λ m. on_env (deliver hs m)

  -- The listener of `onModuleInit`.
  unfoldable pub on_message : String → String → Exec (PubSub S E T) Unit
  unfolding find
  on_message channel payload s = received payload (find channel s.handlers) s

module _ (C : Connections) {E T : Type 0} where
  -- `encode` is `JSON.stringify`.
  unfoldable pub publish : (T → String) → String → T → Exec (PubSub C.State E T) Unit
  publish encode channel message = on_connections (C.publish channel (encode message))

  abbrev push_or_subscribe :
      String → Handler E T → Option (List (Handler E T)) → Exec (PubSub C.State E T) Unit
  push_or_subscribe c h (some hs) s =
      (returned tt, record s { handlers = put c (hs ++ (h ∷ [])) s.handlers })
  push_or_subscribe c h none s =
      on_connections (C.subscribe c) (record s { handlers = put c (h ∷ []) s.handlers })

  unfoldable pub subscribe : String → Handler E T → Exec (PubSub C.State E T) Unit
  unfolding find
  subscribe c h s = push_or_subscribe c h (find c s.handlers) s

  unfoldable pub unsubscribe : String → Exec (PubSub C.State E T) Unit
  unfolding remove
  unsubscribe c s = on_connections (C.unsubscribe c) (record s { handlers = remove c s.handlers })
