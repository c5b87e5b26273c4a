-- ===== src/Redis/PubSub/Delivery.antt =====
-- Which handlers a message meets in src/core/redis/services/pubsub.service.ts.
use nest_fastify_boilerplate.Prelude.{
  String, ◌≡◌, refl, none, some, List, [], ◌∷◌, ◌++◌, ◌==◌, or_else, if◌then◌else◌, arith, eq_iff,
  eq_refl, Option-cases, inl, inr,
}
use nest_fastify_boilerplate.Effects.{Outcome, returned, ◌>>◌}
use nest_fastify_boilerplate.Redis.PubSub.{
  Connections, Handler, Handlers, PubSub, find, put, remove, deliver, on_message, subscribe,
  unsubscribe,
}

module _ {E T : Type 0} where
  pub find-put :
      (c d : String) (hs : List (Handler E T)) (m : Handlers E T)
      → find d (put c hs m) ≡ (if c == d then some hs else find d m)
  unfolding find put
  find-put c d hs [] = refl
  find-put c d hs ((b, gs) ∷ m) =
      ground (arith, eq_iff b c, eq_iff b d, eq_iff c d, find-put c d hs m)

  pub find-remove :
      (c d : String) (m : Handlers E T) → find d (remove c m) ≡ (if c == d then none else find d m)
  unfolding find remove
  find-remove c d [] = ground arith
  find-remove c d ((b, gs) ∷ m) =
      ground (arith, eq_iff b c, eq_iff b d, eq_iff c d, find-remove c d m)

  deliver-append :
      (hs : List (Handler E T)) (h : Handler E T) (m : T) (e : E)
      → deliver (hs ++ (h ∷ [])) m e ≡ (deliver hs m >> h m) e
  unfolding deliver
  deliver-append [] h m e = ground arith
  deliver-append (g ∷ hs) h m e = ground (arith, deliver-append hs h m (g m e).1)

  -- The handlers of a channel.
  abbrev pub listeners : {S : Type 0} → String → PubSub S E T → List (Handler E T)
  listeners c s = or_else (find c s.handlers) []

module _ (C : Connections) {E T : Type 0} where
  pub find-subscribe :
      (c d : String) (h : Handler E T) (s : PubSub C.State E T)
      → find d (subscribe C c h s).1.handlers
        ≡ (if c == d then some (listeners c s ++ (h ∷ [])) else find d s.handlers)
  unfolding subscribe
  find-subscribe c d h s = elim (Option-cases (find c s.handlers)) [
    | inl none_yet ↦ rw none_yet (find-put c d (h ∷ []) s.handlers)
    | inr (hs, found) ↦ rw found (find-put c d (hs ++ (h ∷ [])) s.handlers)
  ]

  pub find-unsubscribe :
      (c d : String) (s : PubSub C.State E T)
      → find d (unsubscribe C c s).1.handlers ≡ (if c == d then none else find d s.handlers)
  unfolding unsubscribe
  find-unsubscribe c d s = find-remove c d s.handlers

  env-subscribe :
      (c : String) (h : Handler E T) (s : PubSub C.State E T) → (subscribe C c h s).1.env ≡ s.env
  unfolding subscribe
  env-subscribe c h s = ground arith

  on_message_lem :
      (decode : String → Outcome T) (d payload : String) (m : T) (s : PubSub C.State E T)
      → decode payload ≡ returned m
      → ((on_message decode d payload s).0 ≡ (deliver (listeners d s) m s.env).0)
        × ((on_message decode d payload s).1.env ≡ (deliver (listeners d s) m s.env).1)
  unfolding on_message deliver
  on_message_lem decode d payload m s ok = elim (Option-cases (find d s.handlers)) [
    | inl none_yet ↦ rw none_yet (refl, refl)
    | inr (hs, found) ↦ rw found (rw ok (refl, refl))
  ]

  unheard :
      (decode : String → Outcome T) (c payload : String) (s : PubSub C.State E T)
      → on_message decode c payload (unsubscribe C c s).1 ≡ (returned tt, (unsubscribe C c s).1)
  unfolding on_message
  unheard decode c payload s = ground (arith, eq_refl c, find-unsubscribe c c s)

-- A message on a channel, once JSON has read it, is handed to the handlers of that channel in the
-- order in which they subscribed, up to the first that throws: a further subscription adds its
-- handler behind the others of its channel, to no other channel, and whether or not the connection
-- takes the subscription; after `unsubscribe` a message on that channel meets no handler.
pub on_message-subscribe :
    (C : Connections) {E T : Type 0} (decode : String → Outcome T) (c d payload : String)
    (h : Handler E T) (m : T) (s : PubSub C.State E T)
    → decode payload ≡ returned m
    → (((on_message decode d payload (subscribe C c h s).1).0
          ≡ (if c == d
              then (deliver (listeners d s) m >> h m) s.env
              else deliver (listeners d s) m s.env).0)
        × ((on_message decode d payload (subscribe C c h s).1).1.env
            ≡ (if c == d
                then (deliver (listeners d s) m >> h m) s.env
                else deliver (listeners d s) m s.env).1))
      × (on_message decode c payload (unsubscribe C c s).1 ≡ (returned tt, (unsubscribe C c s).1))
on_message-subscribe C decode c d payload h m s ok =
    let s' : PubSub _ _ _ = (subscribe C c h s).1 in
    let (result, env) = on_message_lem C decode d payload m s' ok in
    let found = find-subscribe C c d h s in
    let same = env-subscribe C c h s in
    let all = deliver-append (listeners c s) h m s.env in
    (
      (
        ground (arith, result, found, same, all, eq_iff c d),
        ground (arith, env, found, same, all, eq_iff c d),
      ),
      unheard C decode c payload s,
    )
