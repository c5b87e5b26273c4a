-- ===== src/Messaging/Topology/Bound.antt =====
-- Where messages go in the topology of src/core/messaging/topology.ts: every dead letter, every retry
-- and every rejected message finds a queue.
use mathlib.Core.List.{Memᴰ, append_assoc}
use nest_fastify_boilerplate.Prelude.{
  ℕ, zero, suc, ◌+◌, String, ◌≡◌, refl, Option, none, some, List, [], ◌∷◌, ◌++◌, All, arith,
  get_elem?, ap₂, subst,
}
use nest_fastify_boilerplate.Messaging.Constants.{Exchanges, retry_routing_key}
use nest_fastify_boilerplate.Messaging.Contracts.{Subscription}
use nest_fastify_boilerplate.Messaging.Topology.{
  QueueConfig, work_queue, retry_queue, retry_queues, dlq, subscription_queues, build_queues,
}

module _ {ℓ} {A : Type ℓ} where
  Memᴰ-append_right : {a : A} (xs : List A) {ys : List A} → Memᴰ a ys → Memᴰ a (xs ++ ys)
  Memᴰ-append_right [] m = m
  Memᴰ-append_right (x ∷ xs) m = Memᴰ.tail (Memᴰ-append_right xs m)

  Memᴰ-append_left : {a : A} {xs : List A} (ys : List A) → Memᴰ a xs → Memᴰ a (xs ++ ys)
  Memᴰ-append_left ys (Memᴰ.head e) = Memᴰ.head e
  Memᴰ-append_left ys (Memᴰ.tail m) = Memᴰ.tail (Memᴰ-append_left ys m)

  All-append {κ} : (P : A → Type κ) (xs ys : List A) → All P xs → All P ys → All P (xs ++ ys)
  All-append P [] ys h k = k
  All-append P (x ∷ xs) ys (p, h) k = (p, All-append P xs ys h k)

All-of_Memᴰ {κ} :
    (P : Subscription → Type κ) (subs : List Subscription)
    → ((s : Subscription) → Memᴰ s subs → P s)
    → All P subs
All-of_Memᴰ P [] h = tt
All-of_Memᴰ P (s ∷ subs) h = (h s (Memᴰ.head refl), All-of_Memᴰ P subs (λ t m. h t (Memᴰ.tail m)))

-- A queue is bound to the exchange under the routing key.
abbrev pub Reaches : List QueueConfig → String → String → Type 0
Reaches queues exchange key =
    (q : QueueConfig) × Memᴰ q queues × (q.exchange ≡ exchange) × (q.routing_key ≡ key)

abbrev Target : List QueueConfig → Option String → Option String → Type 0
Target queues (some exchange) (some key) = Reaches queues exchange key
Target queues none none = Unit
Target queues _ _ = ⊥

-- The queue drops its dead letters, or another queue gets them.
abbrev pub HasTarget : List QueueConfig → QueueConfig → Type 0
HasTarget queues q =
    Target queues q.arguments.dead_letter_exchange q.arguments.dead_letter_routing_key

module _ (ex : Exchanges) (limit : ℕ) (delays : List ℕ) where
  retry_queue-Memᴰ :
      (sub : Subscription) (ds : List ℕ) (start i j ttl : ℕ)
      → get_elem? ds i ≡ some ttl
      → start + i ≡ j
      → Memᴰ (retry_queue ex limit sub ttl j) (retry_queues ex limit sub start ds)
  unfolding retry_queues
  retry_queue-Memᴰ sub [] start i j ttl h e = absurd (ground arith)
  retry_queue-Memᴰ sub (d ∷ ds) start zero j ttl h e =
      let same : ttl ≡ d = ground arith in
      let here : j ≡ start = omega arith in Memᴰ.head (ap₂ (retry_queue ex limit sub) same here)
  retry_queue-Memᴰ sub (d ∷ ds) start (suc i) j ttl h e =
      Memᴰ.tail (retry_queue-Memᴰ sub ds (start + 1) i j ttl h (omega arith))

  abbrev sub_queues : Subscription → List QueueConfig
  sub_queues sub =
      work_queue ex limit sub ∷ (retry_queues ex limit sub 0 delays ++ (dlq ex limit sub ∷ []))

  -- The queues of one subscription stand among those of all.
  sub_queues-Memᴰ :
      {q : QueueConfig} {sub : Subscription} {subs : List Subscription}
      → Memᴰ q (sub_queues sub)
      → Memᴰ sub subs
      → Memᴰ q (subscription_queues ex limit delays subs)
  unfolding subscription_queues
  sub_queues-Memᴰ {q} m (Memᴰ.head {x = x} {xs = xs} e) = rw append_assoc at (
      Memᴰ-append_left (subscription_queues ex limit delays xs)
        (subst (λ s. Memᴰ q (sub_queues s)) e m))
  sub_queues-Memᴰ m (Memᴰ.tail s) =
      Memᴰ.tail (Memᴰ-append_right _ (Memᴰ.tail (sub_queues-Memᴰ m s)))

  module _ (base : String) {sub : Subscription} {subs : List Subscription}
      (listed : Memᴰ sub subs) where
    pub work_queue_declared :
        Memᴰ (work_queue ex limit sub) (build_queues base ex subs delays limit)
    unfolding build_queues
    work_queue_declared = Memᴰ.tail (sub_queues-Memᴰ (Memᴰ.head refl) listed)

    pub work_queue_reached : Reaches (build_queues base ex subs delays limit) ex.events sub.event
    unfolding work_queue
    work_queue_reached = (work_queue ex limit sub, work_queue_declared, refl, refl)

    pub dlq_reached : Reaches (build_queues base ex subs delays limit) ex.dlx sub.event
    unfolding build_queues dlq
    dlq_reached = (
      dlq ex limit sub,
      Memᴰ.tail (
          sub_queues-Memᴰ
            (Memᴰ.tail (Memᴰ-append_right (retry_queues ex limit sub 0 delays) (Memᴰ.head refl)))
            listed),
      refl,
      refl,
    )

  retry_queues-HasTarget :
      (queues : List QueueConfig) (sub : Subscription) (start : ℕ) (ds : List ℕ)
      → Reaches queues ex.events sub.event
      → All (HasTarget queues) (retry_queues ex limit sub start ds)
  unfolding retry_queues
  retry_queues-HasTarget queues sub start [] r = tt
  retry_queues-HasTarget queues sub start (d ∷ ds) r =
      (r, retry_queues-HasTarget queues sub (start + 1) ds r)

  subscription_queues-HasTarget :
      (queues : List QueueConfig) (subs : List Subscription)
      → All (λ s. Reaches queues ex.events s.event × Reaches queues ex.dlx s.event) subs
      → All (HasTarget queues) (subscription_queues ex limit delays subs)
  unfolding subscription_queues
  subscription_queues-HasTarget queues [] h = tt
  subscription_queues-HasTarget queues (s ∷ subs) ((w, d), h) = (
    d,
    All-append (HasTarget queues) (retry_queues ex limit s 0 delays) _
        (retry_queues-HasTarget queues s 0 delays w)
        (tt, subscription_queues-HasTarget queues subs h),
  )

-- Whatever the subscriptions, delays and names: the target of each queue's dead letters, where it has
-- one, is an exchange and routing key under which a queue of the same topology is bound.
pub build_queues-HasTarget :
    (base : String) (ex : Exchanges) (subs : List Subscription) (delays : List ℕ) (limit : ℕ)
    → All
        (HasTarget (build_queues base ex subs delays limit))
        (build_queues base ex subs delays limit)
unfolding build_queues
build_queues-HasTarget base ex subs delays limit = (
  tt,
  subscription_queues-HasTarget ex limit delays (build_queues base ex subs delays limit) subs (
      All-of_Memᴰ _ subs
        λ s m. (work_queue_reached ex limit delays base m, dlq_reached ex limit delays base m)),
)

-- For each subscription and each delay, a queue is bound to the retry exchange under that tier's key;
-- it keeps a message for that delay and passes it on to the events exchange, under the event.
pub build_queues_retry :
    (base : String) (ex : Exchanges) (subs : List Subscription) (delays : List ℕ) (limit : ℕ)
    {sub : Subscription} (tier : ℕ) {ttl : ℕ}
    → Memᴰ sub subs
    → get_elem? delays tier ≡ some ttl
    → (q : QueueConfig) × Memᴰ q (build_queues base ex subs delays limit)
      × (q.exchange ≡ ex.retry)
      × (q.routing_key ≡ retry_routing_key sub.subscriber sub.event tier)
      × (q.arguments.message_ttl ≡ some ttl)
      × (q.arguments.dead_letter_exchange ≡ some ex.events)
      × (q.arguments.dead_letter_routing_key ≡ some sub.event)
unfolding build_queues retry_queue
build_queues_retry base ex subs delays limit {sub} tier {ttl} listed h = (
  retry_queue ex limit sub ttl tier,
  Memᴰ.tail (
      sub_queues-Memᴰ ex limit delays
        (Memᴰ.tail (
          Memᴰ-append_left (dlq ex limit sub ∷ [])
            (retry_queue-Memᴰ ex limit delays sub delays 0 tier tier ttl h (omega arith))))
        listed),
  refl,
  refl,
  refl,
  refl,
  refl,
)
