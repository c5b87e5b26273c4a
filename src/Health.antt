-- ===== src/Health.antt =====
-- src/core/health/health.controller.ts and src/core/messaging/messaging.health.ts: the health check, and its
-- answer in src/core/health/dto/health-response.dto.ts.
pub mod Tests
use nest_fastify_boilerplate.Prelude.{
  ℕ, ◌≤◌, ◌<◌, String, ◌≡◌, ◌↔◌, refl, Bool, true, false, ltb, min, ◌==◌, ◌||◌, if◌then◌else◌,
  arith, eq_iff, eq_refl,
}
use nest_fastify_boilerplate.Http.Json.{
  Json, string, object, no_members, member, Schema, string_type, ref, object_of, no_properties,
  property, conforms,
}

pub data State : Type 0 where
  up down : State

-- What becomes of `redis.ping()`: an answer or a rejection after some milliseconds, or nothing.
pub data Ping : Type 0 where
  answered : ℕ → String → Ping
  rejected : ℕ → Ping
  silent : Ping

abbrev pub ping_limit : ℕ
ping_limit = 500

-- `pingRedis`, with the milliseconds that it takes: of the ping and the timer the first one wins, and
-- the timer, which was set before, where both are due.
unfoldable pub ping_redis : Ping → State × ℕ
ping_redis (answered t reply) =
    if ltb t ping_limit then (if reply == "PONG" then up else down, t) else (down, ping_limit)
ping_redis (rejected t) = (down, min t ping_limit)
ping_redis silent = (down, ping_limit)

-- `MessagingHealth.status`
abbrev pub messaging_status : Bool → State
messaging_status true = up
messaging_status false = down

pub record Health : Type 0 where
  pub status : String
  pub timestamp : String
  pub redis : State
  pub rabbitmq : State

-- `HealthController.check`, with the milliseconds that it takes.
unfoldable pub check : String → Ping → Bool → Health × ℕ
unfolding ping_redis
check now ping connected =
    let (redis, time) = ping_redis ping in
    (
      record {
        status = "ok";
        timestamp = now;
        redis = redis;
        rabbitmq = messaging_status connected;
      },
      time,
    )

ping_redis-limit : (ping : Ping) → (ping_redis ping).1 ≤ ping_limit
unfolding ping_redis
ping_redis-limit (answered t reply) = ground arith
ping_redis-limit (rejected t) = ground arith
ping_redis-limit silent = ground arith

-- The answer 'PONG' in time.
abbrev pub IsPong : Ping → Type 0
IsPong (answered t reply) = (t < ping_limit) × (reply ≡ "PONG")
IsPong _ = ⊥

ping_redis-up : (ping : Ping) → ((ping_redis ping).0 ≡ up) ↔ IsPong ping
unfolding ping_redis
ping_redis-up (answered t reply) = (
  λ h. (ground (arith, h), ground (arith, h, eq_iff reply "PONG")),
  λ (soon, pong). ground (arith, soon, pong, eq_iff reply "PONG"),
)
ping_redis-up (rejected t) = (λ h. absurd (ground (arith, h)), λ h. absurd h)
ping_redis-up silent = (λ h. absurd (ground (arith, h)), λ h. absurd h)

messaging_status-up : (connected : Bool) → (messaging_status connected ≡ up) ↔ (connected ≡ true)
messaging_status-up true = (λ h. refl, λ h. refl)
messaging_status-up false = (λ h. absurd (ground (arith, h)), λ h. absurd (ground (arith, h)))

-- Whatever Redis does, the check answers 'ok', and within half a second; it says that Redis is up exactly
-- if it answered 'PONG' in that time, and that RabbitMQ is up exactly if its connection is.
pub check_lem :
    (now : String) (ping : Ping) (connected : Bool)
    → ((check now ping connected).1 ≤ ping_limit)
      × ((check now ping connected).0.status ≡ "ok")
      × (((check now ping connected).0.redis ≡ up) ↔ IsPong ping)
      × (((check now ping connected).0.rabbitmq ≡ up) ↔ (connected ≡ true))
unfolding check
check_lem now ping connected =
    (ping_redis-limit ping, refl, ping_redis-up ping, messaging_status-up connected)

abbrev state_json : State → Json
state_json up = string "up"
state_json down = string "down"

-- The value that the check returns, as JSON.
abbrev pub health_json : Health → Json
health_json h = object (
    member "status" (string h.status) (
      member "timestamp" (string h.timestamp) (
        member "redis" (state_json h.redis)
          (member "rabbitmq" (state_json h.rabbitmq) no_members))))

abbrev is_state : Json → Bool
is_state (string s) = (s == "up") || (s == "down")
is_state _ = false

-- `healthResponseSchema`
abbrev pub health_schema : Schema
health_schema = object_of (
    property "status" string_type
      (property "timestamp" string_type (property "redis" (ref is_state) no_properties)))

-- The answer of the check never is what its DTO documents: the DTO has no state of RabbitMQ.
pub check_undocumented :
    (now : String) (ping : Ping) (connected : Bool)
    → conforms health_schema (health_json (check now ping connected).0) ≡ false
unfolding conforms check
check_undocumented now ping connected = ground arith
