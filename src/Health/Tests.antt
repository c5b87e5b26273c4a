-- ===== src/Health/Tests.antt =====
-- The health check with a Redis that answers at once, and RabbitMQ away.
use nest_fastify_boilerplate.Prelude.{◌≤◌, ◌≡◌, ◌↔◌, true, false}
use nest_fastify_boilerplate.Health.{up, Ping, answered, ping_limit, check, IsPong, check_lem}

abbrev pong : Ping
pong = answered 3 "PONG"

check_lem_example :
    ((check "now" pong false).1 ≤ ping_limit)
    × ((check "now" pong false).0.status ≡ "ok")
    × (((check "now" pong false).0.redis ≡ up) ↔ IsPong pong)
    × (((check "now" pong false).0.rabbitmq ≡ up) ↔ (false ≡ true))
check_lem_example = check_lem "now" pong false
