-- ===== src/Redis/Cache/Tests.antt =====
-- A text in the cache, as it is.
use nest_fastify_boilerplate.Prelude.{
  ◌+◌, ◌*◌, String, ◌≡◌, refl, none, some, ltb, if◌then◌else◌, arith,
}
use nest_fastify_boilerplate.Effects.{Outcome, returned}
use nest_fastify_boilerplate.Redis.Memory.{memory, no_keys}
use nest_fastify_boilerplate.Redis.Cache.{Clocked, get, set}
use nest_fastify_boilerplate.Redis.Cache.Hits.{at, get-set}

abbrev encode : String → String
encode s = s

abbrev decode : String → Outcome String
decode s = returned s

abbrev empty : Clocked memory.State
empty = record { redis = no_keys; now = 1000 }

get-set_example :
    (get memory encode decode
      (some 300)
      "a"
      (at 2000 (set memory encode decode (some 300) "a" "x" none empty).1)).0
    ≡ returned (if ltb 2000 (1000 + 300 * 1000) then some "x" else none)
get-set_example = get-set memory encode decode (some 300) "a" "x" none empty 2000 (omega arith) refl
