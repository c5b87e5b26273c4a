-- ===== src/Redis/RateLimit/Tests.antt =====
-- Three hits of a limit of two.
use nest_fastify_boilerplate.Prelude.{◌≡◌, refl, List, [], ◌∷◌, arith}
use nest_fastify_boilerplate.Redis.RateLimit.{rate_limit}
use nest_fastify_boilerplate.Redis.RateLimit.Commands.{above, without, insert}
use nest_fastify_boilerplate.Redis.RateLimit.Memory.{sorted_sets, no_sets}
use nest_fastify_boilerplate.Redis.RateLimit.Window.{recent, recent_members}
use nest_fastify_boilerplate.Redis.RateLimit.Limit.{
  Hit, History, IsCounted, AreFresh, respond, run, run-IsCounted,
}

abbrev first_day : History sorted_sets "rl:a" 2 1000
first_day = record { state = no_sets; now = 5000; grants = [] }

abbrev three_hits : List Hit
three_hits =
    record { later = 1; member = "5001:a" }
    ∷ record { later = 10; member = "5011:b" }
    ∷ record { later = 10; member = "5021:c" }
    ∷ []

two_allowed : (run sorted_sets "rl:a" 2 1000 three_hits first_day).grants ≡ 5011 ∷ 5001 ∷ []
unfolding run respond rate_limit above without insert
two_allowed = refl

three_fresh : AreFresh sorted_sets "rl:a" 2 1000 three_hits first_day
unfolding respond rate_limit above without insert
three_fresh = (refl, (refl, (refl, tt)))

first_day-IsCounted : IsCounted sorted_sets "rl:a" 2 1000 first_day
unfolding recent recent_members
first_day-IsCounted = record { covers = λ t le. omega arith; past = tt; limited = tt }

run-IsCounted_example :
    IsCounted sorted_sets "rl:a" 2 1000 (run sorted_sets "rl:a" 2 1000 three_hits first_day)
run-IsCounted_example =
    run-IsCounted sorted_sets "rl:a" 2 1000 three_hits first_day first_day-IsCounted three_fresh
