-- ===== src/Config/Tests.antt =====
-- src/core/config on an environment that sets what must be set.
use Prim.Native.Char.{code}
use Prim.Native.String.{[], ◌∷◌}
use mathlib.Core.List.{Memᴰ}
use nest_fastify_boilerplate.Prelude.{
  ℕ, ◌+◌, ◌-◌, ◌*◌, String, ◌≡◌, refl, true, false, Option, none, some, List, [], ◌∷◌, leb, ◌&&◌,
  ◌==◌, if◌then◌else◌,
}
use nest_fastify_boilerplate.Effects.{Issue, returned}
use nest_fastify_boilerplate.Config.Text.{trim, split_comma, utf16_length, is_size}
use nest_fastify_boilerplate.Config.Rules.{
  Rule, Value, Zod, Number, natural, no_integer, integer, read, all_positive, non_empty, includes,
}
use nest_fastify_boilerplate.Config.Schema.{
  Field, Env, field, default_to, lookup, fields, parse_field, parse_fields,
}
use nest_fastify_boilerplate.Config.Schema.Reading.{is_read}
use nest_fastify_boilerplate.Config.Validation.{super_refine, validate_env}
use nest_fastify_boilerplate.Config.Validation.Laws.{IsCoherent, validate_env_sound}

-- a text of digits, from the left
abbrev digits : ℕ → String → Number
digits n [] = natural n
digits n (c ∷ s) =
    let rest = digits (n * 10 + (code c - b'0')) s in
    if leb b'0' (code c) && leb (code c) b'9' then rest else no_integer

abbrev pub zod : Zod
zod = record {
  number_of = digits 0;
  is_url = λ s. true;
  stringbool_of = λ s. if s == "true" then some true else if s == "false" then some false else none;
}

abbrev pub message_of : Rule → Option String → String
message_of r s = "Invalid input"

abbrev pub prettify : List Issue → String
prettify issues = "Invalid input"

abbrev pub raw : String → Option String
raw k =
    if k == "DATABASE_URL"
    then some "postgresql://localhost/app"
    else if k == "RABBITMQ_URL"
    then some "amqp://localhost"
    else if k == "BETTER_AUTH_SECRET"
    then some "0123456789abcdef0123456789abcdef"
    else if k == "RABBITMQ_MAX_RETRIES"
    then some "2"
    else if k == "RABBITMQ_RETRY_DELAYS_MS"
    then some "100, 200"
    else none

abbrev pub env : Env
env = (parse_fields zod message_of fields raw).1

fields_pass : (parse_fields zod message_of fields raw).0 ≡ []
unfolding fields parse_fields parse_field read trim split_comma utf16_length is_size all_positive
    non_empty includes
fields_pass = refl

pub env_passes : validate_env zod message_of prettify raw ≡ returned env
unfolding validate_env fields parse_fields parse_field read trim split_comma utf16_length is_size
    all_positive non_empty includes super_refine lookup
env_passes = refl

abbrev port : Field
port = field "PORT" (integer 1) (default_to (Value.number 3000))

port_is_listed : Memᴰ port fields
unfolding fields
port_is_listed = Memᴰ.tail (Memᴰ.head refl)

validate_env_sound_example : (is_read zod port (lookup "PORT" env) ≡ true) × IsCoherent env
validate_env_sound_example =
    validate_env_sound zod message_of prettify raw env port refl env_passes port_is_listed
