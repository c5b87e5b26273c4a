-- ===== src/Bootstrap/Tests.antt =====
-- The API and the worker with the environment of Config/Tests.antt.
use nest_fastify_boilerplate.Prelude.{
  ℕ, String, ◌<>◌, ◌≡◌, refl, true, false, Option, none, some, List, [], ◌∷◌, or_else, length, ltb,
  ◌==◌, if◌then◌else◌,
}
use nest_fastify_boilerplate.Effects.{returned}
use nest_fastify_boilerplate.Config.Text.{trim, split_comma, utf16_length, is_size}
use nest_fastify_boilerplate.Config.Rules.{read, all_positive, non_empty, includes}
use nest_fastify_boilerplate.Config.Schema.{Env, fields, lookup, parse_field, parse_fields}
use nest_fastify_boilerplate.Config.Validation.{is_production, super_refine, validate_env}
use nest_fastify_boilerplate.Config.Tests.{zod, message_of, prettify, raw, env, env_passes}
use nest_fastify_boilerplate.Auth.{
  AuthOptions, auth_env_with, build_auth_options, auth_env, create_auth_options,
}
use nest_fastify_boilerplate.Http.BasicAuth.{
  done, bull_board_auth_hook, verify_basic_auth, strip_prefix, split_colon, basic_header,
}
use nest_fastify_boilerplate.Http.Filter.{error, catch}
use nest_fastify_boilerplate.Http.Interceptor.{Payload, value, intercept}
use nest_fastify_boilerplate.Bootstrap.{
  HeaderField, repeated, gen_req_id, log_req_id, any_origin, only, cors_options, worker_hook,
}
use nest_fastify_boilerplate.Bootstrap.RequestId.{
  request_of, AgreesOnSuccess, AgreesOnError, request_id_lem,
}
use nest_fastify_boilerplate.Bootstrap.Origins.{origins_in, cors_options_lem}
use nest_fastify_boilerplate.Bootstrap.Worker.{worker_hook_lem}

abbrev twice : HeaderField
twice = repeated ("r1" ∷ "r2" ∷ [])

abbrev five : Payload ℕ
five = value 5

abbrev no_name : ℕ → Option String
no_name n = none

abbrev as_is : String → List (String × String) → String
as_is key args = key

request_id_lem_example :
    (log_req_id (gen_req_id "u" twice).1 ≡ some (gen_req_id "u" twice).0)
    × AgreesOnSuccess
        (gen_req_id "u" twice).0
        (intercept true (request_of "u" twice (some "/users")) true "now" five)
    × AgreesOnError (gen_req_id "u" twice).0 (
        catch no_name as_is true true (request_of "u" twice (some "/users")) true "now" (error "e"))
request_id_lem_example =
    request_id_lem "u" twice (some "/users") "now" five no_name as_is true (error "e")

abbrev options : AuthOptions
options =
    build_auth_options
      (auth_env_with env "0123456789abcdef0123456789abcdef" "http://localhost:3000")

created : create_auth_options env ≡ returned options
unfolding create_auth_options auth_env lookup parse_fields fields parse_field read trim split_comma
    utf16_length is_size all_positive non_empty includes
created = refl

cors_options_lem_example :
    (options.trusted_origins ≡ origins_in (raw "ALLOWED_ORIGINS"))
    × ((cors_options env).origin ≡ (
        if ltb 0 (length (origins_in (raw "ALLOWED_ORIGINS")))
        then only (origins_in (raw "ALLOWED_ORIGINS"))
        else any_origin))
    × ((cors_options env).credentials ≡ true)
cors_options_lem_example =
    cors_options_lem zod message_of prettify raw env options env_passes created

-- The same in production, with a password.
abbrev raw_production : String → Option String
raw_production k =
    if k == "NODE_ENV"
    then some "production"
    else if k == "BULLBOARD_PASSWORD"
    then some "s3cret"
    else raw k

abbrev production_env : Env
production_env = (parse_fields zod message_of fields raw_production).1

production_passes : validate_env zod message_of prettify raw_production ≡ returned production_env
unfolding validate_env fields parse_fields parse_field read trim split_comma utf16_length is_size
    all_positive non_empty includes super_refine lookup
production_passes = refl

in_production : is_production production_env ≡ true
unfolding fields parse_fields parse_field read trim split_comma utf16_length is_size all_positive
    non_empty includes lookup
in_production = refl

abbrev decode : String → String
decode s = if s == "YWRtaW46czNjcmV0" then "admin:s3cret" else ""

let_on :
    worker_hook decode raw_production ("/admin/queues" <> "/api") (basic_header "YWRtaW46czNjcmV0")
    ≡ done
unfolding worker_hook bull_board_auth_hook verify_basic_auth strip_prefix split_colon
let_on = refl

worker_hook_lem_example :
    (password encoded : String) × (raw_production "BULLBOARD_PASSWORD" ≡ some password)
    × ((password == "") ≡ false)
    × (basic_header "YWRtaW46czNjcmV0" ≡ basic_header encoded)
    × (decode encoded ≡ or_else (raw_production "BULLBOARD_USER") "admin" <> ":" <> password)
worker_hook_lem_example =
    worker_hook_lem zod message_of prettify raw_production production_env decode "/api"
      (basic_header "YWRtaW46czNjcmV0") production_passes in_production let_on
