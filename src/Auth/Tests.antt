-- ===== src/Auth/Tests.antt =====
-- Better Auth with the environment of Config/Tests.antt, which sets no social provider.
use nest_fastify_boilerplate.Prelude.{◌≡◌, refl, true, all, not, leb, ◌==◌}
use nest_fastify_boilerplate.Effects.{returned}
use nest_fastify_boilerplate.Config.Text.{utf16_length}
use nest_fastify_boilerplate.Config.Validation.{is_set}
use nest_fastify_boilerplate.Config.Tests.{zod, message_of, prettify, raw, env, env_passes}
use nest_fastify_boilerplate.Auth.{AuthOptions, create_auth_options}
use nest_fastify_boilerplate.Auth.Providers.{by_id, create_auth_options_lem}

create_auth_options_lem_example :
    (options : AuthOptions) × (create_auth_options env ≡ returned options)
    × (leb 32 (utf16_length options.secret) ≡ true)
    × (options.social_providers.google ≡ by_id "GOOGLE_CLIENT_ID" "GOOGLE_CLIENT_SECRET" env)
    × (options.social_providers.facebook ≡ by_id "FACEBOOK_CLIENT_ID" "FACEBOOK_CLIENT_SECRET" env)
    × (is_set "GOOGLE_CLIENT_ID" env ≡ is_set "GOOGLE_CLIENT_SECRET" env)
    × (is_set "FACEBOOK_CLIENT_ID" env ≡ is_set "FACEBOOK_CLIENT_SECRET" env)
    × (all (λ s. not (s == "")) options.trusted_origins ≡ true)
    × (all (λ s. not (s == "")) options.admin.admin_user_ids ≡ true)
create_auth_options_lem_example =
    create_auth_options_lem zod message_of prettify raw env refl env_passes
