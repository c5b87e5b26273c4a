-- ===== src/Logger/Tests.antt =====
-- The logger with the environment of Config/Tests.antt, and a warning.
use nest_fastify_boilerplate.Prelude.{
  String, ◌<>◌, ◌≡◌, refl, true, [], ◌∷◌, ◌++◌, ◌&&◌, leb, if◌then◌else◌,
}
use nest_fastify_boilerplate.Config.Validation.{is_production}
use nest_fastify_boilerplate.Config.Tests.{zod, message_of, prettify, raw, env, env_passes}
use nest_fastify_boilerplate.Logger.{
  console_target, one_if, roll_target, level_of, params_of, http_logger,
}
use nest_fastify_boilerplate.Logger.Levels.{
  is_level, receivers, reaches, threshold, http_logger_lem,
}

abbrev join : String → String → String
join dir name = dir <> "/" <> name

http_logger_lem_example :
    (is_level (level_of env) ≡ true)
    × (receivers (http_logger join env) 40 ≡ (
        if reaches 40 (threshold (level_of env))
        then console_target (is_production env) (level_of env)
          ∷ (one_if (params_of env).file_enabled (
                roll_target join
                  (params_of env).dir
                  "app"
                  (level_of env)
                  (params_of env).max_days
                  (params_of env).max_size)
              ++ one_if ((params_of env).error_file_enabled && leb 50 40) (
                  roll_target join
                    (params_of env).dir
                    "error"
                    "error"
                    (params_of env).max_days
                    (params_of env).max_size))
        else []))
http_logger_lem_example = http_logger_lem zod message_of prettify raw env join 40 refl env_passes
