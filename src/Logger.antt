-- ===== src/Logger.antt =====
-- src/core/logger/logger.module.ts: where log lines go. What is hidden in them, REDACT_PATHS, is a list.
pub mod Levels
pub mod Tests
use nest_fastify_boilerplate.Prelude.{
  ℕ, String, Bool, true, false, Option, none, some, List, [], ◌∷◌, ◌++◌, or_else, ◌==◌,
  if◌then◌else◌,
}
use nest_fastify_boilerplate.Effects.{Outcome, returned, thrown, error}
use nest_fastify_boilerplate.Config.Rules.{Value, flag}
use nest_fastify_boilerplate.Config.Schema.{Env, lookup}
use nest_fastify_boilerplate.Config.Validation.{text_at, number_at, is_production, as_flag}

-- The options of a target: standard output, pino-pretty's, and those of a file that is rolled.
pub data TargetOptions : Type 0 where
  stdout : TargetOptions
  pretty : Bool → Bool → String → String → TargetOptions
  rolled : String → String → String → String → Bool → ℕ → Bool → TargetOptions

pub record TransportTarget : Type 0 where
  pub target : String
  pub options : TargetOptions
  pub level : String

-- The parameter of `buildTargets`.
pub record TargetParams : Type 0 where
  pub is_prod : Bool
  pub level : String
  pub file_enabled : Bool
  pub error_file_enabled : Bool
  pub dir : String
  pub max_days : ℕ
  pub max_size : String

abbrev pub console_target : Bool → String → TransportTarget
console_target true level = record { target = "pino/file"; options = stdout; level = level }
console_target false level = record {
  target = "pino-pretty";
  options = pretty true true "SYS:HH:MM:ss.l" "pid,hostname";
  level = level;
}

abbrev pub one_if : {A : Type 0} → Bool → A → List A
one_if true a = a ∷ []
one_if false a = []

-- `join` is that of node:path.
module _ (join : String → String → String) where
  unfoldable pub roll_target : String → String → String → ℕ → String → TransportTarget
  roll_target dir name level max_files size = record {
    target = "pino-roll";
    options = rolled (join dir name) "daily" size "yyyy-MM-dd" true max_files true;
    level = level;
  }

  unfoldable pub build_targets : TargetParams → List TransportTarget
  unfolding roll_target
  build_targets p =
      console_target p.is_prod p.level
      ∷ (one_if p.file_enabled (roll_target p.dir "app" p.level p.max_days p.max_size)
          ++ one_if p.error_file_enabled (roll_target p.dir "error" "error" p.max_days p.max_size))

-- The options of pino-http.
pub record HttpLogger : Type 0 where
  pub level : String
  pub targets : List TransportTarget
  pub redact : List String

abbrev pub redact_paths : List String
redact_paths =
    "req.headers.authorization" ∷ "req.headers.cookie" ∷ "req.headers[\"x-api-key\"]"
    ∷ "res.headers[\"set-cookie\"]" ∷ "req.body.password" ∷ "req.body.passwordConfirmation"
    ∷ "req.body.currentPassword" ∷ "req.body.newPassword" ∷ "req.body.token"
    ∷ "req.body.accessToken" ∷ "req.body.refreshToken" ∷ "password" ∷ "token" ∷ "accessToken"
    ∷ "refreshToken" ∷ "secret" ∷ "authorization" ∷ "*.password" ∷ "*.token" ∷ "*.accessToken"
    ∷ "*.refreshToken" ∷ "*.secret" ∷ "*.authorization" ∷ []

-- The level where LOG_LEVEL is not set.
abbrev pub level_of : Env → String
level_of env = or_else (text_at "LOG_LEVEL" env) (if is_production env then "info" else "debug")

-- The settings have defaults in the schema; an object that is not validated lacks them.
abbrev params_of : Env → TargetParams
params_of env = record {
  is_prod = is_production env;
  level = level_of env;
  file_enabled = or_else (as_flag (lookup "LOG_FILE_ENABLED" env)) false;
  error_file_enabled = or_else (as_flag (lookup "LOG_ERROR_FILE_ENABLED" env)) false;
  dir = or_else (text_at "LOG_DIR" env) "";
  max_days = or_else (number_at "LOG_FILE_MAX_DAYS" env) 0;
  max_size = or_else (text_at "LOG_FILE_MAX_SIZE" env) "";
}

-- `useFactory`; its `genReqId` is in Bootstrap.antt.
unfoldable pub http_logger : (String → String → String) → Env → HttpLogger
unfolding build_targets
http_logger join env = record {
  level = level_of env;
  targets = build_targets join (params_of env);
  redact = redact_paths;
}
