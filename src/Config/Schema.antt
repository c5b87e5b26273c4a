-- ===== src/Config/Schema.antt =====
-- The fields of `envSchema` in src/core/config/env.schema.ts, and the object that they are read into.
pub mod Reading
use mathlib.Core.List.{Memᴰ}
use nest_fastify_boilerplate.Prelude.{
  ℕ, String, ◌≡◌, refl, ap, ◌∙◌, sym, Bool, true, false, Option, none, some, List, [], ◌∷◌, ◌++◌,
  any, all, not, ◌&&◌, ◌==◌, if◌then◌else◌, arith, eq_refl, eq_iff,
}
use nest_fastify_boilerplate.Effects.{Issue}
use nest_fastify_boilerplate.Config.Rules.{
  Rule, Value, Zod, one_of, integer, string, min_length, size, url, stringbool, delays, names,
  number, text, flag, numbers, texts, read, fits, fits-read,
}

-- What a variable that is not set is: an issue; undefined; a value; or another text, which is read in
-- its place.
pub data Missing : Type 0 where
  required optional : Missing
  default_to : Value → Missing
  read_instead : String → Missing

pub record Field : Type 0 where
  pub key : String
  pub rule : Rule
  pub missing : Missing

abbrev pub field : String → Rule → Missing → Field
field k r m = record { key = k; rule = r; missing = m }

abbrev pub Env : Type 0
Env = List (String × Value)

unfoldable pub fields : List Field
fields =
    field "NODE_ENV" (one_of ("development" ∷ "test" ∷ "production" ∷ []))
      (default_to (text "development"))
    ∷ field "PORT" (integer 1) (default_to (number 3000))
    ∷ field "LOG_LEVEL"
        (one_of ("fatal" ∷ "error" ∷ "warn" ∷ "info" ∷ "debug" ∷ "trace" ∷ "silent" ∷ [])) optional
    ∷ field "LOG_FILE_ENABLED" stringbool (default_to (flag false))
    ∷ field "LOG_ERROR_FILE_ENABLED" stringbool (default_to (flag false))
    ∷ field "LOG_DIR" string (default_to (text "logs"))
    ∷ field "LOG_FILE_MAX_DAYS" (integer 1) (default_to (number 30))
    ∷ field "LOG_FILE_MAX_SIZE" size (default_to (text "50m"))
    ∷ field "DATABASE_URL" url required
    ∷ field "REDIS_HOST" string (default_to (text "localhost"))
    ∷ field "REDIS_PORT" (integer 1) (default_to (number 6379))
    ∷ field "REDIS_PASSWORD" string optional
    ∷ field "REDIS_DB" (integer 0) (default_to (number 0))
    ∷ field "REDIS_KEY_PREFIX" string (default_to (text "app:"))
    ∷ field "CACHE_DEFAULT_TTL" (integer 1) (default_to (number 60))
    ∷ field "RABBITMQ_URL" url required
    ∷ field "RABBITMQ_EXCHANGE" string (default_to (text "app"))
    ∷ field "RABBITMQ_PREFETCH" (integer 1) (default_to (number 10))
    ∷ field "RABBITMQ_MAX_RETRIES" (integer 0) (default_to (number 3))
    ∷ field "RABBITMQ_RETRY_DELAYS_MS" delays (read_instead "5000,30000,300000")
    ∷ field "RABBITMQ_QUORUM_DELIVERY_LIMIT" (integer 1) (default_to (number 5))
    ∷ field "RABBITMQ_IDEMPOTENCY_TTL" (integer 1) (default_to (number 86_400))
    ∷ field "RABBITMQ_OUTBOX_POLL_MS" (integer 1) (default_to (number 1000))
    ∷ field "RABBITMQ_OUTBOX_BATCH" (integer 1) (default_to (number 50))
    ∷ field "RABBITMQ_OUTBOX_MAX_ATTEMPTS" (integer 1) (default_to (number 10))
    ∷ field "BETTER_AUTH_SECRET" (min_length 32) required
    ∷ field "BETTER_AUTH_URL" url (default_to (text "http://localhost:3000"))
    ∷ field "EMAIL_VERIFICATION_REQUIRED" stringbool (default_to (flag true))
    ∷ field "ALLOWED_ORIGINS" names (default_to (texts []))
    ∷ field "ADMIN_USER_IDS" names (default_to (texts []))
    ∷ field "GOOGLE_CLIENT_ID" string optional
    ∷ field "GOOGLE_CLIENT_SECRET" string optional
    ∷ field "FACEBOOK_CLIENT_ID" string optional
    ∷ field "FACEBOOK_CLIENT_SECRET" string optional
    ∷ field "FALLBACK_LANGUAGE" string (default_to (text "vi"))
    ∷ field "WORKER_PORT" (integer 1) (default_to (number 3001))
    ∷ field "MAIL_WORKER_CONCURRENCY" (integer 1) (default_to (number 5))
    ∷ field "BULLBOARD_USER" string (default_to (text "admin"))
    ∷ field "BULLBOARD_PASSWORD" string optional
    ∷ []

-- What a field comes to: an issue, nothing, or a value.
pub data Parsed : Type 0 where
  issue absent : Parsed
  present : Value → Parsed

abbrev pub or_issue : Option Value → Parsed
or_issue none = issue
or_issue (some v) = present v

-- `env[key]`
unfoldable pub lookup : String → Env → Option Value
lookup k [] = none
lookup k ((j, v) ∷ env) = if j == k then some v else lookup k env

-- `message_of` are zod's messages.
module _ (zod : Zod) (message_of : Rule → Option String → String) where
  abbrev if_missing : Rule → Missing → Parsed
  if_missing r required = issue
  if_missing r optional = absent
  if_missing r (default_to v) = present v
  if_missing r (read_instead s) = or_issue (read zod r s)

  unfoldable pub parse_field : Field → Option String → Parsed
  parse_field f none = if_missing f.rule f.missing
  parse_field f (some s) = or_issue (read zod f.rule s)

  abbrev add_field : Field → Option String → Parsed → List Issue × Env → List Issue × Env
  add_field f raw issue (issues, env) =
      (record { path = f.key ∷ []; message = message_of f.rule raw } ∷ issues, env)
  add_field f raw absent (issues, env) = (issues, env)
  add_field f raw (present v) (issues, env) = (issues, (f.key, v) ∷ env)

  unfoldable pub parse_fields : List Field → (String → Option String) → List Issue × Env
  unfolding parse_field
  parse_fields [] raw = ([], [])
  parse_fields (f ∷ fs) raw =
      let rest = parse_fields fs raw in add_field f (raw f.key) (parse_field f (raw f.key)) rest
