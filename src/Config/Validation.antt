-- ===== src/Config/Validation.antt =====
-- The checks of src/core/config/env.schema.ts across fields, and `validateEnv`.
pub mod Laws
pub mod Settings
pub mod Retries
use nest_fastify_boilerplate.Prelude.{
  ℕ, ◌<>◌, String, Bool, true, false, Option, none, some, List, [], ◌∷◌, ◌++◌, length, ltb, or_else,
  not, ◌&&◌, ◌==◌, if◌then◌else◌, show,
}
use nest_fastify_boilerplate.Effects.{Issue, Outcome, returned, thrown, error}
use nest_fastify_boilerplate.Config.Rules.{Rule, Value, Zod, number, text, flag, numbers}
use nest_fastify_boilerplate.Config.Schema.{Env, lookup, fields, parse_fields}

abbrev pub as_text : Option Value → Option String
as_text (some (text s)) = some s
as_text _ = none

abbrev pub as_number : Option Value → Option ℕ
as_number (some (number n)) = some n
as_number _ = none

abbrev pub as_numbers : Option Value → Option (List ℕ)
as_numbers (some (numbers ns)) = some ns
as_numbers _ = none

abbrev pub as_flag : Option Value → Option Bool
as_flag (some (flag b)) = some b
as_flag _ = none

abbrev pub text_at : String → Env → Option String
text_at k env = as_text (lookup k env)

abbrev pub number_at : String → Env → Option ℕ
number_at k env = as_number (lookup k env)

abbrev pub max_retries_of : Env → ℕ
max_retries_of env = or_else (number_at "RABBITMQ_MAX_RETRIES" env) 0

abbrev pub numbers_at : String → Env → Option (List ℕ)
numbers_at k env = as_numbers (lookup k env)

abbrev pub retry_delays_of : Env → List ℕ
retry_delays_of env = or_else (numbers_at "RABBITMQ_RETRY_DELAYS_MS" env) []

-- `Boolean(env[key])` of a text
abbrev truthy : Option String → Bool
truthy none = false
truthy (some s) = not (s == "")

abbrev pub is_set : String → Env → Bool
is_set k env = truthy (text_at k env)

abbrev pub is_production : Env → Bool
is_production env = or_else (text_at "NODE_ENV" env) "" == "production"

abbrev raise_if : Bool → String → String → List Issue
raise_if true key message = record { path = key ∷ []; message = message } ∷ []
raise_if false key message = []

abbrev pub differ : Bool → Bool → Bool
differ true b = not b
differ false b = b

abbrev check_pair : String → String → String → Env → List Issue
check_pair id_key secret_key label env =
    raise_if (differ (is_set id_key env) (is_set secret_key env))
      (if is_set id_key env then secret_key else id_key)
      (label <> " OAuth needs both id and secret, or neither.")

-- the function of `superRefine`
unfoldable pub super_refine : Env → List Issue
unfolding lookup show
super_refine env =
    raise_if (is_production env && not (is_set "BULLBOARD_PASSWORD" env)) "BULLBOARD_PASSWORD"
      "BULLBOARD_PASSWORD là bắt buộc ở production."
    ++ (raise_if (ltb (length (retry_delays_of env)) (max_retries_of env))
          "RABBITMQ_RETRY_DELAYS_MS"
          ("RABBITMQ_RETRY_DELAYS_MS phải có ít nhất RABBITMQ_MAX_RETRIES ("
            <> show (max_retries_of env)
            <> ") phần tử.")
        ++ (check_pair "GOOGLE_CLIENT_ID" "GOOGLE_CLIENT_SECRET" "Google" env
            ++ check_pair "FACEBOOK_CLIENT_ID" "FACEBOOK_CLIENT_SECRET" "Facebook" env))

-- `prettify` is `z.prettifyError`. The checks across fields run only on an object whose fields pass.
module _ (zod : Zod) (message_of : Rule → Option String → String)
    (prettify : List Issue → String) where
  abbrev reject_if : List Issue → Outcome Env → Outcome Env
  reject_if [] r = r
  reject_if (i ∷ issues) r =
      thrown (error ("Invalid environment variables:\n" <> prettify (i ∷ issues)))

  unfoldable pub validate_env : (String → Option String) → Outcome Env
  unfolding fields parse_fields super_refine
  validate_env raw =
      let (issues, env) = parse_fields zod message_of fields raw in
      reject_if issues (reject_if (super_refine env) (returned env))
