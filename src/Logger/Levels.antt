-- ===== src/Logger/Levels.antt =====
-- Which lines reach which target of src/core/logger/logger.module.ts.
use nest_fastify_boilerplate.Prelude.{
  ℕ, String, ◌≡◌, refl, Bool, true, false, Option, none, some, List, [], ◌∷◌, ◌++◌, ◌&&◌, ◌==◌, leb,
  or_else, is_some, if◌then◌else◌, arith, Bool-cases, inl, inr, eq_iff, subst, all,
}
use nest_fastify_boilerplate.Effects.{Issue, returned}
use nest_fastify_boilerplate.Config.Rules.{
  Rule, Value, Zod, one_of, number, text, flag, numbers, texts, fits, includes,
}
use nest_fastify_boilerplate.Config.Schema.{Env, field, fields, lookup, optional}
use nest_fastify_boilerplate.Config.Schema.Reading.{is_read}
use nest_fastify_boilerplate.Config.Validation.{validate_env, as_text, is_production}
use nest_fastify_boilerplate.Config.Validation.Laws.{validate_env_sound}
use nest_fastify_boilerplate.Config.Validation.Settings.{listed}
use nest_fastify_boilerplate.Logger.{
  TransportTarget, TargetParams, console_target, one_if, roll_target, build_targets, HttpLogger,
  level_of, params_of, http_logger,
}

-- The severities of pino's levels; nothing is as severe as 'silent'.
abbrev pub threshold : String → Option ℕ
threshold level =
    if level == "trace"
    then some 10
    else if level == "debug"
    then some 20
    else if level == "info"
    then some 30
    else if level == "warn"
    then some 40
    else if level == "error"
    then some 50
    else if level == "fatal"
    then some 60
    else none

abbrev pub reaches : ℕ → Option ℕ → Bool
reaches severity none = false
reaches severity (some least) = leb least severity

-- A line that the logger lets through goes to each target whose level it reaches.
abbrev receivers_among : ℕ → List TransportTarget → List TransportTarget
receivers_among severity [] = []
receivers_among severity (t ∷ ts) =
    let rest = receivers_among severity ts in
    if reaches severity (threshold t.level) then t ∷ rest else rest

abbrev pub receivers : HttpLogger → ℕ → List TransportTarget
receivers logger severity =
    if reaches severity (threshold logger.level)
    then receivers_among severity logger.targets
    else []

module _ (join : String → String → String) (p : TargetParams) (severity : ℕ) where
  receivers_among-build_targets :
      reaches severity (threshold p.level) ≡ true
      → receivers_among severity (build_targets join p) ≡ (
          console_target p.is_prod p.level
          ∷ (one_if p.file_enabled (roll_target join p.dir "app" p.level p.max_days p.max_size)
              ++ one_if
                  (p.error_file_enabled && leb 50 severity)
                  (roll_target join p.dir "error" "error" p.max_days p.max_size)))
  unfolding build_targets roll_target
  receivers_among-build_targets h = ground arith

abbrev pub is_level : String → Bool
is_level level = if level == "silent" then true else is_some (threshold level)

includes-all :
    (p : String → Bool) (ss : List String) (s : String)
    → all p ss ≡ true
    → includes ss s ≡ true
    → p s ≡ true
unfolding includes
includes-all p [] s h k = absurd (ground arith)
includes-all p (t ∷ ss) s h k = elim (Bool-cases (t == s)) [
  | inl same ↦ subst (λ x. p x ≡ true) ((eq_iff t s).0 same) (ground arith)
  | inr other ↦ includes-all p ss s (ground arith) (ground arith)
]

abbrev level_names : List String
level_names = "fatal" ∷ "error" ∷ "warn" ∷ "info" ∷ "debug" ∷ "trace" ∷ "silent" ∷ []

level_is_known :
    (zod : Zod) (o : Option Value) (production : Bool)
    → is_read zod (field "LOG_LEVEL" (one_of level_names) optional) o ≡ true
    → is_level (or_else (as_text o) (if production then "info" else "debug")) ≡ true
unfolding fits
level_is_known zod none true h = refl
level_is_known zod none false h = refl
level_is_known zod (some (text s)) production h = includes-all is_level level_names s refl h
level_is_known zod (some (number n)) production h = absurd (ground arith)
level_is_known zod (some (flag b)) production h = absurd (ground arith)
level_is_known zod (some (numbers ns)) production h = absurd (ground arith)
level_is_known zod (some (texts ss)) production h = absurd (ground arith)

-- With an environment that `validateEnv` lets through, the level is one that pino knows. A line that
-- is at least that severe goes to the console always, to the file of all lines if that is enabled,
-- and to the file of errors if that is enabled and the line is at least an error; a line that is less
-- severe goes nowhere.
pub http_logger_lem :
    (zod : Zod) (message_of : Rule → Option String → String) (prettify : List Issue → String)
    (raw : String → Option String) (env : Env) (join : String → String → String) (severity : ℕ)
    → zod.is_url "http://localhost:3000" ≡ true
    → validate_env zod message_of prettify raw ≡ returned env
    → (is_level (level_of env) ≡ true)
      × (receivers (http_logger join env) severity ≡ (
          if reaches severity (threshold (level_of env))
          then console_target (is_production env) (level_of env)
            ∷ (one_if (params_of env).file_enabled (
                  roll_target join
                    (params_of env).dir
                    "app"
                    (level_of env)
                    (params_of env).max_days
                    (params_of env).max_size)
                ++ one_if ((params_of env).error_file_enabled && leb 50 severity) (
                    roll_target join
                      (params_of env).dir
                      "error"
                      "error"
                      (params_of env).max_days
                      (params_of env).max_size))
          else []))
unfolding http_logger fields
http_logger_lem zod message_of prettify raw env join severity good passed = (
  level_is_known zod (lookup "LOG_LEVEL" env) (is_production env)
      (validate_env_sound zod message_of prettify raw env _ good passed (listed 2 refl)).0,
  elim (Bool-cases (reaches severity (threshold (level_of env)))) [
    | inl loud ↦ rw loud (receivers_among-build_targets join (params_of env) severity loud)
    | inr quiet ↦ rw quiet refl
  ],
)
