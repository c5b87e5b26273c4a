-- ===== src/Auth/Providers.antt =====
-- The options that src/core/auth/auth.ts makes of an environment which passed validation.
use nest_fastify_boilerplate.Prelude.{
  ℕ, String, ◌≡◌, refl, true, Option, none, some, List, [], or_else, ◌==◌, all, not, leb,
  if◌then◌else◌, arith,
}
use nest_fastify_boilerplate.Effects.{Issue, returned}
use nest_fastify_boilerplate.Config.Text.{utf16_length}
use nest_fastify_boilerplate.Config.Rules.{
  Rule, Value, Zod, min_length, url, names, number, text, flag, numbers, texts, fits,
}
use nest_fastify_boilerplate.Config.Schema.{Env, field, fields, required, default_to}
use nest_fastify_boilerplate.Config.Schema.Reading.{is_read}
use nest_fastify_boilerplate.Config.Validation.{text_at, is_set, as_text, validate_env}
use nest_fastify_boilerplate.Config.Validation.Laws.{validate_env_sound}
use nest_fastify_boilerplate.Config.Validation.Settings.{listed}
use nest_fastify_boilerplate.Auth.{
  SocialCredential, AuthOptions, as_texts, read_social, build_auth_options, auth_env,
  create_auth_options, auth_env_with,
}

module _ (zod : Zod) where
  text_of_secret :
      (k : String) (least : ℕ) (o : Option Value)
      → is_read zod (field k (min_length least) required) o ≡ true
      → (s : String) × (as_text o ≡ some s) × (leb least (utf16_length s) ≡ true)
  unfolding fits
  text_of_secret k least none h = absurd (ground arith)
  text_of_secret k least (some (text s)) h = (s, refl, h)
  text_of_secret k least (some (number n)) h = absurd (ground arith)
  text_of_secret k least (some (flag b)) h = absurd (ground arith)
  text_of_secret k least (some (numbers ns)) h = absurd (ground arith)
  text_of_secret k least (some (texts ss)) h = absurd (ground arith)

  text_of_default_url :
      (k : String) (v : Value) (o : Option Value)
      → is_read zod (field k url (default_to v)) o ≡ true
      → (s : String) × (as_text o ≡ some s)
  unfolding fits
  text_of_default_url k v none h = absurd (ground arith)
  text_of_default_url k v (some (text s)) h = (s, refl)
  text_of_default_url k v (some (number n)) h = absurd (ground arith)
  text_of_default_url k v (some (flag b)) h = absurd (ground arith)
  text_of_default_url k v (some (numbers ns)) h = absurd (ground arith)
  text_of_default_url k v (some (texts ss)) h = absurd (ground arith)

  non_empty_names :
      (k : String) (v : Value) (o : Option Value)
      → is_read zod (field k names (default_to v)) o ≡ true
      → all (λ s. not (s == "")) (or_else (as_texts o) []) ≡ true
  unfolding fits
  non_empty_names k v none h = refl
  non_empty_names k v (some (text s)) h = refl
  non_empty_names k v (some (number n)) h = refl
  non_empty_names k v (some (flag b)) h = refl
  non_empty_names k v (some (numbers ns)) h = refl
  non_empty_names k v (some (texts ss)) h = h

-- A provider that is on where its id is set, with its id and its secret.
abbrev pub by_id : String → String → Env → Option SocialCredential
by_id id_key secret_key env =
    if is_set id_key env
    then some (record {
      client_id = or_else (text_at id_key env) "";
      client_secret = or_else (text_at secret_key env) "";
    })
    else none

read_social-coherent :
    (id_key secret_key : String) (env : Env)
    → is_set id_key env ≡ is_set secret_key env
    → read_social id_key secret_key env ≡ by_id id_key secret_key env
unfolding read_social
read_social-coherent id_key secret_key env h = ground (arith, h)

-- With an environment that `validateEnv` lets through, Better Auth can be configured: its secret has
-- at least 32 code units; a social provider is registered exactly where its id is set, and then with
-- a secret that is no empty text, so none is dropped in silence; no trusted origin and no
-- administrator's id is the empty text.
pub create_auth_options_lem :
    (zod : Zod) (message_of : Rule → Option String → String) (prettify : List Issue → String)
    (raw : String → Option String) (env : Env)
    → zod.is_url "http://localhost:3000" ≡ true
    → validate_env zod message_of prettify raw ≡ returned env
    → (options : AuthOptions) × (create_auth_options env ≡ returned options)
      × (leb 32 (utf16_length options.secret) ≡ true)
      × (options.social_providers.google ≡ by_id "GOOGLE_CLIENT_ID" "GOOGLE_CLIENT_SECRET" env)
      × (options.social_providers.facebook
          ≡ by_id "FACEBOOK_CLIENT_ID" "FACEBOOK_CLIENT_SECRET" env)
      × (is_set "GOOGLE_CLIENT_ID" env ≡ is_set "GOOGLE_CLIENT_SECRET" env)
      × (is_set "FACEBOOK_CLIENT_ID" env ≡ is_set "FACEBOOK_CLIENT_SECRET" env)
      × (all (λ s. not (s == "")) options.trusted_origins ≡ true)
      × (all (λ s. not (s == "")) options.admin.admin_user_ids ≡ true)
unfolding create_auth_options build_auth_options auth_env fields
create_auth_options_lem zod message_of prettify raw env good passed =
    let sound = validate_env_sound zod message_of prettify raw env in
    let (secret, at_secret, long) =
      text_of_secret zod "BETTER_AUTH_SECRET" 32 _ (sound _ good passed (listed 25 refl)).0 in
    let (base_url, at_url) =
      text_of_default_url zod "BETTER_AUTH_URL" (text "http://localhost:3000") _
        (sound _ good passed (listed 26 refl)).0 in
    let (_, (_, _, google, facebook)) = sound _ good passed (listed 25 refl) in
    (
      build_auth_options (auth_env_with env secret base_url),
      ground (arith, at_secret, at_url),
      long,
      read_social-coherent "GOOGLE_CLIENT_ID" "GOOGLE_CLIENT_SECRET" env google,
      read_social-coherent "FACEBOOK_CLIENT_ID" "FACEBOOK_CLIENT_SECRET" env facebook,
      google,
      facebook,
      non_empty_names zod "ALLOWED_ORIGINS" (texts []) _ (sound _ good passed (listed 28 refl)).0,
      non_empty_names zod "ADMIN_USER_IDS" (texts []) _ (sound _ good passed (listed 29 refl)).0,
    )
