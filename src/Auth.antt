-- ===== src/Auth.antt =====
-- src/core/auth: the options of Better Auth, and what it calls when a user registers.
pub mod Providers
pub mod Tests
use nest_fastify_boilerplate.Prelude.{
  String, ◌<>◌, Bool, true, false, Option, none, some, List, [], ◌∷◌, or_else, ◌&&◌, if◌then◌else◌,
}
use nest_fastify_boilerplate.Effects.{Outcome, Exec, returned, thrown, error, pure, ◌>>◌}
use nest_fastify_boilerplate.Config.Rules.{Value, texts, flag}
use nest_fastify_boilerplate.Config.Schema.{Env, lookup}
use nest_fastify_boilerplate.Config.Validation.{text_at, is_set, as_flag}
use nest_fastify_boilerplate.Messaging.Contracts.{UserRegistered}
use nest_fastify_boilerplate.Messaging.Payloads.{Payload, registered}
use nest_fastify_boilerplate.Outbox.Rows.{Database}
use nest_fastify_boilerplate.Outbox.Repository.{EnqueueData, enqueue}
use nest_fastify_boilerplate.Mail.{SendMailJob}

pub record SocialCredential : Type 0 where
  pub client_id : String
  pub client_secret : String

pub record AuthEnv : Type 0 where
  pub secret : String
  pub base_url : String
  pub trusted_origins : List String
  pub admin_user_ids : List String
  pub require_email_verification : Bool
  pub google : Option SocialCredential
  pub facebook : Option SocialCredential

pub record EmailAndPassword : Type 0 where
  pub enabled : Bool
  pub require_email_verification : Bool

pub record SocialProviders : Type 0 where
  pub google : Option SocialCredential
  pub facebook : Option SocialCredential

-- The options of the plugin `admin`; the plugin `bearer` has none.
pub record AdminOptions : Type 0 where
  pub default_role : String
  pub admin_roles : List String
  pub admin_user_ids : List String

pub record AuthOptions : Type 0 where
  pub secret : String
  pub base_url : String
  pub base_path : String
  pub trusted_origins : List String
  pub email_and_password : EmailAndPassword
  pub social_providers : SocialProviders
  pub admin : AdminOptions

unfoldable pub build_auth_options : AuthEnv → AuthOptions
build_auth_options env = record {
  secret = env.secret;
  base_url = env.base_url;
  base_path = "/api/auth";
  trusted_origins = env.trusted_origins;
  email_and_password = record {
    enabled = true;
    require_email_verification = env.require_email_verification;
  };
  social_providers = record { google = env.google; facebook = env.facebook };
  admin = record {
    default_role = "user";
    admin_roles = "admin" ∷ [];
    admin_user_ids = env.admin_user_ids;
  };
}

abbrev as_texts : Option Value → Option (List String)
as_texts (some (texts ss)) = some ss
as_texts _ = none

abbrev pub texts_at : String → Env → List String
texts_at k env = or_else (as_texts (lookup k env)) []

-- `readSocial`: of the two texts, the empty one counts as missing.
unfoldable pub read_social : String → String → Env → Option SocialCredential
read_social id_key secret_key env =
    if is_set id_key env && is_set secret_key env
    then some (record {
      client_id = or_else (text_at id_key env) "";
      client_secret = or_else (text_at secret_key env) "";
    })
    else none

module _ (env : Env) where
  abbrev pub auth_env_with : String → String → AuthEnv
  auth_env_with secret base_url = record {
    secret = secret;
    base_url = base_url;
    trusted_origins = texts_at "ALLOWED_ORIGINS" env;
    admin_user_ids = texts_at "ADMIN_USER_IDS" env;
    require_email_verification = or_else (as_flag (lookup "EMAIL_VERIFICATION_REQUIRED" env)) true;
    google = read_social "GOOGLE_CLIENT_ID" "GOOGLE_CLIENT_SECRET" env;
    facebook = read_social "FACEBOOK_CLIENT_ID" "FACEBOOK_CLIENT_SECRET" env;
  }

  abbrev auth_env_of : Option String → Option String → Outcome AuthEnv
  auth_env_of (some secret) (some base_url) = returned (auth_env_with secret base_url)
  auth_env_of _ _ = thrown (error "Configuration key does not exist")

  -- `env` of `createAuth`
  unfoldable pub auth_env : Outcome AuthEnv
  auth_env = auth_env_of (text_at "BETTER_AUTH_SECRET" env) (text_at "BETTER_AUTH_URL" env)

  abbrev options_of : Outcome AuthEnv → Outcome AuthOptions
  options_of (returned e) = returned (build_auth_options e)
  options_of (thrown e) = thrown e

  -- What `createAuth` hands to Better Auth, beside the database and the two functions below.
  unfoldable pub create_auth_options : Outcome AuthOptions
  unfolding auth_env
  create_auth_options = options_of auth_env

-- A user as Better Auth hands it to its hooks.
pub record Account : Type 0 where
  pub id : String
  pub email : String
  pub name : Option String

abbrev verification_mail : Account → String → SendMailJob
verification_mail user url = record {
  to = user.email;
  subject = "Verify your email address";
  body = "Click the link to verify your email: " <> url;
}

-- `sendVerificationEmail`, on `MailProducer.enqueue`.
unfoldable pub send_verification_email :
    {S : Type 0} → (SendMailJob → Option String → Exec S String) → Account → String → Exec S Unit
send_verification_email mail user url = mail (verification_mail user url) none >> pure tt

abbrev pub registered_user : Account → UserRegistered
registered_user user = record { user_id = user.id; email = user.email; name = user.name }

abbrev pub registration : Account → EnqueueData Payload
registration user = record {
  routing_key = "user.registered";
  payload = registered (registered_user user);
  message_id = none;
  request_id = none;
}

-- The hook `databaseHooks.user.create.after`.
unfoldable pub after_create : (D : Database Payload) → Account → Exec D.State Unit
after_create D user = enqueue D (registration user) >> pure tt
