-- ===== src/Bootstrap/Origins.antt =====
-- The origins of ALLOWED_ORIGINS in src/main.ts (CORS) and in src/core/auth/auth.ts (Better Auth), and the
-- headers that the bridge between the two passes on.
use mathlib.Core.List.{append-nil, append_assoc}
use nest_fastify_boilerplate.Prelude.{
  String, ◌≡◌, refl, Bool, true, Option, none, some, List, [], ◌∷◌, map, ◌++◌, ◌==◌, ◌||◌, ◌&&◌,
  all, not, ltb, length, any, if◌then◌else◌, arith, sym, ◌∙◌, Option-cases, eq_iff,
}
use nest_fastify_boilerplate.Effects.{Issue, returned}
use nest_fastify_boilerplate.Config.Rules.{Rule, Zod, names, texts, read, non_empty}
use nest_fastify_boilerplate.Config.Text.{trim, split_comma}
use nest_fastify_boilerplate.Config.Schema.Reading.{value_in}
use nest_fastify_boilerplate.Config.Schema.{Env, field, default_to, lookup, fields, parse_field}
use nest_fastify_boilerplate.Config.Validation.{text_at, validate_env}
use nest_fastify_boilerplate.Config.Validation.Settings.{listed, lookup-validated}
use nest_fastify_boilerplate.Auth.{
  AuthOptions, texts_at, create_auth_options, auth_env, build_auth_options,
}
use nest_fastify_boilerplate.Bootstrap.{
  any_origin, only, cors_options, FetchResponse, reply_header, copy_headers, bridge,
}

created-origins :
    (env : Env) (options : AuthOptions)
    → create_auth_options env ≡ returned options
    → options.trusted_origins ≡ texts_at "ALLOWED_ORIGINS" env
unfolding create_auth_options auth_env build_auth_options
created-origins env options h = ground (
  arith,
  h,
  Option-cases (text_at "BETTER_AUTH_SECRET" env),
  Option-cases (text_at "BETTER_AUTH_URL" env),
)

-- The names in the variable.
abbrev pub origins_in : Option String → List String
origins_in none = []
origins_in (some s) = if s == "" then [] else non_empty (map trim (split_comma s))

origins_of_raw :
    (zod : Zod) (message_of : Rule → Option String → String) (prettify : List Issue → String)
    (raw : String → Option String) (env : Env)
    → validate_env zod message_of prettify raw ≡ returned env
    → texts_at "ALLOWED_ORIGINS" env ≡ origins_in (raw "ALLOWED_ORIGINS")
unfolding parse_field read fields
origins_of_raw zod message_of prettify raw env passed =
    by_text (raw "ALLOWED_ORIGINS")
      (lookup-validated zod message_of prettify raw env passed _ (listed 28 refl))
  where
    by_text :
        (o : Option String)
        → lookup "ALLOWED_ORIGINS" env
          ≡ value_in zod message_of raw
              (parse_field zod message_of (field "ALLOWED_ORIGINS" names (default_to (texts []))) o)
        → texts_at "ALLOWED_ORIGINS" env ≡ origins_in o
    by_text none h = ground (arith, h)
    by_text (some s) h = ground (arith, h)

-- CORS and Better Auth trust the same origins, the names in ALLOWED_ORIGINS, where there are any.
-- Where there are none, Better Auth trusts no further origin, but CORS lets each origin in; with
-- credentials always, and in production as elsewhere.
pub cors_options_lem :
    (zod : Zod) (message_of : Rule → Option String → String) (prettify : List Issue → String)
    (raw : String → Option String) (env : Env) (options : AuthOptions)
    → validate_env zod message_of prettify raw ≡ returned env
    → create_auth_options env ≡ returned options
    → (options.trusted_origins ≡ origins_in (raw "ALLOWED_ORIGINS"))
      × ((cors_options env).origin ≡ (
          if ltb 0 (length (origins_in (raw "ALLOWED_ORIGINS")))
          then only (origins_in (raw "ALLOWED_ORIGINS"))
          else any_origin))
      × ((cors_options env).credentials ≡ true)
unfolding cors_options
cors_options_lem zod message_of prettify raw env options passed created =
    let same = origins_of_raw zod message_of prettify raw env passed in
    (created-origins env options created ∙ same, rw same refl, refl)

abbrev cookie : String
cookie = "set-cookie"

-- No name of a header comes twice, but for cookies: so Fetch visits the headers.
unfoldable pub names_differ : List (String × String) → Bool
names_differ [] = true
names_differ ((k, v) ∷ hs) =
    let rest = names_differ hs in ((k == cookie) || not (any (λ h. h.0 == k) hs)) && rest

abbrev is_new : List (String × String) → String → Bool
is_new sent k = (k == cookie) || not (any (λ h. h.0 == k) sent)

any-snoc :
    (k j w : String) (sent : List (String × String))
    → any (λ h. h.0 == k) (sent ++ ((j, w) ∷ [])) ≡ (any (λ h. h.0 == k) sent || (j == k))
any-snoc k j w [] = ground arith
any-snoc k j w (h ∷ sent) = ground (arith, any-snoc k j w sent)

reply_header-new :
    (k v : String) (sent : List (String × String))
    → is_new sent k ≡ true
    → reply_header k v sent ≡ sent ++ ((k, v) ∷ [])
unfolding reply_header
reply_header-new k v [] h = ground arith
reply_header-new k v ((j, w) ∷ sent) h = ground (arith, reply_header-new k v sent)

all-is_new :
    (k v : String) (hs sent : List (String × String))
    → all (λ h. is_new sent h.0) hs ≡ true
    → is_new hs k ≡ true
    → all (λ h. is_new (sent ++ ((k, v) ∷ [])) h.0) hs ≡ true
all-is_new k v [] sent h n = refl
all-is_new k v ((j, w) ∷ hs) sent h n =
    ground (arith, any-snoc j k v sent, all-is_new k v hs sent, eq_iff j k, eq_iff k j)

copy_headers-append :
    (hs sent : List (String × String))
    → all (λ h. is_new sent h.0) hs ≡ true
    → names_differ hs ≡ true
    → copy_headers hs sent ≡ sent ++ hs
unfolding copy_headers names_differ
copy_headers-append [] sent h d = sym (append-nil sent)
copy_headers-append ((k, v) ∷ hs) sent h d =
    let later =
      copy_headers-append hs (sent ++ ((k, v) ∷ []))
        (all-is_new k v hs sent (ground arith) (ground arith)) (ground arith) in
    rw (reply_header-new k v sent (ground arith)) (later ∙ append_assoc sent ((k, v) ∷ []) hs)

all-new : (hs : List (String × String)) → all (λ h. is_new [] h.0) hs ≡ true
all-new [] = refl
all-new (h ∷ hs) = ground (arith, all-new hs)

-- What Better Auth answers reaches the client as it is: the status, the body, and each header, in
-- their order, each of several cookies among them.
pub bridge_lem :
    (response : FetchResponse)
    → names_differ response.headers ≡ true
    → bridge response
      ≡ record { status = response.status; headers = response.headers; body = response.body }
unfolding bridge
bridge_lem response h =
    rw (copy_headers-append response.headers [] (all-new response.headers) h) refl
