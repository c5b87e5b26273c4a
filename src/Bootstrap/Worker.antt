-- ===== src/Bootstrap/Worker.antt =====
-- Bull Board in src/main.worker.ts, behind the environment's schema.
use nest_fastify_boilerplate.Prelude.{
  String, ◌<>◌, ◌≡◌, refl, true, false, Option, some, List, or_else, ◌==◌, arith, Option-cases,
  Bool-cases, inl, inr, subst,
}
use nest_fastify_boilerplate.Effects.{Issue, returned}
use nest_fastify_boilerplate.Config.Rules.{Rule, Zod, read}
use nest_fastify_boilerplate.Config.Schema.{Env, fields, parse_field}
use nest_fastify_boilerplate.Config.Validation.{validate_env, text_at, is_production}
use nest_fastify_boilerplate.Config.Validation.Laws.{validate_env-returned, super_refine-IsCoherent}
use nest_fastify_boilerplate.Config.Validation.Settings.{listed, lookup-validated}
use nest_fastify_boilerplate.Http.BasicAuth.{
  done, bull_board_auth_hook, bull_board_auth_hook_lem, verify_basic_auth, basic_header,
  verify_basic_auth_lem,
}
use nest_fastify_boilerplate.Bootstrap.{worker_hook}

-- An optional text is validated as it is.
optional_text :
    (zod : Zod) (message_of : Rule → Option String → String) (prettify : List Issue → String)
    (raw : String → Option String) (env : Env)
    → validate_env zod message_of prettify raw ≡ returned env
    → text_at "BULLBOARD_PASSWORD" env ≡ raw "BULLBOARD_PASSWORD"
unfolding parse_field read fields
optional_text zod message_of prettify raw env passed =
    elim (Option-cases (raw "BULLBOARD_PASSWORD")) [
      | inl unset ↦
          ground (
            arith,
            unset,
            lookup-validated zod message_of prettify raw env passed _ (listed 38 refl),
          )
      | inr (s, set) ↦
          ground
            (arith, set, lookup-validated zod message_of prettify raw env passed _ (listed 38 refl))
    ]

let_on-verified :
    (decode : String → String) (route_prefix user pass rest : String)
    (authorization : Option String)
    → bull_board_auth_hook decode route_prefix user pass (route_prefix <> rest) authorization ≡ done
    → (encoded : String) × (authorization ≡ basic_header encoded)
      × (decode encoded ≡ user <> ":" <> pass)
let_on-verified decode route_prefix user pass rest authorization h =
    elim (Bool-cases (verify_basic_auth decode authorization user pass)) [
      | inl verified ↦ ((verify_basic_auth_lem decode authorization user pass).0 verified).0
      | inr other ↦
          let refused =
            (bull_board_auth_hook_lem decode route_prefix user pass (route_prefix <> rest)
                authorization).1
              ((rest, refl), other) in
          absurd (ground (arith, refused, h))
    ]

-- In production, a request whose URL begins with the route of Bull Board is let on only with the
-- header of Basic authentication for the user and the password of the environment; the password is
-- set there, and is no empty text, so the worker does not fall back on the password 'admin'.
pub worker_hook_lem :
    (zod : Zod) (message_of : Rule → Option String → String) (prettify : List Issue → String)
    (raw : String → Option String) (env : Env) (decode : String → String) (rest : String)
    (authorization : Option String)
    → validate_env zod message_of prettify raw ≡ returned env
    → is_production env ≡ true
    → worker_hook decode raw ("/admin/queues" <> rest) authorization ≡ done
    → (password encoded : String) × (raw "BULLBOARD_PASSWORD" ≡ some password)
      × ((password == "") ≡ false)
      × (authorization ≡ basic_header encoded)
      × (decode encoded ≡ or_else (raw "BULLBOARD_USER") "admin" <> ":" <> password)
unfolding worker_hook
worker_hook_lem zod message_of prettify raw env decode rest authorization passed production let_on =
    let (_, _, refined) = validate_env-returned zod message_of prettify raw env passed in
    let is_there = ((super_refine-IsCoherent env).0 refined).0 production in
    let same = optional_text zod message_of prettify raw env passed in
    let user : String = or_else (raw "BULLBOARD_USER") "admin" in
    elim (Option-cases (raw "BULLBOARD_PASSWORD")) [
      | inl unset ↦ absurd (ground (arith, is_there, same, unset))
      | inr (password, set) ↦
          let (encoded, sent, decoded) =
            let_on-verified decode "/admin/queues" user password rest authorization (
              subst
                (λ p.
                  bull_board_auth_hook decode "/admin/queues" user (or_else p "admin")
                    ("/admin/queues" <> rest) authorization
                  ≡ done)
                set let_on) in
          (password, encoded, set, ground (arith, is_there, same, set), sent, decoded)
    ]
