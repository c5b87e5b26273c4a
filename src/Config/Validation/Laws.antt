-- ===== src/Config/Validation/Laws.antt =====
-- What the application may rely on once src/core/config/env.schema.ts has let the environment through.
use mathlib.Core.List.{Memᴰ}
use nest_fastify_boilerplate.Prelude.{
  ℕ, ◌≤◌, String, ◌≡◌, ◌↔◌, refl, Bool, true, false, Option, List, [], ◌∷◌, length, ◌&&◌, not, all,
  arith, subst, ap, sym, ◌∙◌, ltb, ◌++◌,
}
use nest_fastify_boilerplate.Effects.{Issue, Outcome, returned}
use nest_fastify_boilerplate.Config.Rules.{Rule, Zod, fits}
use nest_fastify_boilerplate.Config.Schema.{Field, Env, lookup, fields, parse_fields}
use nest_fastify_boilerplate.Config.Schema.Reading.{
  distinct, default_fits, is_read, parse_fields-is_read,
}
use nest_fastify_boilerplate.Config.Validation.{
  is_set, is_production, max_retries_of, retry_delays_of, super_refine, validate_env, differ,
  raise_if, reject_if,
}

pub distinct-fields : distinct fields ≡ true
unfolding distinct fields
distinct-fields = refl

default_fits-fields :
    (zod : Zod) → zod.is_url "http://localhost:3000" ≡ true → all (default_fits zod) fields ≡ true
unfolding default_fits fields fits
default_fits-fields zod h = ground (arith, h)

-- What the checks across fields demand: a password for Bull Board in production, a delay for each
-- retry, and of each social provider both the id and the secret or neither.
abbrev pub IsCoherent : Env → Type 0
IsCoherent env =
    (is_production env ≡ true → is_set "BULLBOARD_PASSWORD" env ≡ true)
    × (max_retries_of env ≤ length (retry_delays_of env))
    × (is_set "GOOGLE_CLIENT_ID" env ≡ is_set "GOOGLE_CLIENT_SECRET" env)
    × (is_set "FACEBOOK_CLIENT_ID" env ≡ is_set "FACEBOOK_CLIENT_SECRET" env)

module _ (key message : String) where
  raise_if-nil : (b : Bool) → (raise_if b key message ≡ []) ↔ (b ≡ false)
  raise_if-nil true = (λ h. ground arith, λ h. ground arith)
  raise_if-nil false = (λ h. refl, λ h. refl)

  raise_if-append_nil :
      (b : Bool) (rest : List Issue)
      → (raise_if b key message ++ rest ≡ []) ↔ ((b ≡ false) × (rest ≡ []))
  raise_if-append_nil true rest = (λ h. ground arith, λ h. ground arith)
  raise_if-append_nil false rest = (λ h. (refl, h), λ h. h.1)

differ-eq : (a b : Bool) → (differ a b ≡ false) ↔ (a ≡ b)
differ-eq a b = (λ h. ground arith, λ h. ground arith)

and_not-imp : (a b : Bool) → ((a && not b) ≡ false) ↔ (a ≡ true → b ≡ true)
and_not-imp a b = (λ h e. ground arith, λ h. ground arith)

ltb-ge : (m n : ℕ) → (ltb m n ≡ false) ↔ (n ≤ m)
ltb-ge m n = (λ h. ground arith, λ h. ground arith)

pub super_refine-IsCoherent : (env : Env) → (super_refine env ≡ []) ↔ IsCoherent env
unfolding super_refine
super_refine-IsCoherent env = (
  λ h.
      let (a, h') = (raise_if-append_nil _ _ _ _).0 h in
      let (b, h'') = (raise_if-append_nil _ _ _ _).0 h' in
      let (c, d) = (raise_if-append_nil _ _ _ _).0 h'' in
      (
        (and_not-imp _ _).0 a,
        (ltb-ge _ _).0 b,
        (differ-eq _ _).0 c,
        (differ-eq _ _).0 ((raise_if-nil _ _ _).0 d),
      ),
  λ (a, b, c, d). (raise_if-append_nil _ _ _ _).1 (
    (and_not-imp _ _).1 a,
    (raise_if-append_nil _ _ _ _).1 (
      (ltb-ge _ _).1 b,
      (raise_if-append_nil _ _ _ _).1
          ((differ-eq _ _).1 c, (raise_if-nil _ _ _).1 ((differ-eq _ _).1 d)),
    ),
  ),
)

module _ (zod : Zod) (message_of : Rule → Option String → String) (prettify : List Issue → String)
    (e : Env) where
  abbrev checked : List Issue → List Issue → Outcome Env
  checked issues refinements =
      reject_if zod message_of prettify issues
        (reject_if zod message_of prettify refinements (returned e))

  checked-returned :
      (issues refinements : List Issue) (env : Env)
      → checked issues refinements ≡ returned env
      → (issues ≡ []) × (e ≡ env) × (refinements ≡ [])
  checked-returned [] [] env h = (refl, ground arith, refl)
  checked-returned [] (i ∷ rest) env h = absurd (ground arith)
  checked-returned (i ∷ rest) refinements env h = absurd (ground arith)

  checked_clean :
      (issues refinements : List Issue)
      → issues ≡ []
      → refinements ≡ []
      → checked issues refinements ≡ returned e
  checked_clean issues refinements h k = rw h (rw k refl)

-- How the fields and the checks decide.
pub validate_env-returned :
    (zod : Zod) (message_of : Rule → Option String → String) (prettify : List Issue → String)
    (raw : String → Option String) (env : Env)
    → validate_env zod message_of prettify raw ≡ returned env
    → ((parse_fields zod message_of fields raw).0 ≡ [])
      × ((parse_fields zod message_of fields raw).1 ≡ env)
      × (super_refine env ≡ [])
unfolding validate_env
validate_env-returned zod message_of prettify raw env h =
    let (clean, same, refined) =
      checked-returned zod message_of prettify (parse_fields zod message_of fields raw).1
        (parse_fields zod message_of fields raw).0
        (super_refine (parse_fields zod message_of fields raw).1) env h in
    (clean, same, ap super_refine (sym same) ∙ refined)

-- An environment that `validateEnv` lets through: every field of the schema has a value that its rule
-- allows, or none if it is optional; there is a delay for each retry; in production there is a
-- password for Bull Board; and a social provider has both its id and its secret, or neither. The URL
-- that is a default must pass zod's check itself.
pub validate_env_sound :
    (zod : Zod) (message_of : Rule → Option String → String) (prettify : List Issue → String)
    (raw : String → Option String) (env : Env) (f : Field)
    → zod.is_url "http://localhost:3000" ≡ true
    → validate_env zod message_of prettify raw ≡ returned env
    → Memᴰ f fields
    → (is_read zod f (lookup f.key env) ≡ true) × IsCoherent env
validate_env_sound zod message_of prettify raw env f good h listed =
    let (none_raised, same, refined) = validate_env-returned zod message_of prettify raw env h in
    (
      subst (λ e. is_read zod f (lookup f.key e) ≡ true) same
          (parse_fields-is_read zod message_of raw f fields distinct-fields
            (default_fits-fields zod good) none_raised listed),
      (super_refine-IsCoherent env).0 refined,
    )

-- Where no field raises an issue, `validateEnv` returns exactly the environments that are coherent:
-- in each other case it throws.
pub validate_env_complete :
    (zod : Zod) (message_of : Rule → Option String → String) (prettify : List Issue → String)
    (raw : String → Option String)
    → (parse_fields zod message_of fields raw).0 ≡ []
    → (validate_env zod message_of prettify raw
        ≡ returned (parse_fields zod message_of fields raw).1)
      ↔ IsCoherent (parse_fields zod message_of fields raw).1
unfolding validate_env
validate_env_complete zod message_of prettify raw clean =
    let e : Env = (parse_fields zod message_of fields raw).1 in
    (
      λ h.
          let (_, _, refined) = validate_env-returned zod message_of prettify raw e h in
          (super_refine-IsCoherent e).0 refined,
      λ c.
          checked_clean zod message_of prettify e (parse_fields zod message_of fields raw).0
            (super_refine e) clean ((super_refine-IsCoherent e).1 c),
    )
