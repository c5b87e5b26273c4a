-- ===== src/Config/Validation/Settings.antt =====
-- The settings that are read from an environment which src/core/config/env.schema.ts has let through.
use mathlib.Core.List.{Memᴰ}
use nest_fastify_boilerplate.Prelude.{
  ℕ, String, ◌≡◌, refl, true, Option, none, some, List, or_else, get_elem?, get_elem?-Memᴰ, arith,
  ap, sym, ◌∙◌, Option-cases, inl, inr,
}
use nest_fastify_boilerplate.Effects.{Issue, returned}
use nest_fastify_boilerplate.Config.Rules.{
  Rule, Value, Zod, delays, integer, string, url, number, text, flag, numbers, texts, read, fits,
}
use nest_fastify_boilerplate.Config.Schema.{
  Field, required, default_to, read_instead, field, Env, fields, lookup, parse_field,
}
use nest_fastify_boilerplate.Config.Schema.Reading.{is_read, lookup-parse_fields_of, value_in}
use nest_fastify_boilerplate.Config.Validation.{
  text_at, number_at, numbers_at, validate_env, as_text, as_number, as_numbers,
}
use nest_fastify_boilerplate.Config.Validation.Laws.{
  validate_env_sound, validate_env-returned, distinct-fields,
}

-- The fields by their place.
pub listed : (i : ℕ) {f : Field} → get_elem? fields i ≡ some f → Memᴰ f fields
listed i h = get_elem?-Memᴰ fields i h

module _ (zod : Zod) where
  text_of_url :
      (k : String) (o : Option Value)
      → is_read zod (field k url required) o ≡ true
      → (s : String) × (as_text o ≡ some s)
  unfolding fits
  text_of_url k none h = absurd (ground arith)
  text_of_url k (some (text s)) h = (s, refl)
  text_of_url k (some (number n)) h = absurd (ground arith)
  text_of_url k (some (flag b)) h = absurd (ground arith)
  text_of_url k (some (numbers ns)) h = absurd (ground arith)
  text_of_url k (some (texts ss)) h = absurd (ground arith)

  number_of_integer :
      (k : String) (least : ℕ) (v : Value) (o : Option Value)
      → is_read zod (field k (integer least) (default_to v)) o ≡ true
      → (n : ℕ) × (as_number o ≡ some n)
  unfolding fits
  number_of_integer k least v none h = absurd (ground arith)
  number_of_integer k least v (some (number n)) h = (n, refl)
  number_of_integer k least v (some (text s)) h = absurd (ground arith)
  number_of_integer k least v (some (flag b)) h = absurd (ground arith)
  number_of_integer k least v (some (numbers ns)) h = absurd (ground arith)
  number_of_integer k least v (some (texts ss)) h = absurd (ground arith)

  numbers_of_delays :
      (k s : String) (o : Option Value)
      → is_read zod (field k delays (read_instead s)) o ≡ true
      → (ns : List ℕ) × (as_numbers o ≡ some ns)
  unfolding fits
  numbers_of_delays k s none h = absurd (ground arith)
  numbers_of_delays k s (some (numbers ns)) h = (ns, refl)
  numbers_of_delays k s (some (text t)) h = absurd (ground arith)
  numbers_of_delays k s (some (number n)) h = absurd (ground arith)
  numbers_of_delays k s (some (flag b)) h = absurd (ground arith)
  numbers_of_delays k s (some (texts ss)) h = absurd (ground arith)

module _ (zod : Zod) (message_of : Rule → Option String → String) (prettify : List Issue → String)
    (raw : String → Option String) (env : Env)
    (passed : validate_env zod message_of prettify raw ≡ returned env) where
  -- The value of a setting comes from its own variable.
  pub lookup-validated :
      (f : Field)
      → Memᴰ f fields
      → lookup f.key env ≡ value_in zod message_of raw (parse_field zod message_of f (raw f.key))
  lookup-validated f listed =
      let (_, same, _) = validate_env-returned zod message_of prettify raw env passed in
      ap (lookup f.key) (sym same)
      ∙ lookup-parse_fields_of zod message_of raw f fields distinct-fields listed

  -- A text with a default.
  pub text_with_default :
      (k d : String)
      → Memᴰ (field k string (default_to (text d))) fields
      → text_at k env ≡ some (or_else (raw k) d)
  unfolding parse_field read
  text_with_default k d listed = elim (Option-cases (raw k)) [
    | inl unset ↦ ground (arith, unset, lookup-validated _ listed)
    | inr (s, set) ↦ ground (arith, set, lookup-validated _ listed)
  ]

  module _ (good : zod.is_url "http://localhost:3000" ≡ true) where
    pub required_url :
        (k : String) → Memᴰ (field k url required) fields → (s : String) × (text_at k env ≡ some s)
    required_url k listed =
        text_of_url zod k (lookup k env)
          (validate_env_sound zod message_of prettify raw env _ good passed listed).0

    pub integer_with_default :
        (k : String) (least : ℕ) (v : Value)
        → Memᴰ (field k (integer least) (default_to v)) fields
        → (n : ℕ) × (number_at k env ≡ some n)
    integer_with_default k least v listed =
        number_of_integer zod k least v (lookup k env)
          (validate_env_sound zod message_of prettify raw env _ good passed listed).0

    pub required_delays :
        (k s : String)
        → Memᴰ (field k delays (read_instead s)) fields
        → (ns : List ℕ) × (numbers_at k env ≡ some ns)
    required_delays k s listed =
        numbers_of_delays zod k s (lookup k env)
          (validate_env_sound zod message_of prettify raw env _ good passed listed).0
