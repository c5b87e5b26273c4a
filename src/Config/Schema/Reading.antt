-- ===== src/Config/Schema/Reading.antt =====
-- What the object that `envSchema` reads holds under the keys of its fields.
use mathlib.Core.List.{Memᴰ}
use nest_fastify_boilerplate.Prelude.{
  String, ◌≡◌, refl, Bool, true, false, Option, none, some, List, [], ◌∷◌, any, all, not, ◌&&◌,
  ◌==◌, arith, eq_refl, eq_iff,
}
use nest_fastify_boilerplate.Config.Rules.{Rule, Value, Zod, read, fits, fits-read}
use nest_fastify_boilerplate.Config.Schema.{
  Missing, required, optional, default_to, read_instead, Field, Parsed, issue, absent, present,
  lookup, parse_field, parse_fields, or_issue,
}

unfoldable pub distinct : List Field → Bool
distinct [] = true
distinct (f ∷ fs) = not (any (λ g. g.key == f.key) fs) && distinct fs

any-Memᴰ :
    (k : String) (f : Field) (fs : List Field)
    → any (λ g. g.key == k) fs ≡ false
    → Memᴰ f fs
    → (f.key == k) ≡ false
any-Memᴰ k f [] h m = elim m [ ]
any-Memᴰ k f (g ∷ fs) h (Memᴰ.head e) = rw e (ground arith)
any-Memᴰ k f (g ∷ fs) h (Memᴰ.tail m) = any-Memᴰ k f fs (ground arith) m

module _ (zod : Zod) where
  abbrev missing_fits : Rule → Missing → Bool
  missing_fits r (default_to v) = fits zod r v
  missing_fits r _ = true

  -- A default is a value that its own rule lets through.
  unfoldable pub default_fits : Field → Bool
  default_fits f = missing_fits f.rule f.missing

  abbrev may_be_absent : Missing → Bool
  may_be_absent optional = true
  may_be_absent _ = false

  -- The value fits the field's rule; there is none only if the field is optional.
  abbrev pub is_read : Field → Option Value → Bool
  is_read f none = may_be_absent f.missing
  is_read f (some v) = fits zod f.rule v

  abbrev is_read_as : Field → Parsed → Bool
  is_read_as f issue = true
  is_read_as f absent = may_be_absent f.missing
  is_read_as f (present v) = fits zod f.rule v

  or_issue-is_read_as :
      (f : Field) (o : Option Value)
      → ((v : Value) → o ≡ some v → fits zod f.rule v ≡ true)
      → is_read_as f (or_issue o) ≡ true
  or_issue-is_read_as f none h = refl
  or_issue-is_read_as f (some v) h = h v refl

  module _ (message_of : Rule → Option String → String) (raw : String → Option String) where
    is_read_as-parse_field :
        (f : Field) (o : Option String)
        → default_fits f ≡ true
        → is_read_as f (parse_field zod message_of f o) ≡ true
    unfolding parse_field default_fits
    is_read_as-parse_field f none d = of_missing f.missing d
      where
        of_missing :
            (m : Missing)
            → missing_fits f.rule m ≡ true
            → is_read_as
                (record f { missing = m })
                (parse_field zod message_of (record f { missing = m }) none)
              ≡ true
        of_missing required d = refl
        of_missing optional d = refl
        of_missing (default_to v) d = d
        of_missing (read_instead s) d =
            or_issue-is_read_as (record f { missing = read_instead s }) (read zod f.rule s)
              (fits-read zod f.rule s)
    is_read_as-parse_field f (some s) d =
        or_issue-is_read_as f (read zod f.rule s) (fits-read zod f.rule s)

    lookup-parse_fields :
        (k : String) (fs : List Field)
        → any (λ g. g.key == k) fs ≡ false
        → lookup k (parse_fields zod message_of fs raw).1 ≡ none
    unfolding parse_fields lookup
    lookup-parse_fields k [] h = refl
    lookup-parse_fields k (f ∷ fs) h = ground (arith, lookup-parse_fields k fs)

    pub parse_fields-is_read :
        (f : Field) (fs : List Field)
        → distinct fs ≡ true
        → all default_fits fs ≡ true
        → (parse_fields zod message_of fs raw).0 ≡ []
        → Memᴰ f fs
        → is_read f (lookup f.key (parse_fields zod message_of fs raw).1) ≡ true
    unfolding parse_fields lookup distinct
    parse_fields-is_read f [] d ok none_raised m = elim m [ ]
    parse_fields-is_read f (g ∷ fs) d ok none_raised (Memᴰ.head e) = rw e (
        ground (
          arith,
          is_read_as-parse_field g (raw g.key),
          lookup-parse_fields g.key fs,
          eq_refl g.key,
        ))
    parse_fields-is_read f (g ∷ fs) d ok none_raised (Memᴰ.tail m) = ground (
      arith,
      parse_fields-is_read f fs,
      any-Memᴰ g.key f fs,
      eq_iff f.key g.key,
      eq_iff g.key f.key,
      m,
    )

    abbrev pub value_in : Parsed → Option Value
    value_in (present v) = some v
    value_in _ = none

    -- Under the key of a field stands what the field came to, whether or not others raise issues.
    pub lookup-parse_fields_of :
        (f : Field) (fs : List Field)
        → distinct fs ≡ true
        → Memᴰ f fs
        → lookup f.key (parse_fields zod message_of fs raw).1
          ≡ value_in (parse_field zod message_of f (raw f.key))
    unfolding parse_fields lookup distinct
    lookup-parse_fields_of f [] d m = elim m [ ]
    lookup-parse_fields_of f (g ∷ fs) d (Memᴰ.head e) =
        rw e (ground (arith, lookup-parse_fields g.key fs, eq_refl g.key))
    lookup-parse_fields_of f (g ∷ fs) d (Memᴰ.tail m) = ground (
      arith,
      lookup-parse_fields_of f fs,
      any-Memᴰ g.key f fs,
      eq_iff f.key g.key,
      eq_iff g.key f.key,
      m,
    )
