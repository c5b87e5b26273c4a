-- ===== src/Config/Rules.antt =====
-- The rules of src/core/config/env.schema.ts, and how a text of the environment is read by each.
use nest_fastify_boilerplate.Prelude.{
  ℕ, String, ◌≡◌, refl, Bool, true, false, Option, none, some, List, [], ◌∷◌, ltb, leb, not, any,
  all, map, ◌==◌, if◌then◌else◌, arith,
}
use nest_fastify_boilerplate.Config.Text.{trim, split_comma, utf16_length, is_size}

-- What `Number(text)` is: a safe integer from 0 on, one below 0, or no safe integer.
pub data Number : Type 0 where
  natural negative : ℕ → Number
  no_integer : Number

pub data Value : Type 0 where
  number : ℕ → Value
  text : String → Value
  flag : Bool → Value
  numbers : List ℕ → Value
  texts : List String → Value

-- `z.enum`; `z.coerce.number().int()` with its least value, `.positive()` or `.min(0)`; `z.string()`,
-- alone, with `.min(n)` or with the pattern of a size; `z.url()`; `z.stringbool()`; and the two
-- transformations of a list that is separated by commas.
pub data Rule : Type 0 where
  one_of : List String → Rule
  integer : ℕ → Rule
  string : Rule
  min_length : ℕ → Rule
  size : Rule
  url : Rule
  stringbool : Rule
  delays : Rule
  names : Rule

-- `Number(text)`, and zod's checks of a URL and of a Boolean in words.
pub record Zod : Type 0 where
  pub number_of : String → Number
  pub is_url : String → Bool
  pub stringbool_of : String → Option Bool

abbrev keep_if : Bool → Value → Option Value
keep_if true v = some v
keep_if false v = none

abbrev at_least : ℕ → Number → Option Value
at_least least (natural n) = keep_if (leb least n) (number n)
at_least least _ = none

abbrev add_delay : Number → Option (List ℕ) → Option (List ℕ)
add_delay (natural n) (some ns) = if ltb 0 n then some (n ∷ ns) else none
add_delay _ _ = none

-- `arr.every((n) => Number.isInteger(n) && n > 0)`, with the list
unfoldable pub all_positive : List Number → Option (List ℕ)
all_positive [] = some []
all_positive (n ∷ ns) = let rest = all_positive ns in add_delay n rest

abbrev as_numbers : Option (List ℕ) → Option Value
as_numbers none = none
as_numbers (some []) = none
as_numbers (some (n ∷ ns)) = some (numbers (n ∷ ns))

abbrev as_flag : Option Bool → Option Value
as_flag none = none
as_flag (some b) = some (flag b)

-- `.filter(Boolean)`
unfoldable pub non_empty : List String → List String
non_empty [] = []
non_empty (s ∷ ss) = let rest = non_empty ss in if s == "" then rest else s ∷ rest

unfoldable pub includes : List String → String → Bool
includes ss s = any (λ t. t == s) ss

module _ (zod : Zod) where
  -- `none` where zod raises an issue.
  unfoldable pub read : Rule → String → Option Value
  unfolding trim split_comma utf16_length is_size all_positive non_empty includes
  read (one_of options) s = keep_if (includes options s) (text s)
  read (integer least) s = at_least least (zod.number_of s)
  read string s = some (text s)
  read (min_length n) s = keep_if (leb n (utf16_length s)) (text s)
  read size s = keep_if (is_size s) (text s)
  read url s = keep_if (zod.is_url s) (text s)
  read stringbool s = as_flag (zod.stringbool_of s)
  read delays s = as_numbers (all_positive (map (λ n. zod.number_of (trim n)) (split_comma s)))
  read names s =
      if s == "" then some (texts []) else some (texts (non_empty (map trim (split_comma s))))

  -- The value is one that the rule lets through.
  unfoldable pub fits : Rule → Value → Bool
  unfolding includes utf16_length is_size
  fits (one_of options) (text s) = includes options s
  fits (integer least) (number n) = leb least n
  fits string (text s) = true
  fits (min_length n) (text s) = leb n (utf16_length s)
  fits size (text s) = is_size s
  fits url (text s) = zod.is_url s
  fits stringbool (flag b) = true
  fits delays (numbers (n ∷ ns)) = all (λ m. ltb 0 m) (n ∷ ns)
  fits names (texts ss) = all (λ s. not (s == "")) ss
  fits _ _ = false

  all_positive-all :
      (ns : List Number) (ms : List ℕ) → all_positive ns ≡ some ms → all (λ m. ltb 0 m) ms ≡ true
  unfolding all_positive
  all_positive-all [] ms h = ground arith
  all_positive-all (natural n ∷ ns) [] h = ground arith
  all_positive-all (natural n ∷ ns) (m ∷ ms) h = ground (arith, all_positive-all ns ms)
  all_positive-all (negative n ∷ ns) ms h = ground arith
  all_positive-all (no_integer ∷ ns) ms h = ground arith

  all-non_empty : (ss : List String) → all (λ s. not (s == "")) (non_empty ss) ≡ true
  unfolding non_empty
  all-non_empty [] = refl
  all-non_empty (s ∷ ss) = ground (arith, all-non_empty ss)

  fits-as_numbers :
      (ms : Option (List ℕ)) (v : Value)
      → ((ns : List ℕ) → ms ≡ some ns → all (λ m. ltb 0 m) ns ≡ true)
      → as_numbers ms ≡ some v
      → fits delays v ≡ true
  unfolding fits
  fits-as_numbers none v positive h = ground arith
  fits-as_numbers (some []) v positive h = ground arith
  fits-as_numbers (some (n ∷ ns)) v positive h = ground (arith, positive (n ∷ ns) refl)

  pub fits-read : (r : Rule) (s : String) (v : Value) → read r s ≡ some v → fits r v ≡ true
  unfolding read fits
  fits-read (one_of options) s v h = ground arith
  fits-read (integer least) s v h = ground arith
  fits-read string s v h = ground arith
  fits-read (min_length n) s v h = ground arith
  fits-read size s v h = ground arith
  fits-read url s v h = ground arith
  fits-read stringbool s v h = ground arith
  fits-read delays s v h =
      fits-as_numbers (all_positive (map (λ n. zod.number_of (trim n)) (split_comma s))) v
        (all_positive-all (map (λ n. zod.number_of (trim n)) (split_comma s))) h
  fits-read names s v h = ground (arith, all-non_empty (map trim (split_comma s)))
