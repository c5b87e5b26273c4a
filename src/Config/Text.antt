-- ===== src/Config/Text.antt =====
-- What src/core/config/env.schema.ts does with the texts of the environment: `split`, `trim`, `length`
-- and the pattern of a log file's size.
use Prim.Native.Char.{Char, code}
use Prim.Native.String.{String, [], ◌∷◌}
use mathlib.Core.List.{List, [], ◌∷◌}
use nest_fastify_boilerplate.Prelude.{
  ℕ, ◌+◌, ◌≡◌, refl, Bool, true, false, eqb, ltb, leb, ◌&&◌, ◌||◌, if◌then◌else◌,
}

abbrev is_empty : String → Bool
is_empty [] = true
is_empty (c ∷ s) = false

-- the white space and line ends of JavaScript
abbrev is_space : ℕ → Bool
is_space n =
    (leb 9 n && leb n 13)
    || eqb n 32
    || eqb n 160
    || eqb n 5760
    || (leb 8192 n && leb n 8202)
    || eqb n 8232
    || eqb n 8233
    || eqb n 8239
    || eqb n 8287
    || eqb n 12_288
    || eqb n 65_279

trim_start : String → String
trim_start [] = []
trim_start (c ∷ s) = let rest = trim_start s in if is_space (code c) then rest else c ∷ s

trim_end : String → String
trim_end [] = []
trim_end (c ∷ s) =
    let rest = trim_end s in if is_space (code c) && is_empty rest then [] else c ∷ rest

-- `s.trim()`
unfoldable pub trim : String → String
unfolding trim_start trim_end
trim s = trim_end (trim_start s)

abbrev push_front : Char → List String → List String
push_front c [] = (c ∷ []) ∷ []
push_front c (w ∷ ws) = (c ∷ w) ∷ ws

-- `s.split(',')`
unfoldable pub split_comma : String → List String
split_comma [] = [] ∷ []
split_comma (c ∷ s) =
    let rest = split_comma s in if eqb (code c) b',' then [] ∷ rest else push_front c rest

-- `s.length`, in units of 16 bits
unfoldable pub utf16_length : String → ℕ
utf16_length [] = 0
utf16_length (c ∷ s) = (if ltb (code c) 65_536 then 1 else 2) + utf16_length s

abbrev is_digit : ℕ → Bool
is_digit n = leb b'0' n && leb n b'9'

abbrev is_unit : ℕ → Bool
is_unit n = eqb n b'k' || eqb n b'm' || eqb n b'g' || eqb n b'K' || eqb n b'M' || eqb n b'G'

after_digit : String → Bool
after_digit [] = true
after_digit (c ∷ s) =
    let rest = after_digit s in (is_digit (code c) && rest) || (is_unit (code c) && is_empty s)

-- `/^\d+[kmg]?$/i`
unfoldable pub is_size : String → Bool
unfolding after_digit
is_size [] = false
is_size (c ∷ s) = is_digit (code c) && after_digit s

size_runs :
    (is_size "50m" ≡ true) × (is_size "1G" ≡ true) × (is_size "m" ≡ false) × (is_size "5mm" ≡ false)
unfolding is_size
size_runs = (refl, refl, refl, refl)

split_runs : split_comma "a, b," ≡ "a" ∷ " b" ∷ "" ∷ []
unfolding split_comma
split_runs = refl

trim_runs : trim "  a b " ≡ "a b"
unfolding trim
trim_runs = refl
