-- ===== src/Redis/RateLimit/Commands.antt =====
-- What the rate limit of src/core/redis relies on of the Redis server: its commands on sorted sets, as a
-- parameter with the documented behaviour of each.
use nest_fastify_boilerplate.Prelude.{
  ℕ, ◌+◌, String, ◌≡◌, Bool, true, Option, none, some, List, [], ◌∷◌, ltb, length, ◌==◌,
  if◌then◌else◌,
}

-- A member with its score.
abbrev pub Member : Type 0
Member = String × ℕ

-- The members, lowest score first.
pub record SortedSet : Type 0 where
  pub members : List Member
  pub deadline : Option ℕ

abbrev is_live : ℕ → Option ℕ → Bool
is_live now none = true
is_live now (some d) = ltb now d

-- What a command sees of an entry at a time: a set is empty once its deadline is reached.
abbrev pub visible_members : ℕ → Option SortedSet → List Member
visible_members now none = []
visible_members now (some set) = if is_live now set.deadline then set.members else []

-- the members with a score above a bound; `none` is a bound below 0
unfoldable pub above : Option ℕ → List Member → List Member
above none ms = ms
above (some high) [] = []
above (some high) ((m, score) ∷ ms) =
    let rest = above (some high) ms in if ltb high score then (m, score) ∷ rest else rest

unfoldable pub without : String → List Member → List Member
without member [] = []
without member ((m, score) ∷ ms) =
    let rest = without member ms in if m == member then rest else (m, score) ∷ rest

-- into its place by score
unfoldable pub insert : String → ℕ → List Member → List Member
insert member score [] = (member, score) ∷ []
insert member score ((m, other) ∷ ms) =
    let rest = insert member score ms in
    if ltb score other then (member, score) ∷ (m, other) ∷ ms else (m, other) ∷ rest

-- A set without members is gone.
abbrev pub stored : List Member → Option ℕ → Option SortedSet
stored [] d = none
stored (m ∷ ms) d = some (record { members = m ∷ ms; deadline = d })

abbrev pub deadline_of : ℕ → Option SortedSet → Option ℕ
deadline_of now none = none
deadline_of now (some set) = if is_live now set.deadline then set.deadline else none

abbrev pub expiring : ℕ → Option SortedSet → Option SortedSet
expiring d none = none
expiring d (some set) = some (record set { deadline = some d })

abbrev pub first_of : List Member → Option Member
first_of [] = none
first_of (m ∷ ms) = some m

-- A command takes the server's clock, in milliseconds; `zremrangebyscore` is called with the lower
-- bound 0, and `zrange` for the first member with its score.
pub record SortedSets : Type 1 where
  pub State : Type 0
  pub entry : State → String → Option SortedSet
  pub zremrangebyscore : ℕ → String → Option ℕ → State → State
  pub zcard : ℕ → String → State → ℕ
  pub zadd : ℕ → String → ℕ → String → State → State
  pub pexpire : ℕ → String → ℕ → State → State
  pub zrange_first : ℕ → String → State → Option Member
  pub zremrangebyscore-entry :
      (now : ℕ) (k : String) (high : Option ℕ) (s : State) (j : String)
      → entry (zremrangebyscore now k high s) j ≡ (
          if k == j
          then stored (above high (visible_members now (entry s j))) (deadline_of now (entry s j))
          else entry s j)
  pub zcard_lem :
      (now : ℕ) (k : String) (s : State) → zcard now k s ≡ length (visible_members now (entry s k))
  pub zadd-entry :
      (now : ℕ) (k : String) (score : ℕ) (member : String) (s : State) (j : String)
      → entry (zadd now k score member s) j ≡ (
          if k == j
          then stored
              (insert member score (without member (visible_members now (entry s j))))
              (deadline_of now (entry s j))
          else entry s j)
  pub pexpire-entry :
      (now : ℕ) (k : String) (ttl : ℕ) (s : State) (j : String)
      → entry (pexpire now k ttl s) j ≡ (
          if k == j
          then expiring
              (now + ttl)
              (stored (visible_members now (entry s j)) (deadline_of now (entry s j)))
          else entry s j)
  pub zrange_first_lem :
      (now : ℕ) (k : String) (s : State)
      → zrange_first now k s ≡ first_of (visible_members now (entry s k))
