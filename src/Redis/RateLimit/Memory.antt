-- ===== src/Redis/RateLimit/Memory.antt =====
-- Sorted sets as the function from keys to entries: it shows that the behaviour assumed in
-- Redis/RateLimit/Commands.antt can be met, and it runs in the tests.
use nest_fastify_boilerplate.Prelude.{◌+◌, String, refl, Option, none, length, ◌==◌, if◌then◌else◌}
use nest_fastify_boilerplate.Redis.RateLimit.Commands.{
  SortedSet, SortedSets, visible_members, above, without, insert, stored, deadline_of, expiring,
  first_of,
}

abbrev Sets : Type 0
Sets = String → Option SortedSet

abbrev change : String → (Option SortedSet → Option SortedSet) → Sets → Sets
change k f s j = if k == j then f (s j) else s j

abbrev pub sorted_sets : SortedSets
sorted_sets = record {
  State = Sets;
  entry = λ s. s;
  zremrangebyscore =
      λ now k high. change k (λ e. stored (above high (visible_members now e)) (deadline_of now e));
  zcard = λ now k s. length (visible_members now (s k));
  zadd = λ now k score member. change k (λ e.
      stored (insert member score (without member (visible_members now e))) (deadline_of now e));
  pexpire = λ now k ttl.
      change k (λ e. expiring (now + ttl) (stored (visible_members now e) (deadline_of now e)));
  zrange_first = λ now k s. first_of (visible_members now (s k));
  zremrangebyscore-entry = λ now k high s j. refl;
  zcard_lem = λ now k s. refl;
  zadd-entry = λ now k score member s j. refl;
  pexpire-entry = λ now k ttl s j. refl;
  zrange_first_lem = λ now k s. refl;
}

abbrev pub no_sets : Sets
no_sets k = none
