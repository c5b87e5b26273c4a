-- ===== src/Users/Tests.antt =====
-- Pages of three users.
use nest_fastify_boilerplate.Prelude.{
  arith, String, ◌≡◌, refl, none, some, ℕ, zero, suc, ◌≤◌, ◌<◌, ◌-◌, min, ◌↔◌, List, [], ◌∷◌,
  length, take, drop,
}
use nest_fastify_boilerplate.Effects.{returned}
use nest_fastify_boilerplate.Config.Rules.{natural}
use nest_fastify_boilerplate.Users.{UserRepository, ListUsersQuery, list_users_query, list_users}
use nest_fastify_boilerplate.Users.Paging.{first_pages, meta_of, items_of, first_pages_lem}

abbrev table : UserRepository String
table = record {
  State = List String;
  find_by_id = λ id s. (returned none, s);
  find_all = λ skip n s. (returned (take n (drop skip s)), s);
  count = λ s. (returned (length s), s);
}

abbrev three_users : List String
three_users = "ada" ∷ "bob" ∷ "cyd" ∷ []

-- `?limit=2`
abbrev two_a_page : ListUsersQuery
two_a_page = record { page = 1; limit = 2 }

is_valid : list_users_query (λ s. natural 2) none (some "2") ≡ some two_a_page
unfolding list_users_query
is_valid = refl

length-cut :
    (skip n : ℕ) (xs : List String) → length (take n (drop skip xs)) ≡ min n (length xs - skip)
length-cut zero zero xs = omega arith
length-cut zero (suc n) [] = omega arith
length-cut zero (suc n) (x ∷ xs) = omega (arith, length-cut zero n xs)
length-cut (suc skip) zero [] = omega arith
length-cut (suc skip) (suc n) [] = omega arith
length-cut (suc skip) n (x ∷ xs) = omega (arith, length-cut skip n xs)

first_pages_lem_example :
    ((n : ℕ) → length (items_of (list_users table n 2 three_users).0) ≤ 100)
    × (length (
          first_pages table 2 three_users
            (meta_of (list_users table 1 2 three_users).0).total_pages)
        ≡ 3)
    × ((n : ℕ)
        → 0 < n
        → (0 < length (items_of (list_users table n 2 three_users).0))
          ↔ (n ≤ (meta_of (list_users table 1 2 three_users).0).total_pages))
first_pages_lem_example =
    first_pages_lem table (λ s. natural 2) none (some "2") two_a_page 3 three_users is_valid
      (record {
        found = λ skip n. (take n (drop skip three_users), refl, length-cut skip n three_users);
        counted = refl;
      })
