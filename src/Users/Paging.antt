-- ===== src/Users/Paging.antt =====
-- The pages of src/modules/users hold all the users.
use nest_fastify_boilerplate.Prelude.{
  ℕ, zero, suc, ◌+◌, ◌-◌, ◌*◌, ◌≤◌, ◌<◌, ◌≡◌, refl, List, [], ◌∷◌, ◌++◌, length, take, drop, min,
  ◌↔◌, Bool-cases, ltb, ltb→lt, inl, inr, arith, ap, ap₂, ◌∙◌, sym, String, Option, none, some,
}
use nest_fastify_boilerplate.Effects.{Outcome, returned, thrown}
use nest_fastify_boilerplate.Http.Status.{PaginationMeta}
use nest_fastify_boilerplate.Http.Interceptor.{build_pagination, build_pagination_lem}
use nest_fastify_boilerplate.Config.Rules.{Number}
use nest_fastify_boilerplate.Users.{
  UserRepository, Page, ListUsersQuery, list_users_query, list_users,
}

module _ {ℓ} {A : Type ℓ} where
  abbrev nothing : List A
  nothing = []

  take_nil : (n : ℕ) → take n nothing ≡ nothing
  take_nil zero = refl
  take_nil (suc n) = refl

  take-add : (a b : ℕ) (xs : List A) → take a xs ++ take b (drop a xs) ≡ take (a + b) xs
  take-add zero b xs = ap (λ m. take m xs) (omega arith)
  take-add (suc a) b [] = take_nil b ∙ sym (take_nil (suc a + b))
  take-add (suc a) b (x ∷ xs) = ap (λ ys. x ∷ ys) (take-add a b xs) ∙ ap (λ m. take m (x ∷ xs)) step
    where
      step : suc (a + b) ≡ suc a + b
      step = omega arith

  take_of_length : (n : ℕ) (xs : List A) → length xs ≤ n → take n xs ≡ xs
  take_of_length zero [] h = refl
  take_of_length zero (x ∷ xs) h = absurd (omega arith)
  take_of_length (suc n) [] h = refl
  take_of_length (suc n) (x ∷ xs) h = ap (λ ys. x ∷ ys) (take_of_length n xs (omega arith))

length-take {ℓ} : {A : Type ℓ} (n : ℕ) (xs : List A) → length (take n xs) ≤ n
length-take zero xs = omega arith
length-take (suc n) [] = omega arith
length-take (suc n) (x ∷ xs) = omega (arith, length-take n xs)

-- The table does not change, and its rows come in one order at each query.
pub record IsStable {U : Type 0} (users : UserRepository U) (rows : List U) (s : users.State)
    : Type 0 where
  pub found : (skip n : ℕ) → users.find_all skip n s ≡ (returned (take n (drop skip rows)), s)
  pub counted : users.count s ≡ (returned (length rows), s)

abbrev pub items_of : {U : Type 0} → Outcome (Page U) → List U
items_of (returned p) = p.items
items_of (thrown e) = []

abbrev pub meta_of : {U : Type 0} → Outcome (Page U) → PaginationMeta
meta_of (returned p) = build_pagination p.page p.limit p.total
meta_of (thrown e) = build_pagination 0 0 0

module _ {U : Type 0} (users : UserRepository U) (limit : ℕ) (s : users.State) where
  -- The items of the first pages, one after the other.
  unfoldable pub first_pages : ℕ → List U
  first_pages zero = []
  first_pages (suc n) = first_pages n ++ items_of (list_users users (suc n) limit s).0

  list_users_lem :
      (rows : List U) (page : ℕ)
      → IsStable users rows s
      → (list_users users page limit s).0
        ≡ returned (record {
          items = take limit (drop ((page - 1) * limit) rows);
          total = length rows;
          page = page;
          limit = limit;
        })
  unfolding list_users
  list_users_lem rows page stable =
      ground (arith, stable.found ((page - 1) * limit) limit, stable.counted)

  first_pages-take :
      (rows : List U) (n : ℕ) → IsStable users rows s → first_pages n ≡ take (n * limit) rows
  unfolding first_pages
  first_pages-take rows zero stable =
      let none_yet : 0 ≡ 0 * limit = omega arith in ap (λ m. take m rows) none_yet
  first_pages-take rows (suc n) stable =
      let before : suc n - 1 ≡ n = omega arith in
      let after : n * limit + limit ≡ suc n * limit = grind arith in
      ap₂ (λ xs ys. xs ++ ys) (first_pages-take rows n stable)
        (ap items_of (list_users_lem rows (suc n) stable))
      ∙ ap (λ m. take (n * limit) rows ++ take limit (drop (m * limit) rows)) before
      ∙ take-add (n * limit) limit rows
      ∙ ap (λ m. take m rows) after

list_users_query_lem :
    (number_of : String → Number) (page limit : Option String) (q : ListUsersQuery)
    → list_users_query number_of page limit ≡ some q
    → (0 < q.page) × (0 < q.limit) × (q.limit ≤ 100)
unfolding list_users_query
list_users_query_lem number_of none none q h = ground (arith, h)
list_users_query_lem number_of (some p) none q h = ground (arith, h)
list_users_query_lem number_of none (some l) q h = ground (arith, h)
list_users_query_lem number_of (some p) (some l) q h = ground (arith, h)

-- For each query that the schema lets through, whatever page it asks for, where the table does not
-- change meanwhile and the database gives its rows in one order at each query (which the code does
-- not ask it for): the pages of the asked size that the answer's pagination announces are all the
-- users in that order, each once.
pub first_pages_in_order :
    {U : Type 0} (users : UserRepository U) (number_of : String → Number)
    (page limit : Option String) (q : ListUsersQuery) (rows : List U) (s : users.State)
    → list_users_query number_of page limit ≡ some q
    → IsStable users rows s
    → first_pages users q.limit s (meta_of (list_users users q.page q.limit s).0).total_pages ≡ rows
first_pages_in_order users number_of page limit q rows s valid stable =
    let (_, positive, _) = list_users_query_lem number_of page limit q valid in
    let same = ap meta_of (list_users_lem users q.limit s rows q.page stable) in
    let enough = (build_pagination_lem q.page q.limit (length rows) positive).0 in
    ap (λ m. first_pages users q.limit s m.total_pages) same
    ∙ first_pages-take users q.limit s rows _ stable
    ∙ take_of_length _ rows enough

-- What LIMIT and OFFSET and COUNT give of a table of `total` rows, whatever the order of the rows: a
-- query skips so many of them and gives so many of the others as there are, up to the limit.
pub record IsCut {U : Type 0} (users : UserRepository U) (total : ℕ) (s : users.State)
    : Type 0 where
  pub found :
      (skip n : ℕ)
      → (items : List U) × (users.find_all skip n s ≡ (returned items, s))
        × (length items ≡ min n (total - skip))
  pub counted : users.count s ≡ (returned total, s)

length-append {ℓ} : {A : Type ℓ} (xs ys : List A) → length (xs ++ ys) ≡ length xs + length ys
length-append [] ys = omega arith
length-append (x ∷ xs) ys = omega (arith, length-append xs ys)

min_sum : (a l t : ℕ) → min a t + min l (t - a) ≡ min (a + l) t
min_sum a l t = omega arith

times_mono : (a b l : ℕ) → a ≤ b → a * l ≤ b * l
times_mono zero b l h = grind arith
times_mono (suc a) zero l h = absurd (omega arith)
times_mono (suc a) (suc b) l h =
    let rest = times_mono a b l (omega arith) in
    let left : suc a * l ≡ a * l + l = grind arith in
    let right : suc b * l ≡ b * l + l = grind arith in omega (arith, rest, left, right)

-- With `pages` pages of that size for all rows, the page behind `k` others has a row exactly if it is
-- one of them.
has_row :
    (k pages limit total : ℕ)
    → 0 < limit
    → total ≤ pages * limit
    → pages * limit < total + limit
    → (0 < min limit (total - k * limit)) ↔ (k < pages)
has_row k pages limit total positive enough least = (forth, back)
  where
    forth : 0 < min limit (total - k * limit) → k < pages
    forth h = elim (Bool-cases (ltb k pages)) [
      | inl less ↦ ltb→lt k pages less
      | inr past ↦ absurd (
          let beyond : pages ≤ k = ground arith in
          omega (arith, h, enough, times_mono pages k limit beyond))
    ]

    back : k < pages → 0 < min limit (total - k * limit)
    back h =
        let more = times_mono (suc k) pages limit (omega arith) in
        let step : suc k * limit ≡ k * limit + limit = grind arith in
        omega (arith, more, step, least, positive)

module _ {U : Type 0} (users : UserRepository U) (limit total : ℕ) (s : users.State)
    (cut : IsCut users total s) where
  page_of :
      (page : ℕ)
      → (items : List U) × (length items ≡ min limit (total - (page - 1) * limit))
        × ((list_users users page limit s).0
            ≡ returned (record { items = items; total = total; page = page; limit = limit }))
  unfolding list_users
  page_of page =
      let (items, found, size) = cut.found ((page - 1) * limit) limit in
      (items, size, ground (arith, found, cut.counted))

  length-items_of :
      (page : ℕ)
      → length (items_of (list_users users page limit s).0) ≡ min limit (total - (page - 1) * limit)
  length-items_of page = let (items, size, got) = page_of page in rw got size

  length-first_pages : (n : ℕ) → length (first_pages users limit s n) ≡ min (n * limit) total
  unfolding first_pages
  length-first_pages zero = grind arith
  length-first_pages (suc n) =
      rw
        (
          length-append (first_pages users limit s n)
              (items_of (list_users users (suc n) limit s).0),
          length-first_pages n,
          length-items_of (suc n),
        )
        (let before : suc n - 1 ≡ n = omega arith in
          let after : suc n * limit ≡ n * limit + limit = grind arith in
          rw (before, after) (min_sum (n * limit) limit total))

-- For each query that the schema lets through, whatever page it asks for and in whatever order the
-- database gives the rows, where the table does not change meanwhile: a page has at most 100 users;
-- the pages of the asked size that the answer's pagination announces have together as many users as
-- the table; and each page that is announced has a user, and no later page has one.
pub first_pages_lem :
    {U : Type 0} (users : UserRepository U) (number_of : String → Number)
    (page limit : Option String) (q : ListUsersQuery) (total : ℕ) (s : users.State)
    → list_users_query number_of page limit ≡ some q
    → IsCut users total s
    → ((n : ℕ) → length (items_of (list_users users n q.limit s).0) ≤ 100)
      × (length (
            first_pages users q.limit s (meta_of (list_users users q.page q.limit s).0).total_pages)
          ≡ total)
      × ((n : ℕ)
          → 0 < n
          → (0 < length (items_of (list_users users n q.limit s).0))
            ↔ (n ≤ (meta_of (list_users users q.page q.limit s).0).total_pages))
first_pages_lem users number_of page limit q total s valid cut =
    let (_, positive, bounded) = list_users_query_lem number_of page limit q valid in
    let (items, _, got) = page_of users q.limit total s cut q.page in
    let (enough, least, _, _) = build_pagination_lem q.page q.limit total positive in
    (
      λ n. rw (length-items_of users q.limit total s cut n) (omega (arith, bounded)),
      rw (got, length-first_pages users q.limit total s cut _) (omega (arith, enough)),
      λ n first.
          rw (got, length-items_of users q.limit total s cut n)
            (let (forth, back) =
                has_row (n - 1) (build_pagination q.page q.limit total).total_pages q.limit total
                  positive enough least in
              (λ h. omega (arith, forth h, first), λ h. back (omega (arith, h, first)))),
    )
