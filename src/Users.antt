-- ===== src/Users.antt =====
-- src/modules/users: the service over the repository of users, and the pages of its controller.
pub mod Paging
pub mod Tests
use nest_fastify_boilerplate.Prelude.{
  ℕ, ◌-◌, ◌*◌, String, Bool, Option, none, some, List, [], ◌∷◌, ltb, leb, ◌&&◌, if◌then◌else◌,
}
use nest_fastify_boilerplate.Effects.{
  Outcome, Exec, AppException, returned, thrown, app_exception, pure, throw, ◌>>=◌,
}
use nest_fastify_boilerplate.Config.Rules.{Number, natural}

-- `UserRepository`, behind which Prisma reads the table: by the primary key, a part of the rows after
-- some, and their number.
pub record UserRepository (U : Type 0) : Type 1 where
  pub State : Type 0
  pub find_by_id : String → Exec State (Option U)
  pub find_all : ℕ → ℕ → Exec State (List U)
  pub count : Exec State ℕ

-- `listUsersQuerySchema` of src/modules/users/dto/list-users-query.dto.ts
pub record ListUsersQuery : Type 0 where
  pub page : ℕ
  pub limit : ℕ

-- `z.coerce.number().int().positive()`, with a greatest value or not
abbrev within : Option ℕ → ℕ → Bool
within none n = ltb 0 n
within (some most) n = ltb 0 n && leb n most

abbrev positive_int : Option ℕ → Number → Option ℕ
positive_int most (natural n) = if within most n then some n else none
positive_int most _ = none

abbrev or_default : (String → Number) → Option ℕ → ℕ → Option String → Option ℕ
or_default number_of most value none = some value
or_default number_of most value (some s) = positive_int most (number_of s)

abbrev both : Option ℕ → Option ℕ → Option ListUsersQuery
both (some page) (some limit) = some (record { page = page; limit = limit })
both _ _ = none

-- `none` is a query that the validation refuses. Each parameter is given at most once.
unfoldable pub list_users_query :
    (String → Number) → Option String → Option String → Option ListUsersQuery
list_users_query number_of page limit =
    both (or_default number_of none 1 page) (or_default number_of (some 100) 20 limit)

pub record Page (U : Type 0) : Type 0 where
  pub items : List U
  pub total : ℕ
  pub page : ℕ
  pub limit : ℕ

abbrev pub not_found : String → AppException
not_found id = record {
  message_key = "users.NOT_FOUND";
  status = 404;
  args = ("id", id) ∷ [];
  code = none;
}

module _ {U : Type 0} (users : UserRepository U) where
  -- The page is positive.
  unfoldable pub find_all : ℕ → ℕ → Exec users.State (List U × ℕ)
  find_all page limit = do
    items ← users.find_all ((page - 1) * limit) limit
    total ← users.count
    pure (items, total)

  abbrev or_throw : String → Option U → Exec users.State U
  or_throw id none = throw (app_exception (not_found id))
  or_throw id (some user) = pure user

  unfoldable pub find_one : String → Exec users.State U
  find_one id = users.find_by_id id >>= or_throw id

  -- `UsersController.findAll`
  unfoldable pub list_users : ℕ → ℕ → Exec users.State (Page U)
  unfolding find_all
  list_users page limit = do
    (items, total) ← find_all page limit
    pure (record { items = items; total = total; page = page; limit = limit })
