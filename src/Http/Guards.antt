-- ===== src/Http/Guards.antt =====
-- src/common/guards: BetterAuthGuard and, behind it, RolesGuard.
use mathlib.Core.List.{Memᴰ}
use nest_fastify_boilerplate.Prelude.{
  String, ◌≡◌, ◌⊎◌, refl, Bool, true, false, Option, none, some, List, [], ◌∷◌, or_else, ◌==◌, ◌||◌,
  if◌then◌else◌, arith, eq_iff, Bool-cases, Option-cases, inl, inr, sym,
}
use nest_fastify_boilerplate.Http.Filter.{Exception, http, message}

-- `AuthUser` of src/common/decorators/current-user.decorator.ts
pub record AuthUser : Type 0 where
  pub user_id : String
  pub email : String
  pub role : Option String

-- The `role` of a session's user: a text, another value, or none.
pub data RoleValue : Type 0 where
  role_text : String → RoleValue
  role_other : RoleValue

pub record Session : Type 0 where
  pub id : String
  pub email : String
  pub role : RoleValue

-- A route as Nest's reflector shows it to the guards, `none` where nothing is set: `@Public()` and
-- `@Roles(…)`.
pub record Route : Type 0 where
  pub is_public : Option Bool
  pub roles : Option (List String)

pub data Passed {ℓ} (A : Type ℓ) : Type ℓ where
  pass : A → Passed A
  refuse : Exception → Passed A

abbrev pub unauthorized : Exception
unauthorized =
    http (record { status = 401; body = message "Unauthorized"; own_message = "Unauthorized" })

abbrev pub forbidden : Exception
forbidden = http (record { status = 403; body = message "Forbidden"; own_message = "Forbidden" })

abbrev role_of : RoleValue → Option String
role_of (role_text s) = some s
role_of role_other = none

abbrev pub user_of : Session → AuthUser
user_of s = record { user_id = s.id; email = s.email; role = role_of s.role }

-- What the guards read and write of a request: `req.user` and `req.session`.
pub record Request : Type 0 where
  pub user : Option AuthUser
  pub session : Option Session

abbrev pub of_session : Session → Request
of_session s = record { user = some (user_of s); session = some s }

-- `BetterAuthGuard.canActivate` gives the request on; `session` is what Better Auth answers.
abbrev authenticate : Passed (Option Session) → Passed Request
authenticate (pass (some s)) = pass (of_session s)
authenticate (pass none) = refuse unauthorized
authenticate (refuse e) = refuse e

unfoldable pub better_auth_guard : Bool → Route → Passed (Option Session) → Request → Passed Request
better_auth_guard is_http route session req =
    if is_http
    then (if or_else route.is_public false then pass req else authenticate session)
    else pass req

-- `xs.includes(x)`
unfoldable pub includes : List String → String → Bool
includes [] x = false
includes (y ∷ ys) x = (y == x) || includes ys x

abbrev role_matches : List String → Option String → Bool
role_matches roles none = false
role_matches roles (some r) = includes roles r

abbrev user_matches : List String → List String → Option AuthUser → Bool
user_matches admin_user_ids roles none = false
user_matches admin_user_ids roles (some u) =
    role_matches roles u.role || includes admin_user_ids u.user_id

abbrev with_roles : List String → Option (List String) → Request → Passed Request
with_roles admin_user_ids none req = pass req
with_roles admin_user_ids (some []) req = pass req
with_roles admin_user_ids (some (r ∷ roles)) req =
    if user_matches admin_user_ids (r ∷ roles) req.user then pass req else refuse forbidden

-- `RolesGuard.canActivate`; the request stays what it is.
unfoldable pub roles_guard : List String → Bool → Route → Request → Passed Request
unfolding includes
roles_guard admin_user_ids is_http route req =
    if is_http then with_roles admin_user_ids route.roles req else pass req

abbrev and_then : Passed Request → (Request → Passed Request) → Passed Request
and_then (pass req) next = next req
and_then (refuse e) next = refuse e

-- The global guards in the order of app.module.ts, on a request that has no user and no session yet.
unfoldable pub admit : List String → Bool → Route → Passed (Option Session) → Passed Request
unfolding better_auth_guard roles_guard
admit admin_user_ids is_http route session =
    and_then (better_auth_guard is_http route session (record { user = none; session = none }))
      (roles_guard admin_user_ids is_http route)

includes-Memᴰ : (xs : List String) (x : String) → includes xs x ≡ true → Memᴰ x xs
unfolding includes
includes-Memᴰ [] x h = cc
includes-Memᴰ (y ∷ ys) x h = elim (Bool-cases (y == x)) [
  | inl same ↦ Memᴰ.head (sym ((eq_iff y x).0 same))
  | inr other ↦ Memᴰ.tail (includes-Memᴰ ys x (ground arith))
]

-- The user's role is one of these, or the user is listed as an administrator.
abbrev pub IsPermitted : List String → List String → AuthUser → Type 0
IsPermitted admin_user_ids roles u =
    ((r : String) × (u.role ≡ some r) × Memᴰ r roles) ⊎ Memᴰ u.user_id admin_user_ids

permitted :
    (admin_user_ids roles : List String) (u : AuthUser)
    → (role_matches roles u.role || includes admin_user_ids u.user_id) ≡ true
    → IsPermitted admin_user_ids roles u
permitted admin_user_ids roles u h = elim (Bool-cases (includes admin_user_ids u.user_id)) [
  | inl listed ↦ inr (includes-Memᴰ admin_user_ids u.user_id listed)
  | inr other ↦ inl (of_role other (Option-cases u.role))
]
  where
    of_role :
        includes admin_user_ids u.user_id ≡ false
        → ((u.role ≡ none) ⊎ ((r : String) × (u.role ≡ some r)))
        → (r : String) × (u.role ≡ some r) × Memᴰ r roles
    of_role other (inl missing) = absurd (ground arith)
    of_role other (inr (r, e)) = (r, e, includes-Memᴰ roles r (ground arith))

-- A request that is let through to an HTTP route with `@Roles(…)` that is not public comes from the
-- user of a session, which the handler finds on it; the user's role is one of those asked for, or the
-- user is listed in ADMIN_USER_IDS.
pub admit_sound :
    (admin_user_ids : List String) (route : Route) (session : Passed (Option Session))
    (req : Request) (r : String) (roles : List String)
    → or_else route.is_public false ≡ false
    → route.roles ≡ some (r ∷ roles)
    → admit admin_user_ids true route session ≡ pass req
    → (s : Session) × (session ≡ pass (some s))
      × (req ≡ of_session s)
      × IsPermitted admin_user_ids (r ∷ roles) (user_of s)
unfolding admit
admit_sound admin_user_ids route (pass (some s)) req r roles closed asked h =
    (s, refl, ground arith, permitted admin_user_ids (r ∷ roles) (user_of s) (ground arith))
admit_sound admin_user_ids route (pass none) req r roles closed asked h = absurd (ground arith)
admit_sound admin_user_ids route (refuse e) req r roles closed asked h = absurd (ground arith)

-- Who is not let through to an HTTP route: without a session, on a route that is not public, the answer
-- is 401 whatever the roles; with a session whose user is not permitted it is 403; and on a public
-- route that asks for roles it is 403 for everybody, since no user is looked up there.
pub admit_refuses :
    (admin_user_ids : List String) (s : Session) (session : Passed (Option Session)) (r : String)
    (roles : List String)
    → (role_matches (r ∷ roles) (role_of s.role) || includes admin_user_ids s.id) ≡ false
    → (admit admin_user_ids true (record { is_public = none; roles = some (r ∷ roles) }) (pass none)
        ≡ refuse unauthorized)
      × (admit admin_user_ids true
            (record { is_public = none; roles = some (r ∷ roles) })
            (pass (some s))
          ≡ refuse forbidden)
      × (admit admin_user_ids true
            (record { is_public = some true; roles = some (r ∷ roles) })
            session
          ≡ refuse forbidden)
unfolding admit
admit_refuses admin_user_ids s session r roles h = ground arith
