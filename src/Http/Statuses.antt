-- ===== src/Http/Statuses.antt =====
-- `ApiStandardErrorResponses` of src/common/http/api-envelope.decorator.ts: the statuses of the errors
-- that each route documents, against those that the code answers with.
use nest_fastify_boilerplate.Prelude.{
  ℕ, String, ◌≡◌, ◌⊎◌, inl, inr, refl, Bool, true, false, Option, none, some, List, [], ◌∷◌, any,
  eqb, arith,
}
use nest_fastify_boilerplate.Effects.{Issue}
use nest_fastify_boilerplate.Http.Status.{Request, ErrorResponse, Sent}
use nest_fastify_boilerplate.Http.Filter.{
  Exception, app, error, non_error, zod_validation, zod_serialization, catch, judge,
}
use nest_fastify_boilerplate.Http.Guards.{
  unauthorized, forbidden, Route, Session, pass, refuse, admit,
}
use nest_fastify_boilerplate.Redis.Lock.{lock_acquisition_failed}
use nest_fastify_boilerplate.Users.{not_found}

unfoldable pub api_standard_error_responses : List ℕ
api_standard_error_responses = 400 ∷ 401 ∷ 403 ∷ 404 ∷ 409 ∷ 422 ∷ 500 ∷ []

abbrev pub is_documented_status : Option (Sent ErrorResponse) → Bool
is_documented_status none = false
is_documented_status (some sent) = any (λ n. eqb n sent.status) api_standard_error_responses

-- What the code of the API throws: the guards, on the session that Better Auth finds, the users, a lock
-- that is not granted, a refused input or output, and whatever is no exception of HTTP.
pub data Raised : Exception → Type 0 where
  by_guards :
      (admin_user_ids : List String) (route : Route) (session : Option Session) (e : Exception)
      → admit admin_user_ids true route (pass session) ≡ refuse e
      → Raised e
  by_users : (id : String) → Raised (app (not_found id))
  by_lock : Raised (app lock_acquisition_failed)
  by_validation : (issues : Option (List Issue)) → Raised (zod_validation issues)
  by_serialization : (issues : Option (List Issue)) → Raised (zod_serialization issues)
  by_error : (m : String) → Raised (error m)
  by_value : (shown : String) → Raised (non_error shown)

-- The guards throw those two exceptions and no other.
refusal_of :
    (admin_user_ids : List String) (route : Route) (session : Option Session) (e : Exception)
    → admit admin_user_ids true route (pass session) ≡ refuse e
    → (e ≡ unauthorized) ⊎ (e ≡ forbidden)
unfolding admit
refusal_of ids route none e h = ground (arith, h)
refusal_of ids route (some s) e h = ground (arith, h)

module _ (status_name : ℕ → Option String) (translate : String → List (String × String) → String)
    (production : Bool) (req : Request) (has_header : Bool) (now : String) where
  -- The status of each of them is documented.
  pub Raised-is_documented_status :
      (e : Exception)
      → Raised e
      → is_documented_status (catch status_name translate production true req has_header now e)
        ≡ true
  unfolding catch judge api_standard_error_responses
  Raised-is_documented_status e (by_guards ids route session _ h) =
      elim (refusal_of ids route session e h) [
        | inl closed ↦ rw closed refl
        | inr barred ↦ rw barred refl
      ]
  Raised-is_documented_status _ (by_users id) = refl
  Raised-is_documented_status _ by_lock = refl
  Raised-is_documented_status _ (by_validation issues) = refl
  Raised-is_documented_status _ (by_serialization issues) = refl
  Raised-is_documented_status _ (by_error m) = refl
  Raised-is_documented_status _ (by_value shown) = refl
