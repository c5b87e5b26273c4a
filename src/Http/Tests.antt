-- ===== src/Http/Tests.antt =====
-- The filter, the interceptor, the guards and the Basic Auth check on concrete inputs.
use mathlib.Core.List.{map}
use nest_fastify_boilerplate.Prelude.{
  ℕ, String, ◌≡◌, ◌↔◌, refl, true, false, Option, none, some, List, [], ◌∷◌, ◌<>◌, Bool, is_some,
}
use nest_fastify_boilerplate.Effects.{Issue}
use nest_fastify_boilerplate.Http.Status.{ErrorResponse, Request, Sent}
use nest_fastify_boilerplate.Http.Filter.{
  error, zod_validation, catch, judge, code_from_status, detail_of, non_error,
}
use nest_fastify_boilerplate.Http.Filter.Laws.{HidesCause, production_hides}
use nest_fastify_boilerplate.Http.Interceptor.{
  Payload, object, paginated, build_pagination, intercept,
}
use nest_fastify_boilerplate.Http.Json.{Json, number}
use nest_fastify_boilerplate.Http.Documentation.{
  fits_model, is_documented_success, is_documented_error, responses_are_documented,
}
use nest_fastify_boilerplate.Http.Guards.{
  Session, Route, role_text, pass, admit, better_auth_guard, roles_guard, includes, user_of,
  IsPermitted, admit_sound, of_session,
}
use nest_fastify_boilerplate.Http.BasicAuth.{
  NoColon, basic_header, verify_basic_auth, verify_basic_auth_lem,
}

abbrev status_name : ℕ → Option String
status_name n = none

abbrev translate : String → List (String × String) → String
translate key args = key

abbrev get_users : Request
get_users = record { id = some "r1"; url = some "/users" }

abbrev bad_email : List Issue
bad_email = record { path = "user" ∷ "email" ∷ []; message = "Invalid email" } ∷ []

production_hides_example :
    (catch status_name translate true true get_users true "now" (error "no table")
      ≡ catch status_name translate true true get_users true "now" (non_error "42"))
    × HidesCause status_name translate
        (catch status_name translate true true get_users true "now" (error "no table"))
production_hides_example =
    production_hides status_name translate get_users true "now" (error "no table") (non_error "42")
      tt tt

abbrev rejected : Sent ErrorResponse
rejected = record {
  request_id_header = some "r1";
  status = 422;
  body = record {
    code = code_from_status status_name translate true 422;
    message = "Validation failed";
    details = some (map detail_of bad_email);
    meta = record { timestamp = "now"; path = "/users"; request_id = "r1"; pagination = none };
  };
}

sends_rejected :
    catch status_name translate true true get_users true "now" (zod_validation (some bad_email))
    ≡ some rejected
unfolding catch judge
sends_rejected = refl

abbrev ada : Session
ada = record { id = "u1"; email = "ada@example.org"; role = role_text "admin" }

abbrev bob : Session
bob = record { id = "u2"; email = "bob@example.org"; role = role_text "user" }

abbrev for_admins : Route
for_admins = record { is_public = none; roles = some ("admin" ∷ []) }

ada_passes : admit ("u9" ∷ []) true for_admins (pass (some ada)) ≡ pass (of_session ada)
unfolding admit better_auth_guard roles_guard includes
ada_passes = refl

admit_sound_example :
    (s : Session) × (pass (some ada) ≡ pass (some s))
    × (of_session ada ≡ of_session s)
    × IsPermitted ("u9" ∷ []) ("admin" ∷ []) (user_of s)
admit_sound_example =
    admit_sound ("u9" ∷ []) for_admins (pass (some ada)) (of_session ada) "admin" [] refl refl
      ada_passes

-- A stand-in for base64.
abbrev decode : String → String
decode s = s

verify_basic_auth_lem_example :
    (verify_basic_auth decode (basic_header "ann:pw") "ann" "pw" ≡ true) ↔ (
      ((encoded : String) × (basic_header "ann:pw" ≡ basic_header encoded)
        × (encoded ≡ "ann" <> ":" <> "pw"))
      × NoColon "ann")
verify_basic_auth_lem_example = verify_basic_auth_lem decode (basic_header "ann:pw") "ann" "pw"

abbrev number_page : Payload ℕ
number_page = object 0 (some (4 ∷ 5 ∷ [])) (some 1) (some 2) (some 3)

abbrev is_number : Json → Bool
is_number (number n) = true
is_number _ = false

page_fits : fits_model number is_number number_page ≡ true
unfolding paginated build_pagination
page_fits = refl

responses_are_documented_example :
    (is_documented_success number is_number
        (is_some (paginated number_page))
        (intercept true get_users true "now" number_page)
      ≡ true)
    × (is_documented_error
          (catch status_name translate true true get_users true "now" (error "no table"))
        ≡ true)
responses_are_documented_example =
    responses_are_documented number is_number get_users true "now" number_page status_name translate
      true (error "no table") page_fits
