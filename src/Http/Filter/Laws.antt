-- ===== src/Http/Filter/Laws.antt =====
-- What src/common/filters/http-exception.filter.ts tells the client.
use mathlib.Core.List.{map}
use nest_fastify_boilerplate.Prelude.{
  ℕ, String, ◌≡◌, ◌⊎◌, refl, Bool, true, false, Option, none, some, List, arith, or_else, eq_iff,
  ◌∙◌, sym,
}
use nest_fastify_boilerplate.Effects.{Issue}
use nest_fastify_boilerplate.Http.Status.{ErrorDetail, ErrorResponse, Request, Sent}
use nest_fastify_boilerplate.Http.Filter.{
  Exception, zod_serialization, zod_validation, app, http, error, non_error, catch, judge,
  code_from_status, detail_of,
}

abbrev pub IsUnexpected : Exception → Type 0
IsUnexpected (zod_serialization issues) = Unit
IsUnexpected (error m) = Unit
IsUnexpected (non_error shown) = Unit
IsUnexpected _ = ⊥

module _ (status_name : ℕ → Option String)
    (translate : String → List (String × String) → String) where
  -- Every part of what is sent in production for an unexpected error.
  abbrev pub HidesCause : Option (Sent ErrorResponse) → Type 0
  HidesCause none = ⊥
  HidesCause (some sent) =
      (sent.status ≡ 500)
      × (sent.body.message ≡ "Internal server error")
      × (sent.body.details ≡ none)
      × (sent.body.code ≡ or_else (status_name 500) "HTTP_500")

  unexpected-catch :
      (req : Request) (has_header : Bool) (now : String) (e : Exception)
      → IsUnexpected e
      → catch status_name translate true true req has_header now e
        ≡ catch status_name translate true true req has_header now (error "")
  unfolding catch judge
  unexpected-catch req has_header now (zod_serialization issues) u = refl
  unexpected-catch req has_header now (error m) u = refl
  unexpected-catch req has_header now (non_error shown) u = refl
  unexpected-catch req has_header now (zod_validation _) u = elim u [ ]
  unexpected-catch req has_header now (app _) u = elim u [ ]
  unexpected-catch req has_header now (http _) u = elim u [ ]

  hides_cause :
      (req : Request) (has_header : Bool) (now : String) (e : Exception)
      → IsUnexpected e
      → HidesCause (catch status_name translate true true req has_header now e)
  unfolding catch judge code_from_status
  hides_cause req has_header now (zod_serialization issues) u = (refl, refl, refl, refl)
  hides_cause req has_header now (error m) u = (refl, refl, refl, refl)
  hides_cause req has_header now (non_error shown) u = (refl, refl, refl, refl)
  hides_cause req has_header now (zod_validation _) u = elim u [ ]
  hides_cause req has_header now (app _) u = elim u [ ]
  hides_cause req has_header now (http _) u = elim u [ ]

  -- In production, a client cannot tell one unexpected error from another: for two of those (a
  -- response that does not fit its DTO, an `Error`, another value), on the same request at the same
  -- time, the whole responses are the same, header, code, message, details and meta; the status is
  -- 500, the message is fixed, there are no details, and the code is the name of the status.
  pub production_hides :
      (req : Request) (has_header : Bool) (now : String) (e other : Exception)
      → IsUnexpected e
      → IsUnexpected other
      → (catch status_name translate true true req has_header now e
          ≡ catch status_name translate true true req has_header now other)
        × HidesCause (catch status_name translate true true req has_header now e)
  production_hides req has_header now e other u v = (
    unexpected-catch req has_header now e u ∙ sym (unexpected-catch req has_header now other v),
    hides_cause req has_header now e u,
  )

  -- Details are sent for a request that failed validation and for nothing else: then the status is 422
  -- and they are the fields and messages of the issues.
  pub details_from_validation :
      (production is_http : Bool) (req : Request) (has_header : Bool) (now : String) (e : Exception)
      (sent : Sent ErrorResponse) (details : List ErrorDetail)
      → catch status_name translate production is_http req has_header now e ≡ some sent
      → sent.body.details ≡ some details
      → (issues : List Issue) × (e ≡ zod_validation (some issues))
        × (details ≡ map detail_of issues)
        × (sent.status ≡ 422)
  unfolding catch
  details_from_validation production true req has_header now (zod_validation (some issues)) sent
        details h d =
      (issues, refl, ground arith, ground arith)
  details_from_validation production is_http req has_header now e sent details h d =
      absurd (ground arith)

  -- The correlation id: the response's meta has the id of the request, and so has the header, which is
  -- set exactly where that id is not empty and the reply can set headers.
  pub request_id_echoed :
      (production : Bool) (req : Request) (has_header : Bool) (now : String) (e : Exception)
      (sent : Sent ErrorResponse)
      → catch status_name translate production true req has_header now e ≡ some sent
      → (sent.body.meta.request_id ≡ or_else req.id "")
        × ((sent.request_id_header ≡ some sent.body.meta.request_id)
            ⊎ ((sent.request_id_header ≡ none)
                × ((sent.body.meta.request_id ≡ "") ⊎ (has_header ≡ false))))
  unfolding catch
  request_id_echoed production req has_header now e sent h =
      ground (arith, eq_iff (or_else req.id "") "")
