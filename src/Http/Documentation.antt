-- ===== src/Http/Documentation.antt =====
-- What src/common/http/api-envelope.decorator.ts and src/common/http/error-response.dto.ts say of the
-- responses, against what the interceptor and the filter send.
use nest_fastify_boilerplate.Prelude.{
  ℕ, String, ◌≡◌, refl, Bool, true, false, Option, none, some, List, [], ◌∷◌, all, is_some, arith,
}
use nest_fastify_boilerplate.Http.Status.{
  PaginationMeta, ResponseMeta, SuccessResponse, ErrorDetail, ErrorResponse, Request, Sent,
}
use nest_fastify_boilerplate.Http.Filter.{Exception, catch}
use nest_fastify_boilerplate.Http.Interceptor.{
  Payload, Content, whole, items, paginated, whole_of, intercept,
}
use nest_fastify_boilerplate.Http.Json.{
  Json, string, number, boolean, array, object, Items, no_items, item, Members, no_members, member,
  Schema, string_type, number_type, boolean_type, literal, ref, array_of, object_of, Properties,
  no_properties, property, optional, all_items, conforms,
}

abbrev pagination_properties : Properties
pagination_properties = property "page" number_type (
    property "limit" number_type (
      property "total" number_type (
        property "totalPages" number_type
          (property "hasNext" boolean_type (property "hasPrev" boolean_type no_properties)))))

abbrev if_paginated : Bool → Properties
if_paginated true = property "pagination" (object_of pagination_properties) no_properties
if_paginated false = no_properties

-- `metaProperties`
unfoldable pub meta_properties : Bool → Schema
meta_properties is_paginated = object_of (
    property "timestamp" string_type
      (property "path" string_type (property "requestId" string_type (if_paginated is_paginated))))

abbrev data_schema : Bool → (Json → Bool) → Schema
data_schema true model = array_of (ref model)
data_schema false model = ref model

-- The schema of `ApiEnvelopeResponse`, for the values that the model takes.
unfoldable pub envelope_schema : (Json → Bool) → Bool → Schema
unfolding meta_properties
envelope_schema model is_paginated = object_of (
    property "success" boolean_type (
      property "data" (data_schema is_paginated model)
        (property "meta" (meta_properties is_paginated) no_properties)))

abbrev pub error_schema : Schema
error_schema = object_of (
    property "success" (literal false) (
      property "error"
        (object_of (
          property "code" string_type (
            property "message" string_type (
              optional "details"
                (array_of (
                  object_of
                    (property "field" string_type (property "message" string_type no_properties))))
                no_properties))))
        (property "meta"
          (object_of (
            property "timestamp" string_type
              (property "path" string_type (property "requestId" string_type no_properties))))
          no_properties)))

abbrev pagination_json : PaginationMeta → Json
pagination_json p = object (
    member "page" (number p.page) (
      member "limit" (number p.limit) (
        member "total" (number p.total) (
          member "totalPages" (number p.total_pages) (
            member "hasNext" (boolean p.has_next)
              (member "hasPrev" (boolean p.has_prev) no_members))))))

abbrev pagination_members : Option PaginationMeta → Members
pagination_members none = no_members
pagination_members (some p) = member "pagination" (pagination_json p) no_members

abbrev meta_json : ResponseMeta → Json
meta_json m = object (
    member "timestamp" (string m.timestamp) (
      member "path" (string m.path)
        (member "requestId" (string m.request_id) (pagination_members m.pagination))))

abbrev items_of : {A : Type 0} → (A → Json) → List A → Items
items_of f [] = no_items
items_of f (x ∷ xs) = item (f x) (items_of f xs)

abbrev detail_json : ErrorDetail → Json
detail_json d =
    object (member "field" (string d.field) (member "message" (string d.message) no_members))

abbrev details_members : Option (List ErrorDetail) → Members
details_members none = no_members
details_members (some ds) = member "details" (array (items_of detail_json ds)) no_members

-- The body of an error as it is sent.
abbrev pub error_json : ErrorResponse → Json
error_json e = object (
    member "success" (boolean false) (
      member "error"
        (object (
          member "code" (string e.code)
            (member "message" (string e.message) (details_members e.details))))
        (member "meta" (meta_json e.meta) no_members)))

module _ {T : Type 0} (encode : T → Json) where
  abbrev content_json : Content T → Json
  content_json (whole v) = encode v
  content_json (items xs) = array (items_of encode xs)

  -- The body of a success as it is sent.
  abbrev pub success_json : SuccessResponse (Content T) → Json
  success_json r = object (
      member "success" (boolean true)
        (member "data" (content_json r.content) (member "meta" (meta_json r.meta) no_members)))

  abbrev fits_of : (Json → Bool) → Payload T → Option (List T × PaginationMeta) → Bool
  fits_of model payload none = model (encode (whole_of payload))
  fits_of model payload (some (xs, p)) = all (λ x. model (encode x)) xs

  -- What the handler returned, or each item of its page, is a value of the model.
  abbrev pub fits_model : (Json → Bool) → Payload T → Bool
  fits_model model payload = fits_of model payload (paginated payload)

  all_items-items_of :
      (model : Json → Bool) (xs : List T)
      → all (λ x. model (encode x)) xs ≡ true
      → all_items (conforms (ref model)) (items_of encode xs) ≡ true
  unfolding conforms
  all_items-items_of model [] h = refl
  all_items-items_of model (x ∷ xs) h = ground (arith, all_items-items_of model xs)

  abbrev pub is_documented_success :
      (Json → Bool) → Bool → Option (Option String × SuccessResponse (Content T)) → Bool
  is_documented_success model is_paginated none = false
  is_documented_success model is_paginated (some (header, response)) =
      conforms (envelope_schema model is_paginated) (success_json response)

abbrev pub is_documented_error : Option (Sent ErrorResponse) → Bool
is_documented_error none = false
is_documented_error (some sent) = conforms error_schema (error_json sent.body)

success_is_documented :
    {T : Type 0} (encode : T → Json) (model : Json → Bool) (req : Request) (has_header : Bool)
    (now : String) (payload : Payload T)
    → fits_model encode model payload ≡ true
    → is_documented_success encode model
        (is_some (paginated payload))
        (intercept true req has_header now payload)
      ≡ true
unfolding intercept envelope_schema meta_properties conforms
success_is_documented encode model req has_header now payload fits =
    by_page (paginated payload) refl
  where
    by_page :
        (p : Option _)
        → paginated payload ≡ p
        → is_documented_success encode model
            (is_some (paginated payload))
            (intercept true req has_header now payload)
          ≡ true
    by_page none e = rw e (ground (arith, e, fits))
    by_page (some (xs, p)) e = rw e (ground (arith, all_items-items_of encode model xs, e, fits))

all_items-details :
    (ds : List ErrorDetail)
    → all_items
        (conforms
          (object_of (property "field" string_type (property "message" string_type no_properties))))
        (items_of detail_json ds)
      ≡ true
unfolding conforms
all_items-details [] = refl
all_items-details (d ∷ ds) = ground (arith, all_items-details ds)

error_is_documented :
    (e : ErrorResponse) → e.meta.pagination ≡ none → conforms error_schema (error_json e) ≡ true
unfolding conforms
error_is_documented e h = by_details e.details refl
  where
    by_details :
        (d : Option (List ErrorDetail))
        → e.details ≡ d
        → conforms error_schema (error_json e) ≡ true
    by_details none k = rw (h, k) refl
    by_details (some ds) k = rw (h, k) (ground (arith, all_items-details ds))

-- The documentation says exactly what is sent. For a handler whose values, or whose page's items, fit
-- the documented model: the body of the response has the documented properties and no others, each of
-- its documented type, where the route is documented as paginated if it returns a page. The body of
-- each exception's response fits the documented error.
pub responses_are_documented :
    {T : Type 0} (encode : T → Json) (model : Json → Bool) (req : Request) (has_header : Bool)
    (now : String) (payload : Payload T) (status_name : ℕ → Option String)
    (translate : String → List (String × String) → String) (production : Bool) (e : Exception)
    → fits_model encode model payload ≡ true
    → (is_documented_success encode model
          (is_some (paginated payload))
          (intercept true req has_header now payload)
        ≡ true)
      × (is_documented_error (catch status_name translate production true req has_header now e)
          ≡ true)
unfolding catch
responses_are_documented encode model req has_header now payload status_name translate production e
      fits =
    (success_is_documented encode model req has_header now payload fits, error_is_documented _ refl)
