-- ===== src/Bootstrap/RequestId.antt =====
-- The correlation id of a request: src/main.ts and src/core/logger/logger.module.ts give it, and
-- src/common/interceptors/response.interceptor.ts and src/common/filters/http-exception.filter.ts send it.
use nest_fastify_boilerplate.Prelude.{
  ℕ, String, ◌≡◌, refl, Bool, true, Option, none, some, List, ◌==◌, if◌then◌else◌, or_else, arith,
}
use nest_fastify_boilerplate.Http.Status.{Request, SuccessResponse, ErrorResponse, Sent}
use nest_fastify_boilerplate.Http.Filter.{Exception, catch}
use nest_fastify_boilerplate.Http.Interceptor.{Payload, Content, intercept, paginated}
use nest_fastify_boilerplate.Bootstrap.{HeaderField, header_text, gen_req_id, log_req_id}

-- The request as the interceptor and the filter meet it.
abbrev pub request_of : String → HeaderField → Option String → Request
request_of uuid header url = record { id = some (gen_req_id uuid header).0; url = url }

-- The id is sent in the header if it is no empty text.
abbrev pub sent_id : String → Option String
sent_id id = if id == "" then none else some id

abbrev pub AgreesOnSuccess :
    {T : Type 0} → String → Option (Option String × SuccessResponse (Content T)) → Type 0
AgreesOnSuccess id none = ⊥
AgreesOnSuccess id (some (header, response)) =
    (header ≡ sent_id id) × (response.meta.request_id ≡ id)

abbrev pub AgreesOnError : String → Option (Sent ErrorResponse) → Type 0
AgreesOnError id none = ⊥
AgreesOnError id (some sent) =
    (sent.request_id_header ≡ sent_id id) × (sent.body.meta.request_id ≡ id)

module _ (id : String) where
  agrees_on_success :
      {T : Type 0} (url : Option String) (now : String) (payload : Payload T)
      → AgreesOnSuccess id (intercept true (record { id = some id; url = url }) true now payload)
  unfolding intercept
  agrees_on_success url now payload = by_page (paginated payload) refl
    where
      by_page :
          (p : Option _)
          → paginated payload ≡ p
          → AgreesOnSuccess id
              (intercept true (record { id = some id; url = url }) true now payload)
      by_page none e = rw e (ground arith, refl)
      by_page (some (xs, meta)) e = rw e (ground arith, refl)

-- Whatever id a client sends, sends twice or leaves out: the request's id, the id in the log, the id
-- in the body of the response and the one in its header are the same, for a success and for an
-- exception; only an empty id is left out of the header.
pub request_id_lem :
    {T : Type 0} (uuid : String) (header : HeaderField) (url : Option String) (now : String)
    (payload : Payload T) (status_name : ℕ → Option String)
    (translate : String → List (String × String) → String) (production : Bool) (e : Exception)
    → (log_req_id (gen_req_id uuid header).1 ≡ some (gen_req_id uuid header).0)
      × AgreesOnSuccess
          (gen_req_id uuid header).0
          (intercept true (request_of uuid header url) true now payload)
      × AgreesOnError
          (gen_req_id uuid header).0
          (catch status_name translate production true (request_of uuid header url) true now e)
unfolding gen_req_id log_req_id catch
request_id_lem uuid header url now payload status_name translate production e = (
  refl,
  agrees_on_success (or_else (header_text header) uuid) url now payload,
  (ground arith, refl),
)
