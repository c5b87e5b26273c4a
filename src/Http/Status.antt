-- ===== src/Http/Status.antt =====
-- `HttpStatus` of @nestjs/common, the enumeration that src/common/filters/http-exception.filter.ts reads
-- backwards, and src/common/http/response.types.ts.
use nest_fastify_boilerplate.Prelude.{ℕ, String, Bool, Option, List}

pub record PaginationMeta : Type 0 where
  pub page : ℕ
  pub limit : ℕ
  pub total : ℕ
  pub total_pages : ℕ
  pub has_next : Bool
  pub has_prev : Bool

pub record ResponseMeta : Type 0 where
  pub timestamp : String
  pub path : String
  pub request_id : String
  pub pagination : Option PaginationMeta

pub record SuccessResponse (T : Type 0) : Type 0 where
  pub content : T
  pub meta : ResponseMeta

pub record ErrorDetail : Type 0 where
  pub field : String
  pub message : String

pub record ErrorResponse : Type 0 where
  pub code : String
  pub message : String
  pub details : Option (List ErrorDetail)
  pub meta : ResponseMeta

-- The parts of a request that the filter and the interceptor read; `req?.id` and `req?.url` may be
-- missing.
pub record Request : Type 0 where
  pub id : Option String
  pub url : Option String

-- What was called on the reply: `res.header`, and `res.status(…).send(…)`.
pub record Sent (T : Type 0) : Type 0 where
  pub request_id_header : Option String
  pub status : ℕ
  pub body : T
