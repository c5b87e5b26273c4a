-- ===== src/Http/Filter.antt =====
-- src/common/filters/http-exception.filter.ts: every exception of an HTTP request becomes an error response.
pub mod Laws
use mathlib.Core.List.{map}
use nest_fastify_boilerplate.Prelude.{
  ℕ, String, Bool, true, false, Option, none, some, List, [], ◌∷◌, leb, or_else, ◌==◌, ◌<>◌, ◌&&◌,
  not, if◌then◌else◌, show, is_some,
}
use nest_fastify_boilerplate.Effects.{Issue, AppException}
use nest_fastify_boilerplate.Http.Status.{ErrorDetail, ErrorResponse, ResponseMeta, Request, Sent}

-- `getResponse()` of an `HttpException`: a text, or an object whose `message` is a list, a text, or
-- something else or missing.
pub data Body : Type 0 where
  plain : String → Body
  messages : List String → Body
  message : String → Body
  no_message : Body

pub record HttpException : Type 0 where
  pub status : ℕ
  pub body : Body
  pub own_message : String

-- The exceptions in the order in which the filter asks: a response that does not fit its DTO, a
-- request that does not, each with the issues of its `ZodError` if it carries one; a business
-- exception; another `HttpException`; another `Error`; any other value, as `String` shows it.
pub data Exception : Type 0 where
  zod_serialization : Option (List Issue) → Exception
  zod_validation : Option (List Issue) → Exception
  app : AppException → Exception
  http : HttpException → Exception
  error : String → Exception
  non_error : String → Exception

-- The part that the exception decides.
pub record Verdict : Type 0 where
  pub status : ℕ
  pub message : String
  pub details : Option (List ErrorDetail)
  pub code_override : Option String

abbrev pub internal_server_error : ℕ
internal_server_error = 500

abbrev pub unprocessable_entity : ℕ
unprocessable_entity = 422

-- `xs.join(sep)`
unfoldable pub join : String → List String → String
join sep [] = ""
join sep (x ∷ []) = x
join sep (x ∷ y ∷ xs) = x <> sep <> join sep (y ∷ xs)

abbrev message_in : Body → String → String
message_in (plain s) own = s
message_in (messages xs) own = join ", " xs
message_in (message s) own = s
message_in no_message own = own

unfoldable pub extract_message : HttpException → String
unfolding join
extract_message e = message_in e.body e.own_message

unfoldable pub detail_of : Issue → ErrorDetail
unfolding join
detail_of issue = record { field = join "." issue.path; message = issue.message }

abbrev details_of : Option (List Issue) → Option (List ErrorDetail)
details_of none = none
details_of (some issues) = some (map detail_of issues)

-- The header is set if there is an id and the reply has a function `header`.
abbrev pub header_of : String → Bool → Option String
header_of id has_header = if not (id == "") && has_header then some id else none

-- `status_name` is the reverse mapping of Nest's `HttpStatus`; `translate` is the i18n service, in the
-- language of the request; `production` says that NODE_ENV is 'production'.
module _ (status_name : ℕ → Option String) (translate : String → List (String × String) → String)
    (production : Bool) where
  unfoldable pub code_from_status : ℕ → String
  unfolding show
  code_from_status status = or_else (status_name status) ("HTTP_" <> show status)

  abbrev unexpected : String → Verdict
  unexpected shown = record {
    status = internal_server_error;
    message = if production then "Internal server error" else shown;
    details = none;
    code_override = none;
  }

  unfoldable pub judge : Exception → Verdict
  unfolding extract_message detail_of
  judge (zod_serialization issues) = record {
    status = internal_server_error;
    message = "Internal server error";
    details = none;
    code_override = none;
  }
  judge (zod_validation issues) = record {
    status = unprocessable_entity;
    message = "Validation failed";
    details = details_of issues;
    code_override = none;
  }
  judge (app e) = record {
    status = e.status;
    message = translate e.message_key e.args;
    details = none;
    code_override = e.code;
  }
  judge (http e) = record {
    status = e.status;
    message = extract_message e;
    details = none;
    code_override = none;
  }
  judge (error m) = unexpected m
  judge (non_error shown) = unexpected shown

  -- `catch`: outside of HTTP the exception is thrown on (`none`).
  unfoldable pub catch : Bool → Request → Bool → String → Exception → Option (Sent ErrorResponse)
  unfolding judge code_from_status
  catch is_http req has_header now e =
      let v = judge e in
      if is_http
      then some (record {
        request_id_header = header_of (or_else req.id "") has_header;
        status = v.status;
        body = record {
          code = or_else v.code_override (code_from_status v.status);
          message = v.message;
          details = v.details;
          meta = record {
            timestamp = now;
            path = or_else req.url "";
            request_id = or_else req.id "";
            pagination = none;
          };
        };
      })
      else none
