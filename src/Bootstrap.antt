-- ===== src/Bootstrap.antt =====
-- The processes: src/main.ts (the API) and src/main.worker.ts (the worker), as far as they decide
-- anything.
pub mod RequestId
pub mod Origins
pub mod Bridge
pub mod Worker
pub mod Tests
use nest_fastify_boilerplate.Prelude.{
  ℕ, String, Bool, true, false, Option, none, some, List, [], ◌∷◌, ◌++◌, or_else, ltb, length, ◌==◌,
  if◌then◌else◌,
}
use nest_fastify_boilerplate.Config.Schema.{Env, lookup}
use nest_fastify_boilerplate.Auth.{texts_at}
use nest_fastify_boilerplate.Http.BasicAuth.{HookReply, bull_board_auth_hook}

-- A header of a request, as Node hands it over.
pub data HeaderField : Type 0 where
  missing : HeaderField
  single : String → HeaderField
  repeated : List String → HeaderField

abbrev first : List String → Option String
first [] = none
first (x ∷ xs) = some x

-- `Array.isArray(header) ? header[0] : header`
abbrev pub header_text : HeaderField → Option String
header_text missing = none
header_text (single s) = some s
header_text (repeated xs) = first xs

-- `genReqId` of the adapter: the request's id, and the header `x-request-id` it leaves on the request.
-- `uuid` is the random UUID that is drawn where there is no id.
unfoldable pub gen_req_id : String → HeaderField → String × HeaderField
gen_req_id uuid header = let id = or_else (header_text header) uuid in (id, single id)

-- `genReqId` of src/core/logger/logger.module.ts, which finds the header as the adapter left it.
unfoldable pub log_req_id : HeaderField → Option String
log_req_id missing = some ""
log_req_id (single s) = some s
log_req_id (repeated xs) = first xs

-- The `origin` of `enableCors`: each origin, or those of a list.
pub data CorsOrigin : Type 0 where
  any_origin : CorsOrigin
  only : List String → CorsOrigin

pub record CorsOptions : Type 0 where
  pub origin : CorsOrigin
  pub credentials : Bool

unfoldable pub cors_options : Env → CorsOptions
cors_options env =
    let allowed = texts_at "ALLOWED_ORIGINS" env in
    record {
      origin = if ltb 0 (length allowed) then only allowed else any_origin;
      credentials = true;
    }

-- A response of Better Auth, in the order in which its headers are visited.
pub record FetchResponse : Type 0 where
  pub status : ℕ
  pub headers : List (String × String)
  pub body : Option String

-- What is sent to the client.
pub record SentReply : Type 0 where
  pub status : ℕ
  pub headers : List (String × String)
  pub body : Option String

abbrev replace_header : String → String → List (String × String) → List (String × String)
replace_header k v [] = (k, v) ∷ []
replace_header k v ((j, w) ∷ hs) =
    let rest = replace_header k v hs in if j == k then (k, v) ∷ hs else (j, w) ∷ rest

-- `reply.header` of Fastify: a cookie is added to the others, another header is replaced.
unfoldable pub reply_header : String → String → List (String × String) → List (String × String)
reply_header k v hs = if k == "set-cookie" then hs ++ ((k, v) ∷ []) else replace_header k v hs

-- `response.headers.forEach(…)`
unfoldable pub copy_headers :
    List (String × String) → List (String × String) → List (String × String)
unfolding reply_header
copy_headers [] sent = sent
copy_headers ((k, v) ∷ hs) sent = copy_headers hs (reply_header k v sent)

-- The handler of '/api/auth/*', behind `auth.handler`.
unfoldable pub bridge : FetchResponse → SentReply
unfolding copy_headers
bridge response = record {
  status = response.status;
  headers = copy_headers response.headers [];
  body = response.body;
}

-- The hook of the worker in front of Bull Board, which reads the variables itself.
unfoldable pub worker_hook :
    (String → String) → (String → Option String) → String → Option String → HookReply
unfolding bull_board_auth_hook
worker_hook decode env url authorization =
    bull_board_auth_hook decode "/admin/queues" (or_else (env "BULLBOARD_USER") "admin")
      (or_else (env "BULLBOARD_PASSWORD") "admin") url authorization
