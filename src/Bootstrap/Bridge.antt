-- ===== src/Bootstrap/Bridge.antt =====
-- The handler of '/api/auth/*' in src/main.ts: the request that it gives to Better Auth, and what it
-- sends.
use nest_fastify_boilerplate.Prelude.{
  String, ◌<>◌, ◌≡◌, Bool, true, Option, none, List, or_else, ◌==◌, ◌||◌, is_some, if◌then◌else◌,
  arith,
}
use nest_fastify_boilerplate.Effects.{Thrown, Outcome, Exec, returned, thrown, error, pure, ◌>>=◌}
use nest_fastify_boilerplate.Bootstrap.{HeaderField, FetchResponse, SentReply, bridge}
use nest_fastify_boilerplate.Bootstrap.Origins.{names_differ, bridge_lem}

-- What the handler reads of a request of Fastify. `body` is the parsed body, as its JSON text, where it
-- is none of null, false, 0 and the empty text.
pub record NodeRequest : Type 0 where
  pub url : String
  pub method : String
  pub host : Option String
  pub headers : List (String × HeaderField)
  pub body : Option String

-- A `Request` of Fetch.
pub record FetchRequest : Type 0 where
  pub url : String
  pub method : String
  pub headers : List (String × String)
  pub body : Option String

-- `new Request(…)` refuses a body with these methods.
abbrev pub is_bodiless : String → Bool
is_bodiless method = (method == "GET") || (method == "HEAD")

abbrev pub body_error : Thrown
body_error = error "Request with GET/HEAD method cannot have body."

-- `new_url` is `new URL(url, base).toString()`, and `from_node_headers` that of Better Auth.
module _ (new_url : String → String → Outcome String)
    (from_node_headers : List (String × HeaderField) → List (String × String)) where
  abbrev new_request : FetchRequest → Outcome FetchRequest
  new_request request =
      if is_bodiless request.method
      then (if is_some request.body then thrown body_error else returned request)
      else returned request

  abbrev with_url : NodeRequest → Outcome String → Outcome FetchRequest
  with_url request (thrown e) = thrown e
  with_url request (returned url) = new_request (record {
    url = url;
    method = request.method;
    headers = from_node_headers request.headers;
    body = request.body;
  })

  unfoldable pub fetch_request : NodeRequest → Outcome FetchRequest
  fetch_request request =
      with_url request (new_url request.url ("http://" <> or_else request.host "undefined"))

  module _ {S : Type 0} (auth_handler : FetchRequest → Exec S FetchResponse) where
    unfoldable pub auth_route : NodeRequest → Exec S SentReply
    auth_route request = do
      req ← λ s. (fetch_request request, s)
      response ← auth_handler req
      pure (bridge response)

-- Where its URL can be parsed and no GET or HEAD request has a body: the request goes to Better Auth
-- once, with its method, its headers and its body, and what Better Auth answers reaches the client as
-- it is, the status, the body and each header, each of several cookies among them.
pub auth_route_lem :
    (new_url : String → String → Outcome String)
    (from_node_headers : List (String × HeaderField) → List (String × String)) {S : Type 0}
    (auth_handler : FetchRequest → Exec S FetchResponse) (request : NodeRequest) (url : String)
    (response : FetchResponse) (s t : S)
    → new_url request.url ("http://" <> or_else request.host "undefined") ≡ returned url
    → (is_bodiless request.method ≡ true → request.body ≡ none)
    → auth_handler
        (record {
          url = url;
          method = request.method;
          headers = from_node_headers request.headers;
          body = request.body;
        })
        s
      ≡ (returned response, t)
    → names_differ response.headers ≡ true
    → auth_route new_url from_node_headers auth_handler request s ≡ (
      returned
          (record { status = response.status; headers = response.headers; body = response.body }),
      t,
    )
unfolding auth_route fetch_request
auth_route_lem new_url from_node_headers auth_handler request url response s t parsed bodiless
      answered differ =
    ground (arith, parsed, bodiless, answered, bridge_lem response differ)
