-- ===== src/Messaging/Message.antt =====
-- Messages as amqplib hands them over and takes them: properties, headers and a payload.
use nest_fastify_boilerplate.Prelude.{
  ℕ, String, ◌≡◌, refl, Option, none, some, List, [], ◌∷◌, ◌==◌, if◌then◌else◌, arith, eq_iff,
}

pub data HeaderValue : Type 0 where
  number : ℕ → HeaderValue
  text : String → HeaderValue
  undefined : HeaderValue

abbrev pub Headers : Type 0
Headers = List (String × HeaderValue)

-- `headers[k]`
unfoldable pub header : String → Headers → Option HeaderValue
header k [] = none
header k ((j, v) ∷ h) = if j == k then some v else header k h

-- `{ ...h, [k]: v }`
unfoldable pub with_header : String → HeaderValue → Headers → Headers
with_header k v [] = (k, v) ∷ []
with_header k v ((j, w) ∷ h) = if j == k then (k, v) ∷ h else (j, w) ∷ with_header k v h

pub header-with_header :
    (k j : String) (v : HeaderValue) (h : Headers)
    → header j (with_header k v h) ≡ (if k == j then some v else header j h)
unfolding header with_header
header-with_header k j v [] = refl
header-with_header k j v ((i, w) ∷ h) =
    ground (arith, eq_iff k j, eq_iff i k, eq_iff i j, header-with_header k j v h)

-- The message of a delivery (`ConsumeMessage`): its properties.
pub record Message : Type 0 where
  pub message_id : Option String
  pub headers : Option Headers

-- The arguments of a call of `AmqpConnection.publish`.
pub record Publication (P : Type 0) : Type 0 where
  pub exchange : String
  pub routing_key : String
  pub payload : P
  pub message_id : Option String
  pub timestamp : Option ℕ
  pub content_type : Option String
  pub headers : Headers
