-- ===== src/Effects.antt =====
-- Asynchronous methods of the services: a state, and a promise that is fulfilled or rejected. What
-- a method did before it threw stays done.
use nest_fastify_boilerplate.Prelude.{ℕ, String, Bool, true, false, Option, List}

-- The issues of a `ZodError`: path segments and a message.
pub record Issue : Type 0 where
  pub path : List String
  pub message : String

-- src/common/exceptions/app.exception.ts
pub record AppException : Type 0 where
  pub message_key : String
  pub status : ℕ
  pub args : List (String × String)
  pub code : Option String

-- What is thrown, told apart as the program tells it apart: an `Error` with its message, a `ZodError`
-- with its message and issues, an `AppException`, and a value that is no `Error`, as `String` shows it.
pub data Thrown : Type 0 where
  error : String → Thrown
  zod_error : String → List Issue → Thrown
  app_exception : AppException → Thrown
  non_error : String → Thrown

pub data Outcome {ℓ} (A : Type ℓ) : Type ℓ where
  returned : A → Outcome A
  thrown : Thrown → Outcome A

abbrev pub Exec {ℓ} : Type ℓ → Type ℓ → Type ℓ
Exec S A = S → Outcome A × S

module _ {ℓ} {A : Type ℓ} where
  abbrev pub is_returned : Outcome A → Bool
  is_returned (returned a) = true
  is_returned (thrown e) = false

module _ {ℓ} {S A : Type ℓ} where
  abbrev pub pure : A → Exec S A
  pure a s = (returned a, s)

  abbrev pub throw : Thrown → Exec S A
  throw e s = (thrown e, s)

module _ {ℓ} {S A B : Type ℓ} where
  abbrev pub continue : (A → Exec S B) → Outcome A → S → Outcome B × S
  continue f (returned a) s = f a s
  continue f (thrown e) s = (thrown e, s)

  infixl 10 ◌>>=◌ ◌>>◌
  abbrev pub ◌>>=◌ : Exec S A → (A → Exec S B) → Exec S B
  ◌>>=◌ m f s = continue f (m s).0 (m s).1

  abbrev pub ◌>>◌ : Exec S A → Exec S B → Exec S B
  m >> n = m >>= λ _. n

module _ {ℓ} {S A : Type ℓ} where
  abbrev recover : (Thrown → Exec S A) → Outcome A → S → Outcome A × S
  recover h (returned a) s = (returned a, s)
  recover h (thrown e) s = h e s

  -- `try { m } catch (e) { h(e) }`
  abbrev pub try_catch : Exec S A → (Thrown → Exec S A) → Exec S A
  try_catch m h s = recover h (m s).0 (m s).1

module _ {ℓ} {S A B : Type ℓ} where
  abbrev settle : Outcome A → Outcome B × S → Outcome A × S
  settle r (returned _, s) = (r, s)
  settle r (thrown e, s) = (thrown e, s)

  -- `try { m } finally { await cleanup }`: a cleanup that throws replaces the outcome.
  abbrev pub finally : Exec S A → Exec S B → Exec S A
  finally m cleanup s = settle (m s).0 (cleanup (m s).1)
