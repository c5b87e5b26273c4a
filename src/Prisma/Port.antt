-- ===== src/Prisma/Port.antt =====
-- What src/core/prisma relies on of the Prisma client: statements on a client, and interactive
-- transactions. A transaction works on its own view of the data until it is committed.
use nest_fastify_boilerplate.Prelude.{ℕ, ◌≡◌, Option, if◌then◌else◌}
use nest_fastify_boilerplate.Effects.{
  Outcome, Exec, returned, thrown, error, is_returned, pure, ◌>>=◌,
}
use nest_fastify_boilerplate.Outbox.Relay.{World, on_db}

-- src/core/prisma/transaction-manager.port.ts
pub record TransactionOptions : Type 0 where
  pub max_wait : Option ℕ
  pub timeout : Option ℕ

-- The Proxy that the constructor returns; the raw target behind it, which has no delegates of the
-- models; and the client of a transaction.
pub data Client (Tx : Type 0) : Type 0 where
  proxy target : Client Tx
  inside : Tx → Client Tx

-- The transaction is committed where the callback returns, and rolled back where it throws. A commit
-- may be refused, which rejects the promise.
module _ {S Tx B A : Type 0} (commit : Tx → Exec S Unit) (rollback : Tx → S → S) where
  abbrev pub settle : Tx → Outcome A × World S B → Outcome A × World S B
  settle tx (returned a, w) = (on_db (commit tx) >>= λ done. pure a) w
  settle tx (thrown e, w) = (thrown e, record w { db = rollback tx w.db })

  abbrev pub interactive : Exec S Tx → (Tx → Exec (World S B) A) → Exec (World S B) A
  interactive begin f = on_db begin >>= λ tx w. settle tx (f tx w)

-- `contents` is what is committed, `view` what a transaction sees.
pub record PrismaClient (D : Type 0) : Type 1 where
  pub State : Type 0
  pub Tx : Type 0
  pub contents : State → D
  pub view : Tx → State → D
  pub begin : TransactionOptions → Exec State Tx
  pub commit : Tx → Exec State Unit
  pub rollback : Tx → State → State
  pub query : {A : Type 0} → Client Tx → Exec D A → Exec State A
  pub transaction :
      {B A : Type 0} → TransactionOptions → (Tx → Exec (World State B) A) → Exec (World State B) A
  pub transaction_lem :
      {B A : Type 0} (o : TransactionOptions) (f : Tx → Exec (World State B) A) (w : World State B)
      → transaction o f w ≡ interactive commit rollback (begin o) f w
  pub begin-contents : (o : TransactionOptions) (s : State) → contents (begin o s).1 ≡ contents s
  pub begin-view :
      (o : TransactionOptions) (s : State) (tx : Tx)
      → (begin o s).0 ≡ returned tx
      → view tx (begin o s).1 ≡ contents s
  pub commit-contents :
      (tx : Tx) (s : State)
      → contents (commit tx s).1 ≡ (if is_returned (commit tx s).0 then view tx s else contents s)
  pub rollback-contents : (tx : Tx) (s : State) → contents (rollback tx s) ≡ contents s
  pub query-result :
      {A : Type 0} (tx : Tx) (m : Exec D A) (s : State)
      → (query (inside tx) m s).0 ≡ (m (view tx s)).0
  pub query-view :
      {A : Type 0} (tx : Tx) (m : Exec D A) (s : State)
      → view tx (query (inside tx) m s).1 ≡ (m (view tx s)).1
  pub query-contents :
      {A : Type 0} (tx : Tx) (m : Exec D A) (s : State)
      → contents (query (inside tx) m s).1 ≡ contents s
  pub query-proxy :
      {A : Type 0} (m : Exec D A) (s : State)
      → ((query proxy m s).0 ≡ (m (contents s)).0)
        × (contents (query proxy m s).1 ≡ (m (contents s)).1)
  pub query-target :
      {A : Type 0} (m : Exec D A) (s : State)
      → query target m s ≡ (thrown (error "Cannot read properties of undefined"), s)
