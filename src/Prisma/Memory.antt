-- ===== src/Prisma/Memory.antt =====
-- A Prisma client that keeps the data and the draft of one transaction: it shows that the behaviour
-- assumed in Prisma/Port.antt can be met, and it runs in the tests.
use nest_fastify_boilerplate.Prelude.{refl}
use nest_fastify_boilerplate.Effects.{Exec, returned, thrown, error}
use nest_fastify_boilerplate.Prisma.Port.{Client, proxy, target, inside, PrismaClient, interactive}

pub record Drafted (D : Type 0) : Type 0 where
  pub stored : D
  pub draft : D

module _ {D : Type 0} where
  abbrev query : {A : Type 0} → Client (Unit {0}) → Exec D A → Exec (Drafted D) A
  query proxy m s = let (r, d) = m s.stored in (r, record s { stored = d })
  query target m s = (thrown (error "Cannot read properties of undefined"), s)
  query (inside tx) m s = let (r, d) = m s.draft in (r, record s { draft = d })

  abbrev begin : Exec (Drafted D) (Unit {0})
  begin s = (returned tt, record s { draft = s.stored })

  abbrev commit : Unit {0} → Exec (Drafted D) Unit
  commit tx s = (returned tt, record s { stored = s.draft })

  abbrev rollback : Unit {0} → Drafted D → Drafted D
  rollback tx s = s

abbrev pub drafts : {D : Type 0} → PrismaClient D
drafts {D} = record {
  State = Drafted D;
  Tx = Unit;
  contents = λ s. s.stored;
  view = λ tx s. s.draft;
  begin = λ o. begin;
  commit = commit;
  rollback = rollback;
  query = query;
  transaction = λ o f. interactive commit rollback begin f;
  transaction_lem = λ o f w. refl;
  begin-contents = λ o s. refl;
  begin-view = λ o s tx e. refl;
  commit-contents = λ tx s. refl;
  rollback-contents = λ tx s. refl;
  query-result = λ tx m s. refl;
  query-view = λ tx m s. refl;
  query-contents = λ tx m s. refl;
  query-proxy = λ m s. (refl, refl);
  query-target = λ m s. refl;
}
