-- ===== src/Prisma/Simulation.antt =====
-- Functions that run in a transaction of src/core/prisma/prisma.service.ts, against the same functions on
-- the data alone.
use nest_fastify_boilerplate.Prelude.{◌≡◌, refl, none, some, arith, ap, ◌∙◌, sym, subst}
use nest_fastify_boilerplate.Effects.{Thrown, Outcome, Exec, returned, thrown, try_catch, ◌>>=◌}
use nest_fastify_boilerplate.Outbox.Relay.{World, on_db, on_broker, transaction}
use nest_fastify_boilerplate.Prisma.Port.{
  TransactionOptions, inside, PrismaClient, settle, interactive,
}
use nest_fastify_boilerplate.Prisma.{PrismaService, Async, run}

module _ {D B : Type 0} (C : PrismaClient D) where
  -- The world as a transaction sees it, and as everybody sees it.
  abbrev pub seen : C.Tx → World C.State B → World D B
  seen tx w = record { db = C.view tx w.db; broker = w.broker }

  abbrev pub committed : World C.State B → World D B
  committed w = record { db = C.contents w.db; broker = w.broker }

  -- In a transaction, the function does to its view what `m` does to the data, and nothing to what is
  -- committed.
  pub record Simulates {A : Type 0} (tx : C.Tx) (fn : Exec (World C.State B) A)
      (m : Exec (World D B) A) (w : World C.State B) : Type 0 where
    pub outcome : (fn w).0 ≡ (m (seen tx w)).0
    pub after : seen tx (fn w).1 ≡ (m (seen tx w)).1
    pub hidden : C.contents (fn w).1.db ≡ C.contents w.db

  pub Simulates-query :
      {A : Type 0} (tx : C.Tx) (m : Exec D A) (w : World C.State B)
      → Simulates tx (on_db (C.query (inside tx) m)) (on_db m) w
  Simulates-query tx m w = record {
    outcome = C.query-result tx m w.db;
    after = ap (λ d. record { db = d; broker = w.broker }) (C.query-view tx m w.db);
    hidden = C.query-contents tx m w.db;
  }

  pub Simulates-on_broker :
      {A : Type 0} (tx : C.Tx) (m : Exec B A) (w : World C.State B)
      → Simulates tx (on_broker m) (on_broker m) w
  Simulates-on_broker tx m w = record { outcome = refl; after = refl; hidden = refl }

  pub Simulates-bind :
      {A A' : Type 0} (tx : C.Tx) (fn : Exec (World C.State B) A) (m : Exec (World D B) A)
      (next : A → Exec (World C.State B) A') (next' : A → Exec (World D B) A') (w : World C.State B)
      → Simulates tx fn m w
      → ((a : A) → Simulates tx (next a) (next' a) (fn w).1)
      → Simulates tx (fn >>= next) (m >>= next') w
  Simulates-bind tx fn m next next' w h k = go (fn w).0 refl
    where
      go : (r : Outcome _) → (fn w).0 ≡ r → Simulates tx (fn >>= next) (m >>= next') w
      go (returned a) e =
          let later = k a in
          record {
            outcome = ground (arith, e, h.outcome, h.after, later.outcome);
            after = ground (arith, e, h.outcome, h.after, later.after);
            hidden = ground (arith, e, h.hidden, later.hidden);
          }
      go (thrown x) e = record {
        outcome = ground (arith, e, h.outcome, h.after);
        after = ground (arith, e, h.outcome, h.after);
        hidden = ground (arith, e, h.hidden);
      }

  pub Simulates-try_catch :
      {A : Type 0} (tx : C.Tx) (fn : Exec (World C.State B) A) (m : Exec (World D B) A)
      (rescue : Thrown → Exec (World C.State B) A) (rescue' : Thrown → Exec (World D B) A)
      (w : World C.State B)
      → Simulates tx fn m w
      → ((x : Thrown) → Simulates tx (rescue x) (rescue' x) (fn w).1)
      → Simulates tx (try_catch fn rescue) (try_catch m rescue') w
  Simulates-try_catch tx fn m rescue rescue' w h k = go (fn w).0 refl
    where
      go :
          (r : Outcome _)
          → (fn w).0 ≡ r
          → Simulates tx (try_catch fn rescue) (try_catch m rescue') w
      go (returned a) e = record {
        outcome = ground (arith, e, h.outcome, h.after);
        after = ground (arith, e, h.outcome, h.after);
        hidden = ground (arith, e, h.hidden);
      }
      go (thrown x) e =
          let later = k x in
          record {
            outcome = ground (arith, e, h.outcome, h.after, later.outcome);
            after = ground (arith, e, h.outcome, h.after, later.after);
            hidden = ground (arith, e, h.hidden, later.hidden);
          }

  -- `m`, all of it or nothing of it: its result is committed and returned, or the data stay what they
  -- were and the promise is rejected, because `m` throws or because the database refuses to begin or
  -- to commit.
  abbrev pub AllOrNothing :
      {A : Type 0} → Exec (World D B) A → World D B → Outcome A × World D B → Type 0
  AllOrNothing m before (returned a, w) = transaction m before ≡ (returned a, w)
  AllOrNothing m before (thrown e, w) = w.db ≡ before.db

  abbrev pub committed_result : {A : Type 0} → Outcome A × World C.State B → Outcome A × World D B
  committed_result (r, w) = (r, committed w)

  module _ {A : Type 0} (m : Exec (World D B) A) (before : World C.State B) where
    settled-AllOrNothing :
        (tx : C.Tx) (v : World C.State B) (r : Outcome A)
        → C.contents v.db ≡ C.contents before.db
        → m (committed before) ≡ (r, seen tx v)
        → AllOrNothing m
            (committed before)
            (committed_result (settle C.commit C.rollback tx (r, v)))
    settled-AllOrNothing tx v (thrown x) hidden done = C.rollback-contents tx v.db ∙ hidden
    settled-AllOrNothing tx v (returned a) hidden done = commits (C.commit tx v.db).0 refl
      where
        commits :
            (r : Outcome Unit)
            → (C.commit tx v.db).0 ≡ r
            → AllOrNothing m
                (committed before)
                (committed_result (settle C.commit C.rollback tx (returned a, v)))
        commits (returned _) e = rw e (ground (arith, e, done, C.commit-contents tx v.db))
        commits (thrown x) e = rw e (ground (arith, e, hidden, C.commit-contents tx v.db))

    interactive-AllOrNothing :
        (options : TransactionOptions) (f : C.Tx → Exec (World C.State B) A)
        → ((tx : C.Tx) (v : World C.State B) → Simulates tx (f tx) m v)
        → AllOrNothing m
            (committed before)
            (committed_result (interactive C.commit C.rollback (C.begin options) f before))
    interactive-AllOrNothing options f h = begins (C.begin options before.db).0 refl
      where
        begins :
            (r : Outcome C.Tx)
            → (C.begin options before.db).0 ≡ r
            → AllOrNothing m
                (committed before)
                (committed_result (interactive C.commit C.rollback (C.begin options) f before))
        begins (thrown x) e = rw e (C.begin-contents options before.db)
        begins (returned tx) e =
            let start : World C.State B = record before { db = (C.begin options before.db).1 } in
            let sim = h tx start in
            rw e (
              settled-AllOrNothing tx (f tx start).1 (f tx start).0
                (sim.hidden ∙ C.begin-contents options before.db)
                (ground (arith, sim.outcome, sim.after, C.begin-view options before.db tx e)))

-- A function that runs in a transaction and reaches the database by the repositories only does all of
-- its work or none: where the promise is fulfilled, what is committed and the result are those of the
-- function on the data alone; where it is rejected, the committed data are what they were. What the
-- function did outside of the database stays.
pub run-AllOrNothing :
    {D B A : Type 0} (C : PrismaClient D) (service : PrismaService C.Tx) (fn : Async C B A)
    (m : Exec (World D B) A) (options : TransactionOptions) (w : World C.State B)
    → ((tx : C.Tx) (v : World C.State B) → Simulates C tx (fn (some (inside tx))) m v)
    → AllOrNothing C m (committed C w) (committed_result C (run C service fn options none w))
unfolding run
run-AllOrNothing C service fn m options w h =
    subst (λ r. AllOrNothing C m (committed C w) (committed_result C r))
      (sym (C.transaction_lem options (λ tx. fn (some (inside tx))) w))
      (interactive-AllOrNothing C m w options (λ tx. fn (some (inside tx))) h)
