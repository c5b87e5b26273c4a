-- ===== src/Outbox/Relay/Consistency.antt =====
-- The rows of the table stay consistent through the batches of `drainOnce`.
use nest_fastify_boilerplate.Prelude.{
  ℕ, String, ◌≡◌, ◌≢◌, refl, Bool, true, some, List, [], ◌∷◌, All, arith, eq_iff, ◌∙◌,
}
use nest_fastify_boilerplate.Effects.{Exec}
use nest_fastify_boilerplate.Outbox.Rows.{
  Row, Database, find, modify, find-modify, modify-All, AreDistinct, pending, KeepsId,
}
use nest_fastify_boilerplate.Outbox.Repository.{is_due}
use nest_fastify_boilerplate.Outbox.Relay.{Config, World, drain_once}
use nest_fastify_boilerplate.Outbox.Relay.Verdicts.{
  Verdict, judge, judge_all, judge-KeepsId, judge-IsConsistent, IsConsistent,
}
use nest_fastify_boilerplate.Outbox.Relay.Drain.{delay, claimed_of, drain_once_lem}

module _ {P : Type 0} (delay max_attempts : ℕ) where
  -- the claimed rows as the query reads them, all pending
  abbrev ArePending : List (Row P) → List (Row P) → Type 0
  ArePending claimed rows = All (λ c. (c.status ≡ pending) × (find c.id rows ≡ some c)) claimed

  ArePending-modify :
      (claimed : List (Row P)) (c : Row P) (f : Row P → Row P) (rows : List (Row P))
      → KeepsId f
      → All (λ q. c.id ≢ q.id) claimed
      → ArePending claimed rows
      → ArePending claimed (modify c.id f rows)
  ArePending-modify [] c f rows keeps d h = tt
  ArePending-modify (q ∷ claimed) c f rows keeps (ne, d) ((p, found), h) = (
    (p, rw (find-modify c.id q.id f rows keeps) (ground (arith, eq_iff c.id q.id))),
    ArePending-modify claimed c f rows keeps d h,
  )

  judge_all-IsConsistent :
      (claimed : List (Row P)) (verdicts : List Verdict) (rows : List (Row P))
      → AreDistinct claimed
      → ArePending claimed rows
      → All (IsConsistent delay max_attempts) rows
      → All (IsConsistent delay max_attempts) (judge_all delay max_attempts claimed verdicts rows)
  unfolding judge_all
  judge_all-IsConsistent [] verdicts rows d p h = h
  judge_all-IsConsistent (c ∷ claimed) [] rows d p h = h
  judge_all-IsConsistent (c ∷ claimed) (v ∷ verdicts) rows (ne, d) ((pending_c, found), p) h =
      judge_all-IsConsistent claimed verdicts (modify c.id (judge delay max_attempts v) rows) d
        (ArePending-modify claimed c (judge delay max_attempts v) rows
          (judge-KeepsId delay max_attempts v) ne p)
        (modify-All (IsConsistent delay max_attempts) c.id (judge delay max_attempts v) rows h
          λ r e. judge-IsConsistent delay max_attempts v r (ground arith))

  find-judge_all :
      (claimed : List (Row P)) (verdicts : List Verdict) (rows : List (Row P)) (id : String)
      → All (λ c. c.id ≢ id) claimed
      → find id (judge_all delay max_attempts claimed verdicts rows) ≡ find id rows
  unfolding judge_all
  find-judge_all [] verdicts rows id h = refl
  find-judge_all (c ∷ claimed) [] rows id h = refl
  find-judge_all (c ∷ claimed) (v ∷ verdicts) rows id (ne, h) =
      find-judge_all claimed verdicts (modify c.id (judge delay max_attempts v) rows) id h
      ∙ rw
          (find-modify c.id id (judge delay max_attempts v) rows
            (judge-KeepsId delay max_attempts v))
          (ground (arith, eq_iff c.id id))

ArePending-claimed :
    {P : Type 0} (delay max_attempts now : ℕ) (claimed rows : List (Row P))
    → All (λ r. (is_due now r ≡ true) × (find r.id rows ≡ some r)) claimed
    → ArePending delay max_attempts claimed rows
unfolding is_due
ArePending-claimed delay max_attempts now [] rows h = tt
ArePending-claimed delay max_attempts now (c ∷ claimed) rows ((due, found), h) =
    ((ground arith, found), ArePending-claimed delay max_attempts now claimed rows h)

-- `drainOnce` keeps every row consistent (published exactly if it says when, pending only with attempts
-- left, failed only with none), and leaves the rows that it does not claim as they are.
pub drain_once-IsConsistent :
    {P B : Type 0} (D : Database P) (publish : Row P → Exec B Unit) (config : Config)
    (w : World D.State B) (id : String)
    → All (IsConsistent (delay D publish config) config.max_attempts) (D.rows w.db)
    → All (λ c. c.id ≢ id) (claimed_of D publish config w)
    → All
        (IsConsistent (delay D publish config) config.max_attempts)
        (D.rows (drain_once D publish config w).1.db)
      × (find id (D.rows (drain_once D publish config w).1.db) ≡ find id (D.rows w.db))
drain_once-IsConsistent D publish config w id h other =
    let (_, _, rows) = drain_once_lem D publish config w in
    let p : Row _ → Bool = is_due (D.now w.db) in
    rw rows (
      judge_all-IsConsistent (delay D publish config) config.max_attempts
          (claimed_of D publish config w) _ (D.rows w.db) (D.query-AreDistinct p config.batch w.db)
          (ArePending-claimed (delay D publish config) config.max_attempts (D.now w.db)
            (claimed_of D publish config w) (D.rows w.db) (D.query-All p config.batch w.db))
          h,
      find-judge_all (delay D publish config) config.max_attempts (claimed_of D publish config w) _
          (D.rows w.db) id other,
    )
