-- ===== src/Outbox/Relay/Drain.antt =====
-- The batch of `drainOnce` against the verdicts on its rows.
use nest_fastify_boilerplate.Prelude.{
  ℕ, ◌+◌, ◌*◌, ◌≤◌, String, ◌≡◌, refl, Bool, true, some, List, [], ◌∷◌, All, is_some, length,
  if◌then◌else◌, arith, eq_refl, Option-cases, inl, inr,
}
use nest_fastify_boilerplate.Effects.{Exec, returned, is_returned}
use nest_fastify_boilerplate.Outbox.Rows.{
  Row, Database, find, modify, find-modify, modify-modify, modify-eq_of_find,
}
use nest_fastify_boilerplate.Outbox.Repository.{
  claim_pending, mark_published, mark_failed, as_published, as_retried, as_failed, is_due,
}
use nest_fastify_boilerplate.Outbox.Relay.{Config, World, relay_row, relay_rows, drain_once}
use nest_fastify_boilerplate.Outbox.Relay.Verdicts.{
  Verdict, accepted, refused, judge, judge_all, judge-KeepsId, give_up_if_spent,
}

module _ {P : Type 0} (D : Database P) where
  mark_published_lem :
      (id : String) (s : D.State)
      → is_some (find id (D.rows s)) ≡ true
      → ((mark_published D id s).0 ≡ returned tt)
        × (D.rows (mark_published D id s).1 ≡ modify id (as_published (D.now s)) (D.rows s))
  unfolding mark_published
  mark_published_lem id s h = ground (
    arith,
    D.update-result id (as_published (D.now s)) s,
    D.update-rows id (as_published (D.now s)) s,
  )

  mark_failed_lem :
      (id : String) (delay max_attempts : ℕ) (s : D.State)
      → is_some (find id (D.rows s)) ≡ true
      → ((mark_failed D id delay max_attempts s).0 ≡ returned tt)
        × (D.rows (mark_failed D id delay max_attempts s).1
            ≡ modify id (judge delay max_attempts (refused (D.now s))) (D.rows s))
  unfolding mark_failed judge
  mark_failed_lem id delay max_attempts s h = elim (Option-cases (find id (D.rows s))) [
    | inl missing ↦ absurd (ground arith)
    | inr (r, found) ↦
        let f : Row P → Row P = as_retried (D.now s + delay) in
        let s' : D.State = (D.update id f s).1 in
        ground (
          arith,
          found,
          D.update-result id f s,
          D.update-rows id f s,
          D.update-result id as_failed s',
          D.update-rows id as_failed s',
          find-modify id id f (D.rows s) (λ q. refl),
          eq_refl id,
          modify-modify id f as_failed (D.rows s) (λ q. refl),
          modify-eq_of_find id (λ q. give_up_if_spent delay max_attempts (f q))
              (λ q. as_failed (f q)) (D.rows s) r,
          modify-eq_of_find id (λ q. give_up_if_spent delay max_attempts (f q)) f (D.rows s) r,
        )
  ]

module _ {P B : Type 0} (D : Database P) (publish : Row P → Exec B Unit) (config : Config) where
  -- What becomes of a row is up to the broker.
  abbrev pub verdict_of : Row P → World D.State B → Verdict
  verdict_of row w =
      if is_returned (publish row w.broker).0 then accepted (D.now w.db) else refused (D.now w.db)

  abbrev pub verdicts_of : List (Row P) → World D.State B → List Verdict
  verdicts_of [] w = []
  verdicts_of (row ∷ rows) w =
      verdict_of row w ∷ verdicts_of rows (relay_row D publish config row w).1

  abbrev pub delay : ℕ
  delay = config.poll_ms * 5

  relay_row_lem :
      (row : Row P) (w : World D.State B)
      → is_some (find row.id (D.rows w.db)) ≡ true
      → ((relay_row D publish config row w).0 ≡ returned tt)
        × (D.rows (relay_row D publish config row w).1.db
            ≡ modify row.id (judge delay config.max_attempts (verdict_of row w)) (D.rows w.db))
  unfolding relay_row judge
  relay_row_lem row w h = ground (
    arith,
    mark_published_lem D row.id w.db h,
    mark_failed_lem D row.id delay config.max_attempts w.db h,
  )

  abbrev ArePresent : List (Row P) → World D.State B → Type 0
  ArePresent rows w = All (λ r. is_some (find r.id (D.rows w.db)) ≡ true) rows

  ArePresent-relay_row :
      (rows : List (Row P)) (row : Row P) (w : World D.State B)
      → is_some (find row.id (D.rows w.db)) ≡ true
      → ArePresent rows w
      → ArePresent rows (relay_row D publish config row w).1
  ArePresent-relay_row [] row w p h = tt
  ArePresent-relay_row (r ∷ rows) row w p (q, h) = (
    rw
        (
          (relay_row_lem row w p).1,
          find-modify row.id r.id (judge delay config.max_attempts (verdict_of row w)) (D.rows w.db)
              (judge-KeepsId delay config.max_attempts (verdict_of row w)),
        )
        (ground arith),
    ArePresent-relay_row rows row w p h,
  )

  relay_rows_lem :
      (rows : List (Row P)) (w : World D.State B)
      → ArePresent rows w
      → ((relay_rows D publish config rows w).0 ≡ returned tt)
        × (D.rows (relay_rows D publish config rows w).1.db
            ≡ judge_all delay config.max_attempts rows (verdicts_of rows w) (D.rows w.db))
  unfolding relay_rows judge_all
  relay_rows_lem [] w h = (refl, refl)
  relay_rows_lem (row ∷ rows) w (p, h) =
      let (done, here) = relay_row_lem row w p in
      let (rest, there) =
        relay_rows_lem rows (relay_row D publish config row w).1
          (ArePresent-relay_row rows row w p h) in
      (ground (arith, done, rest), ground (arith, done, here, there))

  -- The rows that the query claims, and the state with their locks.
  abbrev pub claimed_of : World D.State B → List (Row P)
  claimed_of w = (D.query (is_due (D.now w.db)) config.batch w.db).0

  abbrev pub locked_of : World D.State B → World D.State B
  locked_of w = record w { db = (D.query (is_due (D.now w.db)) config.batch w.db).1 }

  ArePresent-claimed :
      (rows : List (Row P)) (p : Row P → Bool) (w : World D.State B)
      → All (λ r. (p r ≡ true) × (find r.id (D.rows w.db) ≡ some r)) rows
      → ArePresent rows w
  ArePresent-claimed [] p w h = tt
  ArePresent-claimed (r ∷ rows) p w ((_, found), h) = (rw found, ArePresent-claimed rows p w h)

-- `drainOnce` does not throw, whatever the broker answers: it claims at most a batch of rows, and the
-- table it leaves is the one before with the verdict on each claimed row applied, in their order: a
-- row that the broker accepts is published, one that it refuses has an attempt more and waits five
-- polling intervals, and is failed once its attempts are used up.
pub drain_once_lem :
    {P B : Type 0} (D : Database P) (publish : Row P → Exec B Unit) (config : Config)
    (w : World D.State B)
    → ((drain_once D publish config w).0 ≡ returned tt)
      × (length (claimed_of D publish config w) ≤ config.batch)
      × (D.rows (drain_once D publish config w).1.db
          ≡ judge_all
              (delay D publish config)
              config.max_attempts
              (claimed_of D publish config w)
              (verdicts_of D publish config
                (claimed_of D publish config w)
                (locked_of D publish config w))
              (D.rows w.db))
unfolding drain_once claim_pending
drain_once_lem D publish config w =
    let p : Row _ → Bool = is_due (D.now w.db) in
    let same = D.query-rows p config.batch w.db in
    let present =
      ArePresent-claimed D publish config (claimed_of D publish config w) p
        (locked_of D publish config w) (rw same (D.query-All p config.batch w.db)) in
    let (done, rows) =
      relay_rows_lem D publish config (claimed_of D publish config w) (locked_of D publish config w)
        present in
    (ground (arith, done), D.query-length p config.batch w.db, ground (arith, done, rows, same))
