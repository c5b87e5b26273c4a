-- ===== src/Outbox/Table.antt =====
-- A database whose state is the table of events and a clock: it shows that the behaviour assumed in
-- Outbox/Rows.antt can be met, and it runs in the tests.
use nest_fastify_boilerplate.Prelude.{
  ℕ, zero, suc, ◌≤◌, String, ◌≡◌, ◌≢◌, refl, Bool, true, false, some, List, [], ◌∷◌, All, any, ◌&&◌,
  not, length, ◌==◌, leb, if◌then◌else◌, arith, eq_iff, eq_refl, Bool-cases, inl, inr, ◌<>◌, show,
}
use nest_fastify_boilerplate.Effects.{returned}
use nest_fastify_boilerplate.Outbox.Rows.{
  Row, Database, find, modify, update_outcome, InOrder, AreDistinct,
}

pub record Table (P : Type 0) : Type 0 where
  pub rows : List (Row P)
  pub now : ℕ

module _ {P : Type 0} where
  -- The first `n` rows that pass, of those with an id not seen before, as far as they are in order.
  unfoldable pub pick : (Row P → Bool) → ℕ → List String → ℕ → List (Row P) → List (Row P)
  pick p n seen last [] = []
  pick p zero seen last (r ∷ rows) = []
  pick p (suc n) seen last (r ∷ rows) =
      let taken = pick p n (r.id ∷ seen) r.created_at rows in
      let left = pick p (suc n) (r.id ∷ seen) last rows in
      if p r && not (any (λ i. i == r.id) seen) && leb last r.created_at then r ∷ taken else left

  abbrev IsPicked : (Row P → Bool) → List String → ℕ → List (Row P) → Row P → Type 0
  IsPicked p seen last rows r =
      (p r ≡ true)
      × (find r.id rows ≡ some r)
      × (any (λ i. i == r.id) seen ≡ false)
      × (last ≤ r.created_at)

  All-imp :
      (Q R : Row P → Type 0) (xs : List (Row P)) → ((r : Row P) → Q r → R r) → All Q xs → All R xs
  All-imp Q R [] f h = tt
  All-imp Q R (x ∷ xs) f (q, h) = (f x q, All-imp Q R xs f h)

  module _ (p : Row P → Bool) where
    later :
        (c : Row P) (seen : List String) (last least : ℕ) (rows : List (Row P)) (r : Row P)
        → least ≤ last
        → IsPicked p (c.id ∷ seen) last rows r
        → IsPicked p seen least (c ∷ rows) r
    unfolding find
    later c seen last least rows r le h = ground (arith, eq_iff c.id r.id)

    pick-IsPicked :
        (n : ℕ) (seen : List String) (last : ℕ) (rows : List (Row P))
        → All (IsPicked p seen last rows) (pick p n seen last rows)
    unfolding pick find
    pick-IsPicked n seen last [] = tt
    pick-IsPicked zero seen last (c ∷ rows) = tt
    pick-IsPicked (suc n) seen last (c ∷ rows) =
        elim (Bool-cases (p c && not (any (λ i. i == c.id) seen) && leb last c.created_at)) [
          | inl passes ↦ rw passes (
            ground (arith, eq_refl c.id),
            All-imp (IsPicked p (c.id ∷ seen) c.created_at rows) (IsPicked p seen last (c ∷ rows)) _
                (λ r. later c seen c.created_at last rows r (ground arith))
                (pick-IsPicked n (c.id ∷ seen) c.created_at rows),
          )
          | inr other ↦ rw other (
              All-imp (IsPicked p (c.id ∷ seen) last rows) (IsPicked p seen last (c ∷ rows)) _
                (λ r. later c seen last last rows r (ground arith))
                (pick-IsPicked (suc n) (c.id ∷ seen) last rows))
        ]

    pub pick-InOrder :
        (n : ℕ) (seen : List String) (last : ℕ) (rows : List (Row P))
        → InOrder (pick p n seen last rows)
    unfolding pick
    pick-InOrder n seen last [] = tt
    pick-InOrder zero seen last (c ∷ rows) = tt
    pick-InOrder (suc n) seen last (c ∷ rows) =
        elim (Bool-cases (p c && not (any (λ i. i == c.id) seen) && leb last c.created_at)) [
          | inl passes ↦ rw passes (
            All-imp (IsPicked p (c.id ∷ seen) c.created_at rows) (λ r. c.created_at ≤ r.created_at)
                _ (λ r h. ground arith) (pick-IsPicked n (c.id ∷ seen) c.created_at rows),
            pick-InOrder n (c.id ∷ seen) c.created_at rows,
          )
          | inr other ↦ rw other (pick-InOrder (suc n) (c.id ∷ seen) last rows)
        ]

    pub pick-AreDistinct :
        (n : ℕ) (seen : List String) (last : ℕ) (rows : List (Row P))
        → AreDistinct (pick p n seen last rows)
    unfolding pick
    pick-AreDistinct n seen last [] = tt
    pick-AreDistinct zero seen last (c ∷ rows) = tt
    pick-AreDistinct (suc n) seen last (c ∷ rows) =
        elim (Bool-cases (p c && not (any (λ i. i == c.id) seen) && leb last c.created_at)) [
          | inl passes ↦ rw passes (
            All-imp (IsPicked p (c.id ∷ seen) c.created_at rows) (λ r. c.id ≢ r.id) _
                (λ r h. ground (arith, eq_iff c.id r.id))
                (pick-IsPicked n (c.id ∷ seen) c.created_at rows),
            pick-AreDistinct n (c.id ∷ seen) c.created_at rows,
          )
          | inr other ↦ rw other (pick-AreDistinct (suc n) (c.id ∷ seen) last rows)
        ]

    pub length-pick :
        (n : ℕ) (seen : List String) (last : ℕ) (rows : List (Row P))
        → length (pick p n seen last rows) ≤ n
    unfolding pick
    length-pick n seen last [] = omega arith
    length-pick zero seen last (c ∷ rows) = omega arith
    length-pick (suc n) seen last (c ∷ rows) = ground (
      arith,
      length-pick n (c.id ∷ seen) c.created_at rows,
      length-pick (suc n) (c.id ∷ seen) last rows,
    )

  pub table-All :
      (p : Row P → Bool) (n : ℕ) (t : Table P)
      → All (λ r. (p r ≡ true) × (find r.id t.rows ≡ some r)) (pick p n [] 0 t.rows)
  table-All p n t =
      All-imp (IsPicked p [] 0 t.rows) (λ r. (p r ≡ true) × (find r.id t.rows ≡ some r)) _
        (λ r (passes, found, _, _). (passes, found)) (pick-IsPicked p n [] 0 t.rows)

  pub table-create :
      (r q : Row P) (t : Table P)
      → returned r ≡ returned q
      → (q ≡ r) × (find r.id (r ∷ t.rows) ≡ some r)
  unfolding find
  table-create r q t h = (ground arith, ground (arith, eq_refl r.id))

-- An insert of an id that is taken is not asked for: the ids are new.
abbrev pub table : {P : Type 0} → Database P
table {P} = record {
  State = Table P;
  rows = λ t. t.rows;
  now = λ t. t.now;
  new_id = λ t. "id" <> show (length t.rows);
  random_uuid = λ t. "uuid" <> show (length t.rows);
  create = λ r t. (returned r, record t { rows = r ∷ t.rows });
  update = λ id f t. (update_outcome f (find id t.rows), record t { rows = modify id f t.rows });
  query = λ p n t. (pick p n [] 0 t.rows, t);
  create-returned = table-create;
  update-result = λ id f t. refl;
  update-rows = λ id f t. refl;
  query-rows = λ p n t. refl;
  query-All = table-All;
  query-length = λ p n t. length-pick p n [] 0 t.rows;
  query-InOrder = λ p n t. pick-InOrder p n [] 0 t.rows;
  query-AreDistinct = λ p n t. pick-AreDistinct p n [] 0 t.rows;
}
