-- ===== src/Outbox/Rows.antt =====
-- The rows of the table `OutboxEvent` of prisma/schema.prisma, and what src/core/outbox relies on of the
-- database behind Prisma, as a parameter.
use nest_fastify_boilerplate.Prelude.{
  ℕ, ◌≤◌, String, ◌≡◌, refl, Bool, true, Option, none, some, List, [], ◌∷◌, All, length, ◌==◌,
  if◌then◌else◌, arith, eq_iff, Bool-cases, inl, inr, ◌≢◌,
}
use nest_fastify_boilerplate.Effects.{Outcome, Exec, returned, thrown, error}

pub data Status : Type 0 where
  pending published failed : Status

pub record Row (P : Type 0) : Type 0 where
  pub id : String
  pub message_id : String
  pub routing_key : String
  pub payload : P
  pub request_id : Option String
  pub status : Status
  pub attempts : ℕ
  pub available_at : ℕ
  pub created_at : ℕ
  pub published_at : Option ℕ

module _ {P : Type 0} where
  unfoldable pub find : String → List (Row P) → Option (Row P)
  find id [] = none
  find id (r ∷ rows) = if r.id == id then some r else find id rows

  -- The row with that primary key.
  unfoldable pub modify : String → (Row P → Row P) → List (Row P) → List (Row P)
  modify id f [] = []
  modify id f (r ∷ rows) = if r.id == id then f r ∷ rows else r ∷ modify id f rows

  abbrev pub KeepsId : (Row P → Row P) → Type 0
  KeepsId f = (r : Row P) → (f r).id ≡ r.id

  abbrev pub map_row : (Row P → Row P) → Option (Row P) → Option (Row P)
  map_row f none = none
  map_row f (some r) = some (f r)

  pub find-modify :
      (id j : String) (f : Row P → Row P) (rows : List (Row P))
      → KeepsId f
      → find j (modify id f rows) ≡ (if id == j then map_row f (find j rows) else find j rows)
  unfolding find modify
  find-modify id j f [] keeps = ground arith
  find-modify id j f (r ∷ rows) keeps =
      ground
        (arith, keeps r, eq_iff r.id id, eq_iff r.id j, eq_iff id j, find-modify id j f rows keeps)

  pub modify-modify :
      (id : String) (f g : Row P → Row P) (rows : List (Row P))
      → KeepsId f
      → modify id g (modify id f rows) ≡ modify id (λ r. g (f r)) rows
  unfolding modify
  modify-modify id f g [] keeps = refl
  modify-modify id f g (r ∷ rows) keeps =
      ground (arith, keeps r, eq_iff r.id id, modify-modify id f g rows keeps)

  -- Only what the functions do to that row matters.
  pub modify-eq_of_find :
      (id : String) (f g : Row P → Row P) (rows : List (Row P)) (r : Row P)
      → find id rows ≡ some r
      → f r ≡ g r
      → modify id f rows ≡ modify id g rows
  unfolding find modify
  modify-eq_of_find id f g [] r h e = refl
  modify-eq_of_find id f g (q ∷ rows) r h e =
      ground (arith, eq_iff q.id id, modify-eq_of_find id f g rows r)

  pub modify-All {κ} :
      (Q : Row P → Type κ) (id : String) (f : Row P → Row P) (rows : List (Row P))
      → All Q rows
      → ((r : Row P) → find id rows ≡ some r → Q r → Q (f r))
      → All Q (modify id f rows)
  unfolding find modify
  modify-All Q id f [] h keep = tt
  modify-All Q id f (r ∷ rows) (q, h) keep = elim (Bool-cases (r.id == id)) [
    | inl same ↦ rw same (keep r (rw same) q, h)
    | inr other ↦ rw other (q, modify-All Q id f rows h (λ s e. keep s (rw other e)))
  ]

  -- No two rows have one primary key.
  abbrev pub AreDistinct : List (Row P) → Type 0
  AreDistinct [] = Unit
  AreDistinct (r ∷ rows) = All (λ q. r.id ≢ q.id) rows × AreDistinct rows

  -- Oldest first.
  abbrev pub InOrder : List (Row P) → Type 0
  InOrder [] = Unit
  InOrder (r ∷ rows) = All (λ q. r.created_at ≤ q.created_at) rows × InOrder rows

-- An update of a row that is not there is rejected and changes nothing.
abbrev pub update_outcome : {P : Type 0} → (Row P → Row P) → Option (Row P) → Outcome (Row P)
update_outcome f none = thrown (error "No record was found for an update.")
update_outcome f (some r) = returned (f r)

-- `query p n` is `SELECT … WHERE p ORDER BY "createdAt" ASC LIMIT n FOR UPDATE SKIP LOCKED`.
pub record Database (P : Type 0) : Type 1 where
  pub State : Type 0
  pub rows : State → List (Row P)
  pub now : State → ℕ
  pub new_id : State → String
  pub random_uuid : State → String
  pub create : Row P → Exec State (Row P)
  pub update : String → (Row P → Row P) → Exec State (Row P)
  pub query : (Row P → Bool) → ℕ → State → List (Row P) × State
  pub create-returned :
      (r q : Row P) (s : State)
      → (create r s).0 ≡ returned q
      → (q ≡ r) × (find r.id (rows (create r s).1) ≡ some r)
  pub update-result :
      (id : String) (f : Row P → Row P) (s : State)
      → (update id f s).0 ≡ update_outcome f (find id (rows s))
  pub update-rows :
      (id : String) (f : Row P → Row P) (s : State) → rows (update id f s).1 ≡ modify id f (rows s)
  pub query-rows : (p : Row P → Bool) (n : ℕ) (s : State) → rows (query p n s).1 ≡ rows s
  pub query-All :
      (p : Row P → Bool) (n : ℕ) (s : State)
      → All (λ r. (p r ≡ true) × (find r.id (rows s) ≡ some r)) (query p n s).0
  pub query-length : (p : Row P → Bool) (n : ℕ) (s : State) → length (query p n s).0 ≤ n
  pub query-InOrder : (p : Row P → Bool) (n : ℕ) (s : State) → InOrder (query p n s).0
  pub query-AreDistinct : (p : Row P → Bool) (n : ℕ) (s : State) → AreDistinct (query p n s).0
