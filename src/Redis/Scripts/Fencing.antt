-- ===== src/Redis/Scripts/Fencing.antt =====
-- Clients of one lock, in any order: they acquire, extend and release it with any tokens, time
-- passes, and other commands run on other keys. The history keeps what the scripts granted.
use nest_fastify_boilerplate.Prelude.{
  ℕ, ◌+◌, ◌<◌, String, ◌≡◌, ◌≢◌, Bool, Option, none, some, List, [], ◌∷◌, if◌then◌else◌, arith,
  eq_iff, eq_refl,
}
use nest_fastify_boilerplate.Effects.{Outcome, returned}
use nest_fastify_boilerplate.Redis.Port.{Value, Entry, Redis, text, counter, visible}
use nest_fastify_boilerplate.Redis.Scripts.{acquire_lock, extend_lock, release_lock}
use nest_fastify_boilerplate.Redis.Scripts.Locking.{
  holder, acquire_lock-result, acquire_lock-entry, release_lock-entry, extend_lock-entry,
}

-- Below `b`, newest first: each is greater than all that come after it.
abbrev pub IsDescending : ℕ → List ℕ → Type 0
IsDescending b [] = Unit
IsDescending b (c ∷ cs) = (c < b) × IsDescending c cs

abbrev CountsAt : Value → Option ℕ → List ℕ → Type 0
CountsAt (counter n) none [] = Unit
CountsAt (counter n) none (c ∷ cs) = (c ≡ n) × IsDescending n cs
CountsAt _ _ cs = ⊥

-- The entry of the fence key, against the fencing tokens granted: it counts up to the last of them, if
-- one was granted in the history, and does not expire.
abbrev pub Counts : Option Entry → List ℕ → Type 0
Counts none cs = cs ≡ []
Counts (some e) cs = CountsAt e.value e.deadline cs

-- A lock that is held is held by the token that it was granted to last.
abbrev pub OwnedBy : Option Value → List String → Type 0
OwnedBy none owners = Unit
OwnedBy (some v) [] = ⊥
OwnedBy (some v) (token ∷ _) = v ≡ text token

module _ (R : Redis) (k f : String) where
  pub record History : Type 0 where
    pub redis : R.State
    pub now : ℕ
    -- the tokens that were granted the lock, newest first
    pub owners : List String
    -- the fencing tokens that were granted, newest first
    pub fences : List ℕ

  pub data Action : Type 0 where
    wait : ℕ → Action
    acquire : String → ℕ → Bool → Action
    extend : String → ℕ → Action
    release : String → Action
    elsewhere :
        (g : R.State → R.State)
        → ((s : R.State) → (R.entry (g s) k ≡ R.entry s k) × (R.entry (g s) f ≡ R.entry s f))
        → Action

  abbrev granted : String → Bool → Outcome (Option ℕ) → History → History
  granted token fencing (returned (some n)) h = record h {
    owners = token ∷ h.owners;
    fences = if fencing then n ∷ h.fences else h.fences;
  }
  granted token fencing _ h = h

  pub perform : Action → History → History
  perform (wait d) h = record h { now = h.now + d }
  perform (acquire token ttl fencing) h =
      let (r, s) = acquire_lock R h.now k f token ttl fencing h.redis in
      granted token fencing r (record h { redis = s })
  perform (extend token ttl) h = record h { redis = (extend_lock R h.now k token ttl h.redis).1 }
  perform (release token) h = record h { redis = (release_lock R h.now k token h.redis).1 }
  perform (elsewhere g _) h = record h { redis = g h.redis }

  pub run : List Action → History → History
  run [] h = h
  run (a ∷ rest) h = run rest (perform a h)

  pub record IsFenced (h : History) : Type 0 where
    pub counts : Counts (R.entry h.redis f) h.fences
    pub owned : OwnedBy (holder R h.now k h.redis) h.owners

module _ (R : Redis) (k f : String) (other : f ≢ k) where
  OwnedBy-wait :
      (now d : ℕ) (e : Option Entry) (owners : List String)
      → OwnedBy (visible now e) owners
      → OwnedBy (visible (now + d) e) owners
  OwnedBy-wait now d e owners h = ground arith

  perform-Counts :
      (token : String) (ttl : ℕ) (fencing : Bool) (h : History R k f)
      → IsFenced R k f h
      → Counts
          (R.entry (perform R k f (acquire token ttl fencing) h).redis f)
          (perform R k f (acquire token ttl fencing) h).fences
  unfolding perform
  perform-Counts token ttl fencing h i = ground (
    arith,
    i,
    acquire_lock-result R h.now k f token ttl h.redis fencing other,
    acquire_lock-entry R h.now k f token ttl h.redis fencing f other,
    eq_refl f,
    eq_iff k f,
  )

  perform-OwnedBy :
      (token : String) (ttl : ℕ) (fencing : Bool) (h : History R k f)
      → IsFenced R k f h
      → OwnedBy
          (holder R
            (perform R k f (acquire token ttl fencing) h).now
            k
            (perform R k f (acquire token ttl fencing) h).redis)
          (perform R k f (acquire token ttl fencing) h).owners
  unfolding perform
  perform-OwnedBy token ttl fencing h i = ground (
    arith,
    i,
    acquire_lock-result R h.now k f token ttl h.redis fencing other,
    acquire_lock-entry R h.now k f token ttl h.redis fencing k other,
    eq_refl k,
  )

  perform-IsFenced :
      (a : Action R k f) (h : History R k f) → IsFenced R k f h → IsFenced R k f (perform R k f a h)
  unfolding perform
  perform-IsFenced (wait d) h i = record {
    counts = i.counts;
    owned = OwnedBy-wait h.now d (R.entry h.redis k) h.owners i.owned;
  }
  perform-IsFenced (acquire token ttl fencing) h i = record {
    counts = perform-Counts token ttl fencing h i;
    owned = perform-OwnedBy token ttl fencing h i;
  }
  perform-IsFenced (extend token ttl) h i = record {
    counts = rw (extend_lock-entry R h.now k token h.redis ttl f) (ground (arith, eq_iff k f));
    owned = rw (extend_lock-entry R h.now k token h.redis ttl k) (ground arith);
  }
  perform-IsFenced (release token) h i = record {
    counts = rw (release_lock-entry R h.now k token h.redis f) (ground (arith, eq_iff k f));
    owned = rw (release_lock-entry R h.now k token h.redis k) (ground arith);
  }
  perform-IsFenced (elsewhere g same) h i = record {
    counts = rw ((same h.redis).1) i.counts;
    owned = rw ((same h.redis).0) i.owned;
  }

-- Whatever the clients do, in whatever order: the fencing tokens granted grow with each grant, the
-- fence key holds the last of them, and a lock that is held is held by the token of its last grant.
-- The fence key is another than the lock's, and the state that they start from has these properties.
pub run-IsFenced :
    (R : Redis) (k f : String) (actions : List (Action R k f)) (h : History R k f)
    → f ≢ k
    → IsFenced R k f h
    → IsFenced R k f (run R k f actions h)
unfolding run
run-IsFenced R k f [] h other i = i
run-IsFenced R k f (a ∷ rest) h other i =
    run-IsFenced R k f rest (perform R k f a h) other (perform-IsFenced R k f other a h i)
