-- ===== src/Redis/Scripts/Lease.antt =====
-- The lock scripts against a specification: a lock is a lease, which its owner's token holds until
-- a deadline.
use nest_fastify_boilerplate.Prelude.{
  ap, ℕ, String, ◌≡◌, ◌≢◌, Bool, true, false, Option, none, some, arith, eq_iff, eq_refl,
}
use nest_fastify_boilerplate.Effects.{Outcome, returned}
use nest_fastify_boilerplate.Redis.Port.{Value, Entry, Redis, text, counter}
use nest_fastify_boilerplate.Redis.Scripts.{
  is_token, reply, acquire_lock, extend_lock, release_lock,
}
use nest_fastify_boilerplate.Redis.Scripts.Spec
use nest_fastify_boilerplate.Redis.Scripts.Spec.{Lease}
use nest_fastify_boilerplate.Redis.Scripts.Locking.{
  holder, acquire_lock-result, acquire_lock-entry, release_lock-result, release_lock-entry,
  extend_lock-result, extend_lock-entry,
}

abbrev lease_in : Value → Option ℕ → Option Lease
lease_in (text t) (some d) = some (record { owner = t; until = d })
lease_in _ _ = none

-- The lease that the entry of a lock's key stands for.
abbrev pub lease_of : Option Entry → Option Lease
lease_of none = none
lease_of (some e) = lease_in e.value e.deadline

abbrev IsTimed : Value → Option ℕ → Type 0
IsTimed (text t) (some d) = Unit
IsTimed _ _ = ⊥

-- The key is free or holds a token with a deadline, as the lock scripts leave it.
abbrev pub IsLock : Option Entry → Type 0
IsLock none = Unit
IsLock (some e) = IsTimed e.value e.deadline

abbrev pub is_granted : Outcome (Option ℕ) → Bool
is_granted (returned (some n)) = true
is_granted _ = false

is_token-eq : (token : String) (v : Option Value) → is_token token v ≡ true → v ≡ some (text token)
is_token-eq token none h = cc
is_token-eq token (some (text t)) h = ap (λ u. some (text u)) ((eq_iff t token).0 h)
is_token-eq token (some (counter n)) h = cc

module _ (R : Redis) (now : ℕ) (k token : String) (s : R.State) where
  acquire_lock-Lease :
      (ttl : ℕ) (f : String)
      → IsLock (R.entry s k)
      → f ≢ k
      → (is_granted (acquire_lock R now k f token ttl false s).0
          ≡ (Spec.acquire now token ttl (lease_of (R.entry s k))).0)
        × (lease_of (R.entry (acquire_lock R now k f token ttl false s).1 k)
            ≡ (Spec.acquire now token ttl (lease_of (R.entry s k))).1)
  acquire_lock-Lease ttl f lock other =
      rw
        (
          acquire_lock-result R now k f token ttl s false other,
          acquire_lock-entry R now k f token ttl s false k other,
        )
        (ground (arith, eq_refl k))

  extend_lock-Lease :
      (ttl : ℕ)
      → IsLock (R.entry s k)
      → ((extend_lock R now k token ttl s).0
          ≡ returned (reply (Spec.extend now token ttl (lease_of (R.entry s k))).0))
        × (lease_of (R.entry (extend_lock R now k token ttl s).1 k)
            ≡ (Spec.extend now token ttl (lease_of (R.entry s k))).1)
  extend_lock-Lease ttl lock =
      rw (extend_lock-result R now k token s ttl, extend_lock-entry R now k token s ttl k)
        (ground (arith, eq_refl k, is_token-eq token (holder R now k s)))

  release_lock-Lease :
      IsLock (R.entry s k)
      → ((release_lock R now k token s).0
          ≡ returned (reply (Spec.release now token (lease_of (R.entry s k))).0))
        × (lease_of (R.entry (release_lock R now k token s).1 k)
            ≡ (Spec.release now token (lease_of (R.entry s k))).1)
  release_lock-Lease lock =
      rw (release_lock-result R now k token s, release_lock-entry R now k token s k)
        (ground (arith, eq_refl k))

-- On a lock's key, whose fence key is another: the three scripts reply what the specification
-- answers and leave the lease that it leaves; acquire here is without fencing.
pub scripts_refine :
    (R : Redis) (now : ℕ) (k f token : String) (ttl : ℕ) (s : R.State)
    → IsLock (R.entry s k)
    → f ≢ k
    → ((is_granted (acquire_lock R now k f token ttl false s).0
          ≡ (Spec.acquire now token ttl (lease_of (R.entry s k))).0)
        × (lease_of (R.entry (acquire_lock R now k f token ttl false s).1 k)
            ≡ (Spec.acquire now token ttl (lease_of (R.entry s k))).1))
      × (((extend_lock R now k token ttl s).0
            ≡ returned (reply (Spec.extend now token ttl (lease_of (R.entry s k))).0))
          × (lease_of (R.entry (extend_lock R now k token ttl s).1 k)
              ≡ (Spec.extend now token ttl (lease_of (R.entry s k))).1))
      × (((release_lock R now k token s).0
            ≡ returned (reply (Spec.release now token (lease_of (R.entry s k))).0))
          × (lease_of (R.entry (release_lock R now k token s).1 k)
              ≡ (Spec.release now token (lease_of (R.entry s k))).1))
scripts_refine R now k f token ttl s lock other = (
  acquire_lock-Lease R now k token s ttl f lock other,
  extend_lock-Lease R now k token s ttl lock,
  release_lock-Lease R now k token s lock,
)
