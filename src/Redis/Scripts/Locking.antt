-- ===== src/Redis/Scripts/Locking.antt =====
-- What the lock scripts do to the entries of the server, on every branch.
use nest_fastify_boilerplate.Prelude.{
  ℕ, ◌+◌, String, ◌≡◌, ◌≢◌, Bool, Option, none, some, ◌==◌, if◌then◌else◌, arith, eq_iff, is_none,
  ◌&&◌, ltb,
}
use nest_fastify_boilerplate.Effects.{Outcome, returned, thrown, error}
use nest_fastify_boilerplate.Redis.Port.{
  Value, Entry, Redis, text, visible, retime, incremented, counted,
}
use nest_fastify_boilerplate.Redis.Scripts.{
  is_token, reply, acquire_lock, extend_lock, release_lock,
}

-- The lock that a token holds until a time.
abbrev pub held : String → ℕ → Option Entry
held token d = some (record { value = text token; deadline = some d })

-- What INCR replies, as the script passes it on.
abbrev pub fence_outcome : Option ℕ → Outcome (Option ℕ)
fence_outcome none = thrown (error "ERR value is not an integer or out of range")
fence_outcome (some n) = returned (some n)

module _ (R : Redis) where
  open R use {State, entry}

  -- What the lock's key shows at a time.
  abbrev pub holder : ℕ → String → State → Option Value
  holder now k s = visible now (entry s k)

  module _ (now : ℕ) (k f token : String) (ttl : ℕ) (s : State) where
    pub acquire_lock-result :
        (fencing : Bool)
        → f ≢ k
        → (acquire_lock R now k f token ttl fencing s).0 ≡ (
            if ltb 0 ttl
            then (if is_none (holder now k s)
                then (if fencing
                    then fence_outcome (incremented (holder now f s))
                    else returned (some 1))
                else returned none)
            else thrown (error "ERR invalid expire time in 'set' command"))
    unfolding acquire_lock
    acquire_lock-result fencing other = ground (
      arith,
      R.set_nx_px-result now k token ttl s,
      R.set_nx_px-entry now k token ttl s f,
      eq_iff k f,
      R.incr-result now f (R.set_nx_px now k token ttl s).1,
    )

    pub acquire_lock-entry :
        (fencing : Bool) (j : String)
        → f ≢ k
        → entry (acquire_lock R now k f token ttl fencing s).1 j ≡ (
            if is_none (holder now k s) && ltb 0 ttl
            then (if k == j
                then held token (now + ttl)
                else if fencing && (f == j)
                then counted now (entry s j)
                else entry s j)
            else entry s j)
    unfolding acquire_lock
    acquire_lock-entry fencing j other = ground (
      arith,
      R.set_nx_px-result now k token ttl s,
      R.set_nx_px-entry now k token ttl s j,
      eq_iff k j,
      eq_iff f j,
      eq_iff k f,
      R.incr-entry now f (R.set_nx_px now k token ttl s).1 j,
    )

  module _ (now : ℕ) (k token : String) (s : State) where
    pub release_lock-result :
        (release_lock R now k token s).0 ≡ returned (reply (is_token token (holder now k s)))
    unfolding release_lock
    release_lock-result = ground (arith, R.get_lem now k s, R.del-result now k s)

    pub release_lock-entry :
        (j : String)
        → entry (release_lock R now k token s).1 j
          ≡ (if (k == j) && is_token token (holder now k s) then none else entry s j)
    unfolding release_lock
    release_lock-entry j = ground (arith, R.get_lem now k s, R.del-entry now k s j)

    pub extend_lock-result :
        (ttl : ℕ)
        → (extend_lock R now k token ttl s).0 ≡ returned (reply (is_token token (holder now k s)))
    unfolding extend_lock
    extend_lock-result ttl = ground (arith, R.get_lem now k s, R.pexpire-result now k ttl s)

    pub extend_lock-entry :
        (ttl : ℕ) (j : String)
        → entry (extend_lock R now k token ttl s).1 j ≡ (
            if (k == j) && is_token token (holder now k s)
            then retime (now + ttl) (entry s j)
            else entry s j)
    unfolding extend_lock
    extend_lock-entry ttl j =
        ground (arith, R.get_lem now k s, R.pexpire-entry now k ttl s j, eq_iff k j)
