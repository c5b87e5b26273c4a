-- ===== src/Redis/RateLimit/Limit.antt =====
-- Hits of one key, one after the other: the rate limit keeps to its limit in every window.
use nest_fastify_boilerplate.Prelude.{
  ℕ, ◌+◌, ◌-◌, ◌*◌, ◌<>◌, show, ◌≤◌, String, ◌≡◌, true, false, List, [], ◌∷◌, ltb, eqb, any, All,
  ◌==◌, if◌then◌else◌, arith, Bool-cases, inl, inr,
}
use nest_fastify_boilerplate.Redis.RateLimit.Commands.{SortedSets, visible_members}
use nest_fastify_boilerplate.Redis.RateLimit.{rate_limit, hit}
use nest_fastify_boilerplate.Redis.RateLimit.Window.{
  recent, recent_members, recent_members-above, recent_members-insert, recent-past, kept,
  visible-later, pruned-later, rate_limit-allowed, rate_limit-refused, rate_limit-added,
  rate_limit-remaining, count,
}

-- A hit some time after the one before, with its member.
pub record Hit : Type 0 where
  pub later : ℕ
  pub member : String

module _ (R : SortedSets) (key : String) (limit window : ℕ) where
  -- `grants` are the times of the hits that were allowed, newest first.
  pub record History : Type 0 where
    pub state : R.State
    pub now : ℕ
    pub grants : List ℕ

  -- The server's clock is the caller's.
  unfoldable pub respond : Hit → History → History
  respond a h =
      let now = h.now + a.later in
      let (r, s) = rate_limit R now key now window limit a.member h.state in
      record { state = s; now = now; grants = if eqb r.allowed 1 then now ∷ h.grants else h.grants }

  unfoldable pub run : List Hit → History → History
  unfolding respond
  run [] h = h
  run (a ∷ hits) h = run hits (respond a h)

  -- Each allowed hit is one of at most `limit` in the window that ends with it.
  abbrev pub IsLimited : List ℕ → Type 0
  IsLimited [] = Unit
  IsLimited (g ∷ gs) = (1 + recent window g gs ≤ limit) × IsLimited gs

  -- The key's set has a member for each allowed hit that is recent now or at a later time.
  pub record IsCounted (h : History) : Type 0 where
    pub covers :
        (t : ℕ)
        → h.now ≤ t
        → recent window t h.grants
          ≤ recent_members window t (visible_members t (R.entry h.state key))
    pub past : All (λ g. g ≤ h.now) h.grants
    pub limited : IsLimited h.grants

  -- No hit has a member that is in the set already.
  abbrev pub AreFresh : List Hit → History → Type 0
  AreFresh [] h = Unit
  AreFresh (a ∷ hits) h =
      (any (λ m. m.0 == a.member) (visible_members (h.now + a.later) (R.entry h.state key)) ≡ false)
      × AreFresh hits (respond a h)

  past-later : (m n : ℕ) (xs : List ℕ) → m ≤ n → All (λ g. g ≤ m) xs → All (λ g. g ≤ n) xs
  past-later m n [] le h = tt
  past-later m n (x ∷ xs) le (p, h) = (omega arith, past-later m n xs le h)

  module _ (a : Hit) (h : History) (i : IsCounted h) where
    abbrev time : ℕ
    time = h.now + a.later

    abbrev seen : ℕ
    seen = count R key limit window time a.member h.state

    respond-refused : ltb seen limit ≡ false → IsCounted (respond a h)
    unfolding respond
    respond-refused over =
        let refused = rate_limit-allowed R key limit window time a.member h.state in
        let entry = rate_limit-refused R key limit window time a.member h.state over in
        record {
          covers = λ t le. rw entry (
              ground (
                arith,
                refused,
                i.covers t (omega arith),
                pruned-later window time (R.entry h.state key) t le,
              ));
          past = rw refused (rw over (past-later h.now time h.grants (omega arith) i.past));
          limited = ground (arith, refused, i.limited);
        }

    respond-allowed :
        ltb seen limit ≡ true
        → any (λ m. m.0 == a.member) (visible_members time (R.entry h.state key)) ≡ false
        → IsCounted (respond a h)
    unfolding respond recent recent_members
    respond-allowed below fresh =
        let allowed = rate_limit-allowed R key limit window time a.member h.state in
        let entry = rate_limit-added R key limit window time a.member h.state below fresh in
        record {
          covers = λ t le. rw entry (
              ground (
                arith,
                allowed,
                i.covers t (omega arith),
                recent-past window h.now t h.grants i.past,
                visible-later window time (R.entry h.state key) t le,
                recent_members-insert window t time a.member
                    (kept window time (R.entry h.state key)),
                recent_members-above window time t (visible_members time (R.entry h.state key)) le,
              ));
          past = ground (arith, allowed, past-later h.now time h.grants (omega arith) i.past);
          limited = ground (arith, allowed, i.limited, i.covers time (omega arith));
        }

  respond-IsCounted :
      (a : Hit) (h : History)
      → IsCounted h
      → any (λ m. m.0 == a.member) (visible_members (h.now + a.later) (R.entry h.state key)) ≡ false
      → IsCounted (respond a h)
  respond-IsCounted a h i fresh =
      elim (Bool-cases (ltb (count R key limit window (h.now + a.later) a.member h.state) limit)) [
        | inl below ↦ respond-allowed a h i below fresh
        | inr over ↦ respond-refused a h i over
      ]

-- Hits of one key at any times, in order, with the clock of the server: each hit that is allowed is one
-- of at most `limit` in the window that ends with it, and the set counts every hit that is still
-- recent. No hit has a member that the set has already, and the history before has these properties.
pub run-IsCounted :
    (R : SortedSets) (key : String) (limit window : ℕ) (hits : List Hit)
    (h : History R key limit window)
    → IsCounted R key limit window h
    → AreFresh R key limit window hits h
    → IsCounted R key limit window (run R key limit window hits h)
unfolding run
run-IsCounted R key limit window [] h i fresh = i
run-IsCounted R key limit window (a ∷ hits) h i (f, fresh) =
    run-IsCounted R key limit window hits (respond R key limit window a h)
      (respond-IsCounted R key limit window a h i f) fresh

-- With one clock, `hit` allows a call exactly if fewer than `limit` members of the key's set are less
-- than a window old; what remains is the limit less those and the call itself, if it was allowed.
pub hit_lem :
    (R : SortedSets) (now : ℕ) (uuid key : String) (limit seconds : ℕ) (s : R.State)
    → ((hit R now now uuid key limit seconds s).0.allowed
        ≡ ltb
            (recent_members (seconds * 1000) now (visible_members now (R.entry s ("rl:" <> key))))
            limit)
      × ((hit R now now uuid key limit seconds s).0.remaining
          ≡ limit
            - (recent_members (seconds * 1000) now (visible_members now (R.entry s ("rl:" <> key)))
                + (if (hit R now now uuid key limit seconds s).0.allowed then 1 else 0)))
unfolding hit
hit_lem R now uuid key limit seconds s = ground (
  arith,
  rate_limit-allowed R ("rl:" <> key) limit (seconds * 1000) now (show now <> ":" <> uuid) s,
  rate_limit-remaining R ("rl:" <> key) limit (seconds * 1000) now (show now <> ":" <> uuid) s,
)
