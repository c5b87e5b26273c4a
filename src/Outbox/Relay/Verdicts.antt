-- ===== src/Outbox/Relay/Verdicts.antt =====
-- What one attempt to publish makes of a row, as a function of the rows alone.
use nest_fastify_boilerplate.Prelude.{
  ℕ, ◌+◌, ◌≤◌, ◌<◌, ◌≡◌, refl, true, none, List, [], ◌∷◌, leb, is_some, length, ◌≢◌, if◌then◌else◌,
  arith,
}
use nest_fastify_boilerplate.Outbox.Rows.{pending, published, failed, Row, modify, KeepsId}
use nest_fastify_boilerplate.Outbox.Repository.{as_published, as_retried, as_failed}

-- Published at a time, or refused at a time.
pub data Verdict : Type 0 where
  accepted refused : ℕ → Verdict

module _ {P : Type 0} (delay max_attempts : ℕ) where
  abbrev pub give_up_if_spent : Row P → Row P
  give_up_if_spent r = if leb max_attempts r.attempts then as_failed r else r

  unfoldable pub judge : Verdict → Row P → Row P
  judge (accepted now) r = as_published now r
  judge (refused now) r = give_up_if_spent (as_retried (now + delay) r)

  pub judge-KeepsId : (v : Verdict) → KeepsId (judge v)
  unfolding judge
  judge-KeepsId (accepted now) r = refl
  judge-KeepsId (refused now) r = ground arith

  -- The verdicts on the claimed rows, in order.
  unfoldable pub judge_all : List (Row P) → List Verdict → List (Row P) → List (Row P)
  judge_all (c ∷ claimed) (v ∷ verdicts) rows =
      judge_all claimed verdicts (modify c.id (judge v) rows)
  judge_all _ _ rows = rows

  -- The row has been published exactly if it says when; it is pending only while attempts are left, and
  -- failed only when none is.
  pub record IsConsistent (r : Row P) : Type 0 where
    pub stamped : r.status ≡ published → is_some r.published_at ≡ true
    pub unstamped : r.status ≢ published → r.published_at ≡ none
    pub open_below : r.status ≡ pending → r.attempts < max_attempts
    pub spent : r.status ≡ failed → max_attempts ≤ r.attempts

  pub judge-IsConsistent :
      (v : Verdict) (r : Row P) → r.status ≡ pending → IsConsistent r → IsConsistent (judge v r)
  unfolding judge
  judge-IsConsistent (accepted now) r p c = ground arith
  judge-IsConsistent (refused now) r p c = ground arith

  -- The row after `n` refusals at the times given.
  unfoldable pub refuse : List ℕ → Row P → Row P
  unfolding judge
  refuse [] r = r
  refuse (now ∷ times) r = refuse times (judge (refused now) r)

  refuse-attempts :
      (times : List ℕ) (r : Row P) → (refuse times r).attempts ≡ length times + r.attempts
  unfolding refuse
  refuse-attempts [] r = omega arith
  refuse-attempts (now ∷ times) r = ground (arith, refuse-attempts times (judge (refused now) r))

  refuse-failed :
      (times : List ℕ) (r : Row P) → r.status ≡ failed → (refuse times r).status ≡ failed
  unfolding refuse
  refuse-failed [] r p = p
  refuse-failed (now ∷ times) r p = ground (arith, refuse-failed times (judge (refused now) r))

  refuse-status :
      (times : List ℕ) (r : Row P)
      → r.status ≡ pending
      → r.attempts < max_attempts
      → (refuse times r).status
        ≡ (if leb max_attempts (length times + r.attempts) then failed else pending)
  unfolding refuse
  refuse-status [] r p h = ground arith
  refuse-status (now ∷ times) r p h = ground (
    arith,
    refuse-status times (judge (refused now) r),
    refuse-failed times (judge (refused now) r),
  )

-- An event that was never tried, and whose every attempt is refused, is pending while its attempts are
-- fewer than `max_attempts` and failed from then on; each refusal counts as one attempt.
pub refuse_lem :
    {P : Type 0} (delay max_attempts : ℕ) (times : List ℕ) (r : Row P)
    → r.status ≡ pending
    → r.attempts ≡ 0
    → 0 < max_attempts
    → ((refuse delay max_attempts times r).status
        ≡ (if leb max_attempts (length times) then failed else pending))
      × ((refuse delay max_attempts times r).attempts ≡ length times)
refuse_lem delay max_attempts times r p z h = (
  ground (arith, refuse-status delay max_attempts times r),
  omega (arith, refuse-attempts delay max_attempts times r),
)
