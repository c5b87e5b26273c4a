-- ===== src/Redis/RateLimit/Window.antt =====
-- The rate limit keeps to its limit in every window, whatever the times of the hits.
use nest_fastify_boilerplate.Prelude.{
  ℕ, ◌+◌, ◌-◌, ◌≤◌, String, ◌≡◌, refl, true, false, Option, none, some, List, [], ◌∷◌, ltb, length,
  any, All, ◌==◌, if◌then◌else◌, arith, eq_refl, ap, ◌∙◌,
}
use nest_fastify_boilerplate.Redis.RateLimit.Commands.{
  Member, SortedSet, SortedSets, visible_members, above, without, insert, stored, deadline_of,
  expiring,
}
use nest_fastify_boilerplate.Redis.RateLimit.{Reply, start_of, rate_limit}

module _ (window : ℕ) where
  -- How many of the times lie in the window that ends at `t`, less than `window` before it.
  unfoldable pub recent : ℕ → List ℕ → ℕ
  recent t [] = 0
  recent t (x ∷ xs) = (if ltb t (x + window) then 1 else 0) + recent t xs

  unfoldable pub recent_members : ℕ → List Member → ℕ
  recent_members t [] = 0
  recent_members t ((m, x) ∷ ms) = (if ltb t (x + window) then 1 else 0) + recent_members t ms

  pub recent_members-above :
      (now t : ℕ) (ms : List Member)
      → now ≤ t
      → recent_members t (above (start_of now window) ms) ≡ recent_members t ms
  unfolding recent_members above
  recent_members-above now t [] h = ground arith
  recent_members-above now t ((m, x) ∷ ms) h = ground (arith, recent_members-above now t ms)

  length-above :
      (now : ℕ) (ms : List Member) → length (above (start_of now window) ms) ≡ recent_members now ms
  unfolding recent_members above
  length-above now [] = ground arith
  length-above now ((m, x) ∷ ms) = ground (arith, length-above now ms)

  pub recent_members-insert :
      (t now : ℕ) (member : String) (ms : List Member)
      → recent_members t (insert member now ms)
        ≡ (if ltb t (now + window) then 1 else 0) + recent_members t ms
  unfolding recent_members insert
  recent_members-insert t now member [] = refl
  recent_members-insert t now member ((m, x) ∷ ms) =
      ground (arith, recent_members-insert t now member ms)

  without-above :
      (b : Option ℕ) (member : String) (ms : List Member)
      → any (λ m. m.0 == member) ms ≡ false
      → without member (above b ms) ≡ above b ms
  unfolding without above
  without-above none member [] h = refl
  without-above none member ((m, x) ∷ ms) h = ground (arith, without-above none member ms)
  without-above (some b) member [] h = refl
  without-above (some b) member ((m, x) ∷ ms) h = ground (arith, without-above (some b) member ms)

  pub recent-past :
      (last t : ℕ) (xs : List ℕ) → All (λ x. x ≤ last) xs → last + window ≤ t → recent t xs ≡ 0
  unfolding recent
  recent-past last t [] h le = refl
  recent-past last t (x ∷ xs) (p, h) le = ground (arith, recent-past last t xs h le)

  module _ (now : ℕ) (e : Option SortedSet) where
    abbrev pub kept : List Member
    kept = above (start_of now window) (visible_members now e)

    visible-pruned : visible_members now (stored kept (deadline_of now e)) ≡ kept
    visible-pruned = ground arith

    pub visible-later :
        (t : ℕ)
        → now ≤ t
        → recent_members t (visible_members t e) ≤ recent_members t (visible_members now e)
    unfolding recent_members
    visible-later t h = ground arith

    pub pruned-later :
        (t : ℕ)
        → now ≤ t
        → recent_members t (visible_members t e)
          ≤ recent_members t (visible_members t (stored kept (deadline_of now e)))
    unfolding recent_members
    pruned-later t h = ground (arith, recent_members-above now t (visible_members now e))

    stored-insert :
        (member : String) (ms : List Member) (d : Option ℕ)
        → stored (insert member now ms) d
          ≡ some (record { members = insert member now ms; deadline = d })
    unfolding insert
    stored-insert member [] d = refl
    stored-insert member ((m, x) ∷ ms) d = ground arith

    expiring-stored :
        (member : String) (ms : List Member) (d : ℕ) (p : Option SortedSet)
        → expiring d (
            stored
              (visible_members now (stored (insert member now ms) (deadline_of now p)))
              (deadline_of now (stored (insert member now ms) (deadline_of now p))))
          ≡ some (record { members = insert member now ms; deadline = some d })
    expiring-stored member ms d p = rw (stored-insert member ms (deadline_of now p)) (expire d p)
      where
        expire :
            (d : ℕ) (p : Option SortedSet)
            → expiring d (
                stored
                  (visible_members now (
                    some (record { members = insert member now ms; deadline = deadline_of now p })))
                  (deadline_of now (
                    some
                      (record { members = insert member now ms; deadline = deadline_of now p }))))
              ≡ some (record { members = insert member now ms; deadline = some d })
        expire d none = ground (arith, stored-insert member ms none)
        expire d (some set) =
            ground (arith, stored-insert member ms none, stored-insert member ms set.deadline)

module _ (R : SortedSets) (key : String) (limit window : ℕ) (now : ℕ) (member : String)
    (s : R.State) where
  abbrev pub script : Reply × R.State
  script = rate_limit R now key now window limit member s

  abbrev pub shown : List Member
  shown = visible_members now (R.entry s key)

  abbrev pub count : ℕ
  count = recent_members window now shown

  abbrev pub pruned : Option SortedSet
  pruned = stored (kept window now (R.entry s key)) (deadline_of now (R.entry s key))

  abbrev after_prune : R.State
  after_prune = R.zremrangebyscore now key (start_of now window) s

  entry-after_prune : R.entry after_prune key ≡ pruned
  entry-after_prune =
      ground (arith, R.zremrangebyscore-entry now key (start_of now window) s key, eq_refl key)

  zcard-after_prune : R.zcard now key after_prune ≡ count
  zcard-after_prune =
      R.zcard_lem now key after_prune
      ∙ ap (λ e. length (visible_members now e)) entry-after_prune
      ∙ ap length (visible-pruned window now (R.entry s key))
      ∙ length-above window now shown

  pub rate_limit-allowed : script.0.allowed ≡ (if ltb count limit then 1 else 0)
  unfolding rate_limit
  rate_limit-allowed = ground (arith, zcard-after_prune)

  pub rate_limit-remaining : script.0.remaining ≡ limit - (count + script.0.allowed)
  unfolding rate_limit
  rate_limit-remaining = ground (arith, zcard-after_prune)

  pub rate_limit-refused : ltb count limit ≡ false → R.entry script.1 key ≡ pruned
  unfolding rate_limit
  rate_limit-refused h = ground (arith, zcard-after_prune, entry-after_prune)

  pub rate_limit-added :
      ltb count limit ≡ true
      → any (λ m. m.0 == member) shown ≡ false
      → R.entry script.1 key
        ≡ some (record {
          members = insert member now (kept window now (R.entry s key));
          deadline = some (now + window);
        })
  unfolding rate_limit
  rate_limit-added h fresh = granted ∙ added
    where
      grown : R.State
      grown = R.zadd now key now member after_prune

      entry-grown :
          R.entry grown key
          ≡ stored (insert member now (kept window now (R.entry s key))) (deadline_of now pruned)
      entry-grown =
          R.zadd-entry now key now member after_prune key
          ∙ rw (eq_refl key) (
              rw entry-after_prune (
                rw
                  (
                    visible-pruned window now (R.entry s key),
                    without-above window (start_of now window) member shown fresh,
                  )
                  refl))

      granted : R.entry script.1 key ≡ R.entry (R.pexpire now key window grown) key
      granted = ground (arith, zcard-after_prune)

      added :
          R.entry (R.pexpire now key window grown) key
          ≡ some (record {
            members = insert member now (kept window now (R.entry s key));
            deadline = some (now + window);
          })
      added =
          R.pexpire-entry now key window grown key
          ∙ rw (eq_refl key) (
              rw entry-grown (
                expiring-stored window now (R.entry s key) member (kept window now (R.entry s key))
                  (now + window) pruned))
