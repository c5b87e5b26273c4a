-- ===== src/Redis/Memory.antt =====
-- A Redis whose state is the function from keys to entries: it shows that the behaviour assumed in
-- Redis/Port.antt can be met, and it runs in the tests.
use nest_fastify_boilerplate.Prelude.{
  ℕ, ◌+◌, ◌*◌, show, String, ◌≡◌, refl, Bool, ◌&&◌, Option, none, some, is_none, is_some, ltb, ◌==◌,
  if◌then◌else◌, arith, eq_iff,
}
use nest_fastify_boilerplate.Redis.Port.{
  Entry, Redis, Value, counter, text, visible, retime, incremented, counted,
}

abbrev Table : Type 0
Table = String → Option Entry

abbrev update : String → Option Entry → Table → Table
update k e s j = if k == j then e else s j

abbrev set_nx_px : ℕ → String → String → ℕ → Table → Option Bool × Table
set_nx_px now k v ttl s = (
  if ltb 0 ttl then some (is_none (visible now (s k))) else none,
  if is_none (visible now (s k)) && ltb 0 ttl
      then update k (some (record { value = text v; deadline = some (now + ttl) })) s
      else s,
)

abbrev pexpire : ℕ → String → ℕ → Table → Bool × Table
pexpire now k ttl s = (
  is_some (visible now (s k)),
  if is_some (visible now (s k)) then update k (retime (now + ttl) (s k)) s else s,
)

abbrev shown : Value → String
shown (text t) = t
shown (counter n) = show n

abbrev incr : ℕ → String → Table → Option ℕ × Table
incr now k s = (incremented (visible now (s k)), update k (counted now (s k)) s)

module _ (now : ℕ) (k : String) where
  pub set_nx_px-entry :
      (v : String) (ttl : ℕ) (s : Table) (j : String)
      → (set_nx_px now k v ttl s).1 j ≡ (
          if (k == j) && is_none (visible now (s k)) && ltb 0 ttl
          then some (record { value = text v; deadline = some (now + ttl) })
          else s j)
  set_nx_px-entry v ttl s j = ground arith

  pub pexpire-entry :
      (ttl : ℕ) (s : Table) (j : String)
      → (pexpire now k ttl s).1 j
        ≡ (if (k == j) && is_some (visible now (s k)) then retime (now + ttl) (s j) else s j)
  pexpire-entry ttl s j = ground (arith, eq_iff k j)

  pub incr-entry :
      (s : Table) (j : String) → (incr now k s).1 j ≡ (if k == j then counted now (s j) else s j)
  incr-entry s j = ground (arith, eq_iff k j)

abbrev pub memory : Redis
memory = record {
  State = Table;
  entry = λ s. s;
  get = λ now k s. visible now (s k);
  set_nx_px = set_nx_px;
  pexpire = pexpire;
  del = λ now k s. (is_some (visible now (s k)), update k none s);
  incr = incr;
  stored = text;
  shown = shown;
  set_ex = λ now k v seconds.
      update k (some (record { value = text v; deadline = some (now + seconds * 1000) }));
  shown-stored = λ v. refl;
  set_ex-entry = λ now k v seconds s j positive. refl;
  get_lem = λ now k s. refl;
  set_nx_px-result = λ now k v ttl s. refl;
  set_nx_px-entry = set_nx_px-entry;
  pexpire-result = λ now k ttl s. refl;
  pexpire-entry = pexpire-entry;
  del-result = λ now k s. refl;
  del-entry = λ now k s j. refl;
  incr-result = λ now k s. refl;
  incr-entry = incr-entry;
}

abbrev pub no_keys : Table
no_keys _ = none
