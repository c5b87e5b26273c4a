-- ===== src/Redis/Decorator.antt =====
-- src/core/redis/decorators/with-lock.decorator.ts: the reference to the lock service that the module
-- sets and clears, and the method that `@WithLock` puts in place of the decorated one.
use nest_fastify_boilerplate.Prelude.{
  ℕ, String, ◌≡◌, refl, Bool, true, false, Option, none, some, List, [], ◌∷◌, eqb, ◌==◌, ◌&&◌,
  is_none, is_some, arith, eq_iff, if◌then◌else◌,
}
use nest_fastify_boilerplate.Effects.{Outcome, Exec, returned, thrown, error, throw}
use nest_fastify_boilerplate.Redis.Port.{Redis}
use nest_fastify_boilerplate.Redis.Lock.{World, Turn, Waited, with_lock}
use nest_fastify_boilerplate.Redis.Lock.Arguments.{Millis, LockOptions, RetryOptions, TimeoutMode}

-- A service object is told apart by its identity.
abbrev pub ServiceRef : Type 0
ServiceRef = Option ℕ

unfoldable pub set_lock_service_ref : ℕ → ServiceRef → ServiceRef
set_lock_service_ref s ref = some s

abbrev clear : ℕ → ServiceRef → ServiceRef
clear s none = none
clear s (some r) = if eqb r s then none else some r

unfoldable pub clear_lock_service_ref : ℕ → ServiceRef → ServiceRef
clear_lock_service_ref s ref = clear s ref

-- An application that shuts down leaves alone the reference that another one has set since; its own
-- it takes away.
pub clear-set :
    (a b : ℕ) (ref : ServiceRef)
    → clear_lock_service_ref a (set_lock_service_ref b ref)
      ≡ (if eqb b a then none else set_lock_service_ref b ref)
unfolding clear_lock_service_ref set_lock_service_ref
clear-set a b ref = refl

pub record WithLockMetadata (Args : Type 0) : Type 0 where
  pub key : Args → String
  pub ttl_ms : Millis
  pub retry : Option RetryOptions
  pub auto_renew : Bool
  pub on_timeout : Option TimeoutMode

module _ (R : Redis) (random_token : ℕ → String) (turns : List (Turn R.State)) {A : Type 0} where
  -- `RedisLockService.prototype.withLock` as a function with its `this`: its first step is
  -- `this.acquire`, which throws where there is no `this`.
  unfoldable pub with_lock_method :
      Option ℕ
      → String
      → Millis
      → Exec (World R.State) A
      → Option LockOptions
      → Exec (World R.State) (Waited (Option A))
  with_lock_method none key ttl fn opts =
      throw (error "Cannot read properties of undefined (reading 'acquire')")
  with_lock_method (some service) key ttl fn opts =
      with_lock R random_token turns (λ lock. fn) key ttl opts

  -- `const withLock = getLockServiceRef().withLock; return withLock(…)`: the method is taken off its
  -- object, and is called with no `this`.
  abbrev call_unbound :
      ServiceRef
      → String
      → Millis
      → Exec (World R.State) A
      → Option LockOptions
      → Exec (World R.State) (Waited (Option A))
  call_unbound none key ttl fn opts =
      throw
        (error "LockService chưa được bootstrap — RedisModule phải nạp trước khi dùng @WithLock.")
  call_unbound (some service) key ttl fn opts = with_lock_method none key ttl fn opts

  -- The wrapper.
  unfoldable pub with_lock_wrapper :
      {Args : Type 0}
      → WithLockMetadata Args
      → ServiceRef
      → (Args → Exec (World R.State) A)
      → Args
      → Exec (World R.State) (Waited (Option A))
  with_lock_wrapper meta ref original args =
      call_unbound ref (meta.key args) meta.ttl_ms (original args) (
        some (record {
          retry = meta.retry;
          auto_renew = meta.auto_renew;
          fencing = false;
          on_timeout = meta.on_timeout;
        }))

-- The metadata that `reflect-metadata` keeps of a function, by key.
abbrev pub Metadata : Type 0 → Type 0
Metadata V = List (String × V)

module _ {V : Type 0} where
  unfoldable pub get_metadata : String → Metadata V → Option V
  get_metadata k [] = none
  get_metadata k ((j, v) ∷ m) = if j == k then some v else get_metadata k m

  -- `Reflect.defineMetadata`
  unfoldable pub define_metadata : String → V → Metadata V → Metadata V
  define_metadata k v [] = (k, v) ∷ []
  define_metadata k v ((j, w) ∷ m) = if j == k then (k, v) ∷ m else (j, w) ∷ define_metadata k v m

  -- The loop over the keys of the original, of whose keys each comes once.
  unfoldable pub copy_metadata : Metadata V → Metadata V → Metadata V
  unfolding define_metadata
  copy_metadata [] wrapper = wrapper
  copy_metadata ((k, v) ∷ original) wrapper = copy_metadata original (define_metadata k v wrapper)

  abbrev keys_differ : Metadata V → Bool
  keys_differ [] = true
  keys_differ ((k, v) ∷ m) = is_none (get_metadata k m) && keys_differ m

  get-define :
      (k j : String) (v : V) (m : Metadata V)
      → get_metadata j (define_metadata k v m) ≡ (if k == j then some v else get_metadata j m)
  unfolding get_metadata define_metadata
  get-define k j v [] = refl
  get-define k j v ((i, w) ∷ m) =
      ground (arith, eq_iff i k, eq_iff i j, eq_iff k j, get-define k j v m)

  -- The wrapper has each metadata of the original, and else its own.
  pub get-copy :
      (j : String) (original wrapper : Metadata V)
      → keys_differ original ≡ true
      → get_metadata j (copy_metadata original wrapper) ≡ (
          if is_some (get_metadata j original)
          then get_metadata j original
          else get_metadata j wrapper)
  unfolding get_metadata copy_metadata
  get-copy j [] wrapper h = refl
  get-copy j ((k, v) ∷ original) wrapper h = ground (
    arith,
    h,
    eq_iff k j,
    get-define k j v wrapper,
    get-copy j original (define_metadata k v wrapper),
  )

abbrev pub is_thrown {ℓ} : {A : Type ℓ} → Outcome A → Bool
is_thrown (returned a) = false
is_thrown (thrown e) = true

-- A method under `@WithLock` always throws, whether or not the service is set: it takes no lock, and
-- the method itself is never run, for the state stays what it was.
pub with_lock_wrapper_throws :
    (R : Redis) (random_token : ℕ → String) (turns : List (Turn R.State)) {A Args : Type 0}
    (meta : WithLockMetadata Args) (ref : ServiceRef) (original : Args → Exec (World R.State) A)
    (args : Args) (w : World R.State)
    → (is_thrown (with_lock_wrapper R random_token turns meta ref original args w).0 ≡ true)
      × ((with_lock_wrapper R random_token turns meta ref original args w).1 ≡ w)
unfolding with_lock_wrapper with_lock_method
with_lock_wrapper_throws R random_token turns meta none original args w = (refl, refl)
with_lock_wrapper_throws R random_token turns meta (some s) original args w = (refl, refl)
