-- ===== src/Redis/Lock/Arguments.antt =====
-- `LockOptions` of src/core/redis/ports/lock.service.port.ts, and `validateLockArgs` of
-- src/core/redis/services/lock.service.ts.
use nest_fastify_boilerplate.Prelude.{
  ℕ, ◌≤◌, ◌<◌, ◌≡◌, ◌↔◌, Bool, true, false, Option, none, some, ltb, or_else, ◌&&◌, if◌then◌else◌,
  arith,
}

-- A JavaScript number of milliseconds: `whole n` is n, `negative n` is below 0, and NaN and the
-- infinities are one. Fractions are left out.
pub data Millis : Type 0 where
  whole negative : ℕ → Millis
  not_finite : Millis

pub data TimeoutMode : Type 0 where
  throw_error return_undefined : TimeoutMode

pub record RetryOptions : Type 0 where
  pub wait_ms : Millis
  pub min_delay_ms : Option Millis
  pub max_delay_ms : Option Millis

-- `auto_renew` and `fencing` are false where the caller leaves them out.
pub record LockOptions : Type 0 where
  pub retry : Option RetryOptions
  pub auto_renew : Bool
  pub fencing : Bool
  pub on_timeout : Option TimeoutMode

pub data ArgumentError : Type 0 where
  bad_ttl bad_wait bad_min_delay bad_max_delay ttl_too_short : ArgumentError

-- The value of a validated number.
abbrev pub milliseconds : Millis → ℕ
milliseconds (whole n) = n
milliseconds _ = 0

abbrev pub min_delay : RetryOptions → Millis
min_delay o = or_else o.min_delay_ms (whole 50)

abbrev pub max_delay : RetryOptions → Millis
max_delay o = or_else o.max_delay_ms (whole 400)

-- `Number.isFinite(n) && n > 0`, and with `>= 0`
abbrev is_positive : Millis → Bool
is_positive (whole n) = ltb 0 n
is_positive _ = false

abbrev is_natural : Millis → Bool
is_natural (whole n) = true
is_natural _ = false

-- `Number.isFinite(max) && max >= min`, for a positive `min`
abbrev is_at_least : Millis → Millis → Bool
is_at_least (whole a) min = if ltb a (milliseconds min) then false else true
is_at_least _ min = false

abbrev retry_error : Option RetryOptions → Option ArgumentError
retry_error none = none
retry_error (some o) =
    if is_natural o.wait_ms
    then (if is_positive (min_delay o)
        then (if is_at_least (max_delay o) (min_delay o) then none else some bad_max_delay)
        else some bad_min_delay)
    else some bad_wait

abbrev renewal_error : ℕ → Bool → Option ArgumentError
renewal_error ttl auto_renew = if auto_renew && ltb ttl 3000 then some ttl_too_short else none

abbrev first_error : Option ArgumentError → Option ArgumentError → Option ArgumentError
first_error none e = e
first_error (some e) _ = some e

abbrev options_error : ℕ → Option LockOptions → Option ArgumentError
options_error ttl none = none
options_error ttl (some o) = first_error (retry_error o.retry) (renewal_error ttl o.auto_renew)

-- `none` where the arguments pass.
unfoldable pub validate_lock_args : Millis → Option LockOptions → Option ArgumentError
validate_lock_args ttl opts =
    if is_positive ttl then options_error (milliseconds ttl) opts else some bad_ttl

abbrev RetryIsValid : Option RetryOptions → Type 0
RetryIsValid none = Unit
RetryIsValid (some o) =
    (0 < milliseconds (min_delay o))
    × (milliseconds (min_delay o) ≤ milliseconds (max_delay o))
    × (o.wait_ms ≡ whole (milliseconds o.wait_ms))

abbrev OptionsAreValid : ℕ → Option LockOptions → Type 0
OptionsAreValid ttl none = Unit
OptionsAreValid ttl (some o) = RetryIsValid o.retry × (o.auto_renew ≡ true → 3000 ≤ ttl)

-- What the rest of the service may rely on.
abbrev pub AreValid : Millis → Option LockOptions → Type 0
AreValid ttl opts = (0 < milliseconds ttl) × OptionsAreValid (milliseconds ttl) opts

-- The arguments pass exactly if the time to live is positive, of at least 3000 ms with auto-renewal,
-- the wait is a whole number, and 0 < min <= max holds of the retry delays, defaults included.
pub validate_lock_args_lem :
    (ttl : Millis) (opts : Option LockOptions)
    → (validate_lock_args ttl opts ≡ none) ↔ AreValid ttl opts
unfolding validate_lock_args
validate_lock_args_lem ttl opts = (λ h. ground arith, λ h. ground arith)
