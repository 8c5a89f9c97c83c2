-- ===== src/Auth/RateLimit.antt =====
-- The login limiter: server/internal/authsvc/ratelimit.go. Times and durations are in nanoseconds,
-- times counted from Go's zero time, which is the `lockedUntil` of a new state.
pub mod Entries
pub mod Backoff
mod Tests
use retainer.Prelude.{
  ℕ, zero, suc, ◌+◌, ◌-◌, ◌*◌, ◌≡◌, String, Bool, true, false, Option, none, some, List, [], ◌∷◌,
  ltb, leb, str_eq, if◌then◌else◌,
}

abbrev pub second : ℕ
second = 1000000000

abbrev pub burst_size : ℕ
burst_size = 5

abbrev pub failures_before_lockout : ℕ
failures_before_lockout = 5

abbrev pub initial_lockout : ℕ
initial_lockout = 30 * second

abbrev pub max_lockout : ℕ
max_lockout = 30 * 60 * second

-- The token bucket of golang.org/x/time/rate: `rate.NewLimiter` at one request per second with
-- the burst, and `AllowN(now, 1)`.
pub record Bucket : Type 1 where
  pub State : Type 0
  pub new_limiter : ℕ → State
  pub allow_one : State → ℕ → Bool × State

-- The loop over the shift: `lockout` is doubled, and the loop breaks at the maximum.
pub backoff : ℕ → ℕ → ℕ
backoff zero lockout = lockout
backoff (suc shift) lockout =
    let rest = backoff shift (lockout * 2) in
    if leb max_lockout (lockout * 2) then max_lockout else rest

module _ (b : Bucket) where
  pub record IpState : Type 0 where
    pub limiter : b.State
    pub failures : ℕ
    pub locked_until : ℕ

  -- `byIP`
  abbrev pub LoginLimiter : Type 0
  LoginLimiter = List (String × IpState)

  -- `&ipState{limiter: rate.NewLimiter(…)}`
  unfoldable pub new_state : IpState
  new_state = record { limiter = b.new_limiter burst_size; failures = 0; locked_until = 0 }

  unfoldable pub lookup : String → LoginLimiter → Option IpState
  lookup ip [] = none
  lookup ip ((j, st) ∷ l) = if str_eq j ip then some st else lookup ip l

  -- The map entry, written through the pointer or first stored
  unfoldable pub store : String → IpState → LoginLimiter → LoginLimiter
  store ip st [] = (ip, st) ∷ []
  store ip st ((j, old) ∷ l) = if str_eq j ip then (ip, st) ∷ l else (j, old) ∷ store ip st l

  -- `delete(l.byIP, ip)`
  unfoldable pub remove : String → LoginLimiter → LoginLimiter
  remove ip [] = []
  remove ip ((j, st) ∷ l) = let rest = remove ip l in if str_eq j ip then rest else (j, st) ∷ rest

  -- `state`: the entry of an address, a new one where there is none
  unfoldable pub state : String → LoginLimiter → IpState
  unfolding lookup new_state
  state ip l = elim (lookup ip l) [ none ↦ new_state | some st ↦ st ]

  -- `Allow`: whether the attempt may proceed, how long to wait if not, and the limiter after.
  unfoldable pub allow : String → ℕ → LoginLimiter → Bool × ℕ × LoginLimiter
  allow ip now l =
      let st = state ip l in
      if ltb now st.locked_until
      then (false, st.locked_until - now, store ip st l)
      else (let (ok, limiter) = b.allow_one st.limiter now in
          let l' = store ip (record st { limiter = limiter }) l in
          if ok then (true, 0, l') else (false, second, l'))

  unfoldable pub fail_once : IpState → ℕ → IpState
  unfolding backoff
  fail_once st now =
      let failures = st.failures + 1 in
      if ltb failures failures_before_lockout
      then record st { failures = failures }
      else record st {
        failures = failures;
        locked_until = now + backoff (failures - failures_before_lockout) initial_lockout;
      }

  -- `RecordFailure`
  unfoldable pub record_failure : String → ℕ → LoginLimiter → LoginLimiter
  record_failure ip now l = store ip (fail_once (state ip l) now) l

  -- `RecordSuccess`
  unfoldable pub record_success : String → LoginLimiter → LoginLimiter
  record_success ip l = remove ip l
