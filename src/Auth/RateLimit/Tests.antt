-- ===== src/Auth/RateLimit/Tests.antt =====
-- Concrete runs of the login limiter.
use retainer.Prelude.{◌*◌, ◌≡◌, refl, true, false, [], ◌∷◌, arith}
use retainer.Auth.Samples.{drops}
use retainer.Auth.RateLimit.{
  LoginLimiter, new_state, lookup, store, state, allow, fail_once, record_failure, record_success,
  backoff, second, initial_lockout,
}
use retainer.Auth.RateLimit.Backoff.{fail_all, allow-locked_out}
use retainer.Auth.RateLimit.Entries.{record-Separate}

-- Six failures at time 0: a minute's lockout.
allow-locked_out_example :
    (r : LoginLimiter drops) × (allow drops "10.0.0.1"
        (59 * second)
        (record_failure drops "10.0.0.1" 0 (fail_all drops "10.0.0.1" (0 ∷ 0 ∷ 0 ∷ 0 ∷ 0 ∷ []) []))
      ≡ (false, second, r))
unfolding state lookup new_state
allow-locked_out_example =
    allow-locked_out drops "10.0.0.1" (0 ∷ 0 ∷ 0 ∷ 0 ∷ 0 ∷ []) 0 (59 * second) [] refl (omega arith)
      (omega arith)

-- The five failures before leave half a minute.
lockout_over :
    (r : LoginLimiter drops) × (allow drops "10.0.0.1"
        (30 * second)
        (fail_all drops "10.0.0.1" (0 ∷ 0 ∷ 0 ∷ 0 ∷ 0 ∷ []) [])
      ≡ (true, 0, r))
unfolding state lookup new_state store fail_all record_failure fail_once backoff allow
lockout_over = (_, refl)

abbrev locked_one : LoginLimiter drops
locked_one = ("10.0.0.1", record { limiter = 5; failures = 5; locked_until = initial_lockout }) ∷ []

record-Separate_example :
    (state drops "10.0.0.2" (allow drops "10.0.0.1" 0 locked_one).2
      ≡ state drops "10.0.0.2" locked_one)
    × (state drops "10.0.0.2" (record_failure drops "10.0.0.1" 0 locked_one)
        ≡ state drops "10.0.0.2" locked_one)
    × (state drops "10.0.0.2" (record_success drops "10.0.0.1" locked_one)
        ≡ state drops "10.0.0.2" locked_one)
    × (state drops "10.0.0.1" (record_success drops "10.0.0.1" locked_one) ≡ new_state drops)
record-Separate_example = record-Separate drops "10.0.0.1" "10.0.0.2" 0 locked_one refl
