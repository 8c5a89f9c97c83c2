-- ===== src/Auth/RateLimit/Backoff.antt =====
-- The lockout that failures lead to.
use Prim.Native.Nat.{min}
use native.Mathlib.Nat.{pow-suc}
use retainer.Prelude.{
  ℕ, zero, suc, ◌+◌, ◌-◌, ◌*◌, ◌^◌, ◌≤◌, ◌<◌, ◌≡◌, refl, ap, ◌∙◌, sym, String, false, List, [], ◌∷◌,
  arith, length, leb, leb→le, lt→ltb, Bool-cases, inl, inr,
}
use retainer.Auth.RateLimit.{
  Bucket, IpState, LoginLimiter, store, state, allow, fail_once, record_failure, backoff,
  initial_lockout, max_lockout, failures_before_lockout,
}
use retainer.Auth.RateLimit.Entries.{state-store}

le_mul : (a q : ℕ) → 0 < q → a ≤ a * q
le_mul a zero p = omega arith
le_mul a (suc q) p = grind arith

pow-pos : (shift : ℕ) → 0 < 2 ^ shift
pow-pos zero = omega arith
pow-pos (suc shift) = let ih = pow-pos shift in let e = pow-suc 2 shift in omega arith

twice : (l shift : ℕ) → l * 2 ^ suc shift ≡ l * 2 * 2 ^ shift
twice l shift = ap (λ x. l * x) (pow-suc 2 shift) ∙ grind arith

-- The loop doubles up to the maximum.
backoff-eq-min :
    (shift l : ℕ) → 0 < l → l ≤ max_lockout → backoff shift l ≡ min (l * 2 ^ shift) max_lockout
unfolding backoff
backoff-eq-min zero l p h = omega arith
backoff-eq-min (suc shift) l p h =
    let ih = backoff-eq-min shift (l * 2) in
    elim (Bool-cases (leb max_lockout (l * 2))) [
      | inl e ↦
          let m : (l * 2 ≤ l * 2 * 2 ^ shift) = le_mul (l * 2) (2 ^ shift) (pow-pos shift) in
          let k : (max_lockout ≤ l * 2) = leb→le max_lockout (l * 2) e in
          rw (e, twice l shift) (omega arith)
      | inr e ↦ rw (e, twice l shift) (ih (omega arith) (ground arith))
    ]

module _ (b : Bucket) where
  -- The calls of `RecordFailure` for one address, one after another.
  unfoldable pub fail_all : String → List ℕ → LoginLimiter b → LoginLimiter b
  fail_all ip [] l = l
  fail_all ip (now ∷ later) l = fail_all ip later (record_failure b ip now l)

  failures-fail_once : (st : IpState b) (now : ℕ) → (fail_once b st now).failures ≡ st.failures + 1
  unfolding fail_once
  failures-fail_once st now = ground arith

  state-record_failure :
      (ip : String) (now : ℕ) (l : LoginLimiter b)
      → state b ip (record_failure b ip now l) ≡ fail_once b (state b ip l) now
  unfolding record_failure
  state-record_failure ip now l = state-store b ip (fail_once b (state b ip l) now) l

  failures-fail_all :
      (ip : String) (times : List ℕ) (l : LoginLimiter b)
      → (state b ip (fail_all ip times l)).failures ≡ (state b ip l).failures + length times
  unfolding fail_all
  failures-fail_all ip [] l = omega arith
  failures-fail_all ip (now ∷ later) l =
      let ih = failures-fail_all ip later (record_failure b ip now l) in
      let e = failures-fail_once (state b ip l) now in
      rw (ih, state-record_failure ip now l, e) (omega arith)

  locked_until-fail_once :
      (st : IpState b) (now : ℕ)
      → failures_before_lockout ≤ st.failures + 1
      → (fail_once b st now).locked_until
        ≡ now + min (initial_lockout * 2 ^ (st.failures + 1 - failures_before_lockout)) max_lockout
  unfolding fail_once
  locked_until-fail_once st now many =
      rw
        (sym (
          backoff-eq-min (st.failures + 1 - failures_before_lockout) initial_lockout (omega arith)
            (omega arith)))
        (ground arith)

  allow-locked :
      (ip : String) (now : ℕ) (l : LoginLimiter b)
      → now < (state b ip l).locked_until
      → (r : LoginLimiter b) × (allow b ip now l ≡ (false, (state b ip l).locked_until - now, r))
  unfolding allow
  allow-locked ip now l h =
      rw (lt→ltb now (state b ip l).locked_until h) (store b ip (state b ip l) l, refl)

  -- An address fails at the given times and then at `now`, from an entry that has counted nothing:
  -- where that makes n failures, n at least five, `allow` refuses it until
  -- the smaller of 30 seconds times 2 ^ (n - 5) and 30 minutes has passed since `now`, and
  -- tells it to wait for just what is left of that.
  pub allow-locked_out :
      (ip : String) (times : List ℕ) (now later : ℕ) (l : LoginLimiter b)
      → (state b ip l).failures ≡ 0
      → failures_before_lockout ≤ length times + 1
      → later
        < now + min (initial_lockout * 2 ^ (length times + 1 - failures_before_lockout)) max_lockout
      → (r : LoginLimiter b) × (allow b ip later (record_failure b ip now (fail_all ip times l)) ≡ (
        false,
        now
            + min (initial_lockout * 2 ^ (length times + 1 - failures_before_lockout)) max_lockout
            - later,
        r,
      ))
  unfolding fail_all state
  allow-locked_out ip times now later l z many early =
      let f : ((state b ip (fail_all ip times l)).failures ≡ length times) =
        (failures-fail_all ip times l ∙ omega (arith, z)) in
      let e = ap (λ st. st.locked_until) (state-record_failure ip now (fail_all ip times l)) in
      let u = locked_until-fail_once (state b ip (fail_all ip times l)) now (rw f many) in
      let until = e ∙ rw f at u in
      rw until at
        (allow-locked ip later (record_failure b ip now (fail_all ip times l)) (rw until early))
