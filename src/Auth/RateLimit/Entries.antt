-- ===== src/Auth/RateLimit/Entries.antt =====
-- The entries of the addresses.
use text.Mathlib.TextPositions.{eq_refl}
use retainer.Prelude.{
  ℕ, ◌≡◌, refl, sym, subst, String, false, none, some, [], ◌∷◌, ltb, str_eq, eq_iff, Bool-cases,
  inl, inr,
}
use retainer.Auth.RateLimit.{
  Bucket, IpState, LoginLimiter, new_state, lookup, store, remove, state, allow, fail_once,
  record_failure, record_success,
}

module _ (b : Bucket) where
  lookup-store :
      (ip : String) (st : IpState b) (l : LoginLimiter b) → lookup b ip (store b ip st l) ≡ some st
  unfolding lookup store
  lookup-store ip st [] = rw (eq_refl ip) refl
  lookup-store ip st ((j, old) ∷ l) =
      let ih = lookup-store ip st l in
      elim (Bool-cases (str_eq j ip)) [ inl e ↦ rw (e, eq_refl ip) refl | inr e ↦ rw (e, e) ih ]

  lookup-store_other :
      (ip other : String) (st : IpState b) (l : LoginLimiter b)
      → str_eq ip other ≡ false
      → lookup b other (store b ip st l) ≡ lookup b other l
  unfolding lookup store
  lookup-store_other ip other st [] h = rw h refl
  lookup-store_other ip other st ((j, old) ∷ l) h =
      let ih = lookup-store_other ip other st l h in
      elim (Bool-cases (str_eq j ip)) [
        | inl e ↦
            let o = subst (λ x. str_eq x other ≡ false) (sym ((eq_iff j ip).0 e)) h in
            rw (e, o, h) refl
        | inr e ↦ rw e (rw ih refl)
      ]

  lookup-remove : (ip : String) (l : LoginLimiter b) → lookup b ip (remove b ip l) ≡ none
  unfolding lookup remove
  lookup-remove ip [] = refl
  lookup-remove ip ((j, old) ∷ l) =
      let ih = lookup-remove ip l in
      elim (Bool-cases (str_eq j ip)) [ inl e ↦ rw e ih | inr e ↦ rw (e, e) ih ]

  pub state-store :
      (ip : String) (st : IpState b) (l : LoginLimiter b) → state b ip (store b ip st l) ≡ st
  unfolding state
  state-store ip st l = rw (lookup-store ip st l, state) refl

  state-store_other :
      (ip other : String) (st : IpState b) (l : LoginLimiter b)
      → str_eq ip other ≡ false
      → state b other (store b ip st l) ≡ state b other l
  unfolding state
  state-store_other ip other st l h = rw (lookup-store_other ip other st l h, state) refl

  lookup-remove_other :
      (ip other : String) (l : LoginLimiter b)
      → str_eq ip other ≡ false
      → lookup b other (remove b ip l) ≡ lookup b other l
  unfolding lookup remove
  lookup-remove_other ip other [] h = refl
  lookup-remove_other ip other ((j, old) ∷ l) h =
      let ih = lookup-remove_other ip other l h in
      elim (Bool-cases (str_eq j ip)) [
        | inl e ↦
            let o = subst (λ x. str_eq x other ≡ false) (sym ((eq_iff j ip).0 e)) h in rw (e, o) ih
        | inr e ↦ rw e (rw ih refl)
      ]

  state-remove : (ip : String) (l : LoginLimiter b) → state b ip (remove b ip l) ≡ new_state b
  unfolding state
  state-remove ip l = rw (lookup-remove ip l, state) refl

  state-remove_other :
      (ip other : String) (l : LoginLimiter b)
      → str_eq ip other ≡ false
      → state b other (remove b ip l) ≡ state b other l
  unfolding state
  state-remove_other ip other l h = rw (lookup-remove_other ip other l h, state) refl

  state-allow_other :
      (ip other : String) (now : ℕ) (l : LoginLimiter b)
      → str_eq ip other ≡ false
      → state b other (allow b ip now l).2 ≡ state b other l
  unfolding allow
  state-allow_other ip other now l h = elim (Bool-cases (ltb now (state b ip l).locked_until)) [
    | inl e ↦ rw e (state-store_other ip other (state b ip l) l h)
    | inr e ↦ elim (Bool-cases (b.allow_one (state b ip l).limiter now).0) [
      | inl k ↦ rw (e, k) (state-store_other ip other _ l h)
      | inr k ↦ rw (e, k) (state-store_other ip other _ l h)
    ]
  ]

  -- `allow`, `record_failure` and `record_success` for one address leave the entry of any other as it was,
  -- and after a success the entry of the address itself counts as a new one.
  pub record-Separate :
      (ip other : String) (now : ℕ) (l : LoginLimiter b)
      → str_eq ip other ≡ false
      → (state b other (allow b ip now l).2 ≡ state b other l)
        × (state b other (record_failure b ip now l) ≡ state b other l)
        × (state b other (record_success b ip l) ≡ state b other l)
        × (state b ip (record_success b ip l) ≡ new_state b)
  unfolding record_failure record_success
  record-Separate ip other now l h = (
    state-allow_other ip other now l h,
    state-store_other ip other (fail_once b (state b ip l) now) l h,
    state-remove_other ip other l h,
    state-remove ip l,
  )
