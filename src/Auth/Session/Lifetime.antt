-- ===== src/Auth/Session/Lifetime.antt =====
-- How long a token is accepted.
use text.Mathlib.TextPositions.{eq_refl}
use retainer.Prelude.{
  ℕ, ◌+◌, ◌≡◌, ◌≤◌, ◌<◌, refl, sym, subst, ap, ◌∙◌, String, Bool, true, false, none, some, List, [],
  ◌∷◌, arith, ltb, leb, if◌then◌else◌, Bool-cases, inl, inr, leb→le, lt→ltb,
}
use retainer.Schema.{Db, SessionRow}
use retainer.Schema.Table.{
  select, find, update, delete, exists, find-append, find-update, find-test, exists-find,
}
use retainer.Store.{Error, Result, Tx, continue}
use retainer.Auth.Session.{
  session_ttl, token_is, insert_session, touch_session, create_session, validate_found,
  validate_session, delete_session,
}

module _ {A : Type 0} where
  pub find-delete : (p : A → Bool) (rows : List A) → find p (delete p rows) ≡ none
  unfolding delete select find
  find-delete p [] = refl
  find-delete p (r ∷ rows) = ground (arith, find-delete p rows)

  ok-eq : {a b : A} → Result.ok a ≡ Result.ok b → a ≡ b
  ok-eq h = cc

not_before : (a b : ℕ) → b ≤ a → ltb a b ≡ false
not_before a b h = ground arith

late : (a b : ℕ) → leb a b ≡ false → b < a
late a b h = ground arith

-- No gap between the uses is longer than the sessions' lifetime.
unfoldable pub in_time : ℕ → List ℕ → Bool
in_time last [] = true
in_time last (now ∷ later) =
    let rest = in_time now later in if leb now (last + session_ttl) then rest else false

unfoldable pub accepted {ℓ} : {A : Type ℓ} → Result A → Bool
accepted (Result.ok a) = true
accepted (Result.err e) = false

module _ (hash_token : String → String) where
  -- The requests that carry a token, one after another, until one is refused
  unfoldable pub use_all : String → List ℕ → Tx (Unit {0})
  use_all token [] db = Result.ok (tt, db)
  use_all token (now ∷ later) db =
      continue (validate_session hash_token token now db) (λ u. use_all token later)

  -- The table has a row with the token's digest, and it expires at the given time.
  pub Expires : String → ℕ → Db → Type 0
  Expires token t db =
      (s : SessionRow) × (find (token_is (hash_token token)) db.sessions ≡ some s)
      × (s.expires_at ≡ t)

  insert-Expires :
      (token : String) (db : Db) (s : SessionRow)
      → s.token_hash ≡ hash_token token
      → exists (token_is (hash_token token)) db.sessions ≡ false
      → Expires token s.expires_at (insert_session s db)
  unfolding Expires
  insert-Expires token db s h none_yet = (
    s,
    find-append (token_is (hash_token token)) db.sessions s
        ∙ rw
            (
              exists-find (token_is (hash_token token)) db.sessions none_yet,
              h,
              eq_refl (hash_token token),
            )
            refl,
    refl,
  )

  pub create-Expires :
      (token : String) (now : ℕ) (db db' : Db) (r : String × ℕ)
      → create_session hash_token (some token) now db ≡ Result.ok (r, db')
      → Expires token (now + session_ttl) db'
  unfolding create_session
  create-Expires token now db db' r h =
      elim (Bool-cases (exists (token_is (hash_token token)) db.sessions)) [
        | inl e ↦ let refused = rw e at h in cc
        | inr e ↦
            subst (Expires token (now + session_ttl)) (ap (λ x. x.1) (ok-eq (rw e at h)))
              (insert-Expires token db _ refl e)
      ]

  pub validate-Expires :
      (token : String) (now t : ℕ) (db : Db)
      → Expires token t db
      → now ≤ t
      → (db' : Db) × (validate_session hash_token token now db ≡ Result.ok (tt, db'))
        × Expires token (now + session_ttl) db'
  unfolding validate_session validate_found Expires
  validate-Expires token now t db (s, f, e) h = (
    record db { sessions = update (token_is (hash_token token)) (touch_session now) db.sessions },
    rw (f, not_before s.expires_at now (subst (λ x. now ≤ x) (sym e) h)) refl,
    (
      touch_session now s,
      find-update (token_is (hash_token token)) (token_is (hash_token token)) (touch_session now)
            db.sessions (λ r. refl)
          ∙ rw (f, find-test (token_is (hash_token token)) db.sessions s f) refl,
      refl,
    ),
  )

  validate_late :
      (token : String) (now t : ℕ) (db : Db)
      → Expires token t db
      → t < now
      → validate_session hash_token token now db ≡ Result.err Error.session_invalid
  unfolding validate_session validate_found Expires
  validate_late token now t db (s, f, e) h =
      rw (f, lt→ltb s.expires_at now (subst (λ x. x < now) (sym e) h)) refl

  use_all-in_time :
      (token : String) (times : List ℕ) (last : ℕ) (db : Db)
      → Expires token (last + session_ttl) db
      → accepted (use_all token times db) ≡ in_time last times
  unfolding use_all accepted in_time
  use_all-in_time token [] last db e = refl
  use_all-in_time token (now ∷ later) last db e = elim (Bool-cases (leb now (last + session_ttl))) [
    | inl b ↦
        let v =
          validate-Expires token now (last + session_ttl) db e
            (leb→le now (last + session_ttl) b) in
        rw (v.1, b) (use_all-in_time token later now v.0 v.2)
    | inr b ↦
        rw (validate_late token now (last + session_ttl) db e (late now (last + session_ttl) b), b)
          refl
  ]

  -- A session is created, and the requests at the given times carry its token: all of them are accepted
  -- if none comes later than 90 days after the one before it (the first, after the creation),
  -- and otherwise one of them is refused.
  pub create-use_all :
      (token : String) (created : ℕ) (times : List ℕ) (db db' : Db) (r : String × ℕ)
      → create_session hash_token (some token) created db ≡ Result.ok (r, db')
      → accepted (use_all token times db') ≡ in_time created times
  create-use_all token created times db db' r h =
      use_all-in_time token times created db' (create-Expires token created db db' r h)

  -- After a logout no token with the same digest is accepted, at any time.
  pub delete-validate :
      (token other : String) (now : ℕ) (db : Db)
      → hash_token other ≡ hash_token token
      → (db' : Db) × (delete_session hash_token token db ≡ Result.ok (tt, db'))
        × (validate_session hash_token other now db' ≡ Result.err Error.session_invalid)
  unfolding delete_session validate_session validate_found
  delete-validate token other now db same = (
    record db { sessions = delete (token_is (hash_token token)) db.sessions },
    refl,
    rw (same, find-delete (token_is (hash_token token)) db.sessions) refl,
  )
