-- ===== src/Auth/Session/Tests.antt =====
-- Concrete runs of the sessions, with a digest that is the token itself.
use retainer.Prelude.{◌≡◌, refl, false, [], ◌∷◌}
use retainer.Schema.{Db, init}
use retainer.Schema.Table.{exists}
use retainer.Store.{Error, Result}
use retainer.Auth.Samples.{digest}
use retainer.Auth.Session.{insert_session, create_session, validate_session, delete_session}
use retainer.Auth.Session.Lifetime.{use_all, in_time, accepted, create-use_all, delete-validate}

abbrev one_session : Db
one_session =
    insert_session
      (record { token_hash = "t"; created_at = 1000; expires_at = 7776001000; last_used_at = 1000 })
      init

-- The second use comes within 90 days of the first, the third does not of the second.
create-use_all_example :
    accepted (use_all digest "t" (5000000000 ∷ 12000000000 ∷ 20000000000 ∷ []) one_session)
    ≡ in_time 1000 (5000000000 ∷ 12000000000 ∷ 20000000000 ∷ [])
unfolding create_session exists
create-use_all_example =
    create-use_all digest "t" 1000 (5000000000 ∷ 12000000000 ∷ 20000000000 ∷ []) init one_session
      ("t", 7776001000) refl

not_in_time : in_time 1000 (5000000000 ∷ 12000000000 ∷ 20000000000 ∷ []) ≡ false
unfolding in_time
not_in_time = refl

delete-validate_example :
    (db : Db) × (delete_session digest "t" one_session ≡ Result.ok (tt, db))
    × (validate_session digest "t" 2000 db ≡ Result.err Error.session_invalid)
delete-validate_example = delete-validate digest "t" "t" 2000 one_session refl
