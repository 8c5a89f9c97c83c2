-- ===== src/Auth/Setup/Tests.antt =====
-- A password that is set from two lines, and a witness.
use retainer.Prelude.{◌≡◌, refl, some, [], ◌∷◌}
use retainer.Prelude.Text.{codes, text_eq, compare_text}
use retainer.Schema.{init}
use retainer.Schema.Table.{exists}
use retainer.Labels.{trim_left, trim_right}
use retainer.Search.{is_space}
use retainer.Auth.Samples.{flat, shifted}
use retainer.Auth.Password.{hash_password}
use retainer.Auth.Setup.{
  Exit, run_set_password, read_password, read_line, trim_newline, set_password, upsert,
}
use retainer.Auth.Setup.Stored.{Ended, run_set_password-Ended}

set_twice :
    (run_set_password flat shifted (some (1 ∷ 2 ∷ [])) (codes "horse\r\nhorse\n") init).0
    ≡ Exit.password_set
unfolding run_set_password read_password read_line trim_newline text_eq compare_text trim_left
    trim_right is_space set_password hash_password upsert exists
set_twice = refl

run_set_password-Ended_example :
    Ended flat shifted
      (some (1 ∷ 2 ∷ []))
      (codes "horse\r\nhorse\n")
      init
      (run_set_password flat shifted (some (1 ∷ 2 ∷ [])) (codes "horse\r\nhorse\n") init)
run_set_password-Ended_example =
    run_set_password-Ended flat shifted (some (1 ∷ 2 ∷ [])) (codes "horse\r\nhorse\n") init
