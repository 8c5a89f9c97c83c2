-- ===== src/Auth/Login/Tests.antt =====
-- A login with the right password, and a witness.
use retainer.Prelude.{◌+◌, ◌*◌, some, []}
use retainer.Prelude.Text.{codes}
use retainer.Auth.Samples.{drops, flat, shifted, digest, configured}
use retainer.Auth.RateLimit.{second}
use retainer.Auth.Login.{Response, Server, epoch, handle_login}
use retainer.Auth.Login.Accepted.{Accepted}

abbrev answered_login : Response × Server drops
answered_login =
    handle_login drops flat shifted digest "10.0.0.1" (some "t") (epoch + 5 * second)
      (some (codes "horse")) ([], configured)
