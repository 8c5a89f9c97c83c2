-- ===== src/Auth/Samples.antt =====
-- Concrete functions in place of the libraries and of the standard library's digests, for the tests.
use retainer.Prelude.{
  ℕ, ◌+◌, ◌-◌, ◌≡◌, refl, ap, String, false, some, [], ◌∷◌, ◌++◌, length, replicate,
  length-replicate, map, All, ltb, ◌==◌, arith,
}
use retainer.Prelude.Text.{Text, codes}
use retainer.Schema.{Db, init}
use retainer.Auth.RateLimit.{Bucket}
use retainer.Auth.Password.{Argon2, Base64, dollar}

-- A bucket that never refills
abbrev pub drops : Bucket
drops = record { State = ℕ; new_limiter = λ n. n; allow_one = λ n now. (ltb 0 n, n - 1) }

-- A key that repeats the password's length
abbrev pub flat : Argon2
flat = record {
  id_key = λ password salt t m p n. replicate n (length password);
  length-id_key = λ password salt t m p n. length-replicate n (length password);
}

pub shifted_back : (s : Text) → map (λ c. c - 37) (map (λ c. c + 37) s) ≡ s
shifted_back [] = refl
shifted_back (c ∷ s) = let e : c + 37 - 37 ≡ c = omega arith in rw (e, shifted_back s) refl

pub above_dollar : (s : Text) → All (λ c. (c == dollar) ≡ false) (map (λ c. c + 37) s)
above_dollar [] = tt
above_dollar (c ∷ s) = (ground arith, above_dollar s)

abbrev pub shifted : Base64
shifted = record {
  encode = λ s. map (λ c. c + 37) s;
  decode = λ s. some (map (λ c. c - 37) s);
  decode-encode = λ s. ap some (shifted_back s);
  no_dollar = above_dollar;
}

-- The token as its own digest
abbrev pub digest : String → String
digest token = token

-- What HashPassword makes of "horse" under the salt 1, 2
abbrev pub stored : Text
stored =
    codes "argon2id$3$65536$2$" ++ ((38 ∷ 39 ∷ []) ++ (dollar ∷ map (λ c. c + 37) (replicate 32 5)))

abbrev pub configured : Db
configured = record init { config = ("password_hash", stored) ∷ [] }
