-- ===== src/Auth/Password.antt =====
-- Password hashes: server/internal/authsvc/password.go. Argon2id and the base64 encoding are parameters.
pub mod Verify
mod Tests
use retainer.Prelude.{
  ℕ, ◌+◌, ◌-◌, ◌*◌, ◌%◌, ◌^◌, ◌≡◌, Bool, true, false, Option, none, some, List, [], ◌∷◌, ◌++◌,
  length, All, ltb, ◌==◌, if◌then◌else◌,
}
use retainer.Prelude.Text.{Text, codes, text_eq}
use retainer.Prelude.Int.{ℤ, pos, negsuc}
use retainer.Hlc.{◌>>=◌, skip_space, scan_number, scan_int}

-- `argon2.IDKey` of golang.org/x/crypto: a key of the length asked for, from the password, the
-- salt, the time, the memory and the threads.
pub record Argon2 : Type 0 where
  pub id_key : Text → Text → ℕ → ℕ → ℕ → ℕ → Text
  pub length-id_key :
      (password salt : Text) (t m p n : ℕ) → length (id_key password salt t m p n) ≡ n

abbrev pub dollar : ℕ
dollar = 36

-- `base64.RawStdEncoding`, whose alphabet has no dollar sign
pub record Base64 : Type 0 where
  pub encode : Text → Text
  pub decode : Text → Option Text
  pub decode-encode : (s : Text) → decode (encode s) ≡ some s
  pub no_dollar : (s : Text) → All (λ c. (c == dollar) ≡ false) (encode s)

unfoldable pub prepend : ℕ → List Text → List Text
prepend c [] = (c ∷ []) ∷ []
prepend c (w ∷ ws) = (c ∷ w) ∷ ws

-- `strings.Split(s, "$")`
unfoldable pub split : Text → List Text
unfolding prepend
split [] = [] ∷ []
split (c ∷ s) = let rest = split s in if c == dollar then [] ∷ rest else prepend c rest

-- `fmt.Sscanf(s, "%d", &time)` into a `uint32`
unfoldable pub scan_uint32 : Text → Option ℕ
scan_uint32 s = scan_number (skip_space s) >>= λ n. if ltb n (2 ^ 32) then some n else none

-- `uint8(threadsInt)`
unfoldable pub to_uint8 : ℤ → ℕ
to_uint8 (pos n) = n % 256
to_uint8 (negsuc n) = 255 - n % 256

abbrev pub argon_time : ℕ
argon_time = 3

abbrev pub argon_memory : ℕ
argon_memory = 64 * 1024

abbrev pub argon_threads : ℕ
argon_threads = 2

abbrev pub argon_key_len : ℕ
argon_key_len = 32

module _ (argon : Argon2) (base64 : Base64) where
  -- `HashPassword`, given the salt, or none where `rand.Read` fails
  unfoldable pub hash_password : Text → Option Text → Option Text
  hash_password password none = none
  hash_password password (some salt) = some (
      codes "argon2id$3$65536$2$"
      ++ (base64.encode salt
          ++ (dollar
              ∷ base64.encode (
                  argon.id_key password salt argon_time argon_memory argon_threads argon_key_len))))

  -- `VerifyPassword` on the parts of the encoded hash; its errors are `none`.
  unfoldable pub verify_parts : Text → List Text → Option Bool
  verify_parts password (tag ∷ t ∷ m ∷ p ∷ s ∷ k ∷ []) =
      if text_eq tag (codes "argon2id")
      then (do
        time ← scan_uint32 t
        memory ← scan_uint32 m
        threads ← scan_int p
        salt ← base64.decode s
        want ← base64.decode k
        some (
            text_eq
              (argon.id_key password salt time memory (to_uint8 threads) (length want % 2 ^ 32))
              want))
      else none
  verify_parts password _ = none

  unfoldable pub verify_password : Text → Text → Option Bool
  unfolding verify_parts
  verify_password password encoded = verify_parts password (split encoded)
