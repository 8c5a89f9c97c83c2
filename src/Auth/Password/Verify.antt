-- ===== src/Auth/Password/Verify.antt =====
-- A hash that HashPassword makes, read by VerifyPassword.
use retainer.Prelude.{
  ◌%◌, ◌^◌, ◌≡◌, refl, ap, ◌∙◌, true, false, some, [], ◌∷◌, ◌++◌, length, All, ◌==◌,
}
use retainer.Prelude.Text.{Text, codes, text_eq, compare_text, compare_text_refl}
use retainer.Hlc.{
  scan_number, skip_space, scan_digits, is_digit, is_space, scan_int, scan_sign, to_int64,
}
use retainer.Auth.Password.{
  Argon2, Base64, dollar, prepend, split, scan_uint32, to_uint8, argon_time, argon_memory,
  argon_threads, argon_key_len, hash_password, verify_parts, verify_password,
}

text_eq_refl : (s : Text) → text_eq s s ≡ true
unfolding text_eq
text_eq_refl s = rw (compare_text_refl s, text_eq) refl

-- The first part ends at the first dollar sign.
split-append :
    (w s : Text) → All (λ c. (c == dollar) ≡ false) w → split (w ++ (dollar ∷ s)) ≡ w ∷ split s
unfolding split prepend
split-append [] s h = refl
split-append (c ∷ w) s (e, h) = rw (e, split-append w s h) refl

split_last : (w : Text) → All (λ c. (c == dollar) ≡ false) w → split w ≡ w ∷ []
unfolding split prepend
split_last [] h = refl
split_last (c ∷ w) (e, h) = rw (e, split_last w h) refl

split-header :
    (s : Text)
    → split (codes "argon2id$3$65536$2$" ++ s)
      ≡ codes "argon2id" ∷ codes "3" ∷ codes "65536" ∷ codes "2" ∷ split s
unfolding split prepend
split-header s = refl

-- The key that HashPassword asks for
unfoldable pub key : Argon2 → Text → Text → Text
key argon password salt =
    argon.id_key password salt argon_time argon_memory argon_threads argon_key_len

module _ (argon : Argon2) (base64 : Base64) where
  split-hash :
      (salt k : Text)
      → split (codes "argon2id$3$65536$2$" ++ (base64.encode salt ++ (dollar ∷ base64.encode k)))
        ≡ codes "argon2id"
          ∷ codes "3"
          ∷ codes "65536"
          ∷ codes "2"
          ∷ base64.encode salt
          ∷ base64.encode k
          ∷ []
  split-hash salt k =
      split-header (base64.encode salt ++ (dollar ∷ base64.encode k))
      ∙ rw
          (
            split-append (base64.encode salt) (base64.encode k) (base64.no_dollar salt),
            split_last (base64.encode k) (base64.no_dollar k),
          )
          refl

  -- The numbers of the header are read as the parameters that they were printed from.
  verify-parts_of :
      (other salt k : Text)
      → verify_parts argon base64 other (
          codes "argon2id"
          ∷ codes "3"
          ∷ codes "65536"
          ∷ codes "2"
          ∷ base64.encode salt
          ∷ base64.encode k
          ∷ [])
        ≡ some (
            text_eq
              (argon.id_key other salt argon_time argon_memory argon_threads (length k % 2 ^ 32))
              k)
  unfolding verify_parts scan_uint32 scan_number skip_space scan_digits is_digit is_space scan_int
      scan_sign to_int64 to_uint8 text_eq compare_text
  verify-parts_of other salt k = rw (base64.decode-encode salt, base64.decode-encode k) refl

  -- HashPassword, where it has its random salt, makes a hash that VerifyPassword reads without an error: it accepts
  -- the passwords whose Argon2id key under that salt is the key of the one that was hashed, that one
  -- among them, and rejects all others.
  pub verify-hash :
      (password other salt : Text)
      → (encoded : Text) × (hash_password argon base64 password (some salt) ≡ some encoded)
        × (verify_password argon base64 other encoded
            ≡ some (text_eq (key argon other salt) (key argon password salt)))
        × (verify_password argon base64 password encoded ≡ some true)
  unfolding hash_password verify_password key
  verify-hash password other salt = (
    codes "argon2id$3$65536$2$"
        ++ (base64.encode salt ++ (dollar ∷ base64.encode (key argon password salt))),
    refl,
    read other,
    read password ∙ rw (text_eq_refl (key argon password salt)) refl,
  )
    where
      read :
          (other : Text)
          → verify_password argon base64 other (
              codes "argon2id$3$65536$2$"
              ++ (base64.encode salt ++ (dollar ∷ base64.encode (key argon password salt))))
            ≡ some (text_eq (key argon other salt) (key argon password salt))
      read other =
          ap (verify_parts argon base64 other) (split-hash salt (key argon password salt))
          ∙ verify-parts_of other salt (key argon password salt)
          ∙ ap
              (λ n. some (
                text_eq (argon.id_key other salt argon_time argon_memory argon_threads (n % 2 ^ 32))
                  (key argon password salt)))
              (argon.length-id_key password salt argon_time argon_memory argon_threads
                argon_key_len)
