-- ===== src/Auth/Password/Tests.antt =====
-- Hashes with concrete stand-ins for the key derivation and the encoding, and a witness.
use retainer.Prelude.{◌≡◌, true, some, [], ◌∷◌}
use retainer.Prelude.Text.{Text, codes, text_eq}
use retainer.Auth.Samples.{flat, shifted}
use retainer.Auth.Password.{hash_password, verify_password}
use retainer.Auth.Password.Verify.{key, verify-hash}

verify-hash_example :
    (encoded : Text) × (hash_password flat shifted (codes "horse") (some (1 ∷ 2 ∷ []))
      ≡ some encoded)
    × (verify_password flat shifted (codes "cow") encoded
        ≡ some
            (text_eq (key flat (codes "cow") (1 ∷ 2 ∷ [])) (key flat (codes "horse") (1 ∷ 2 ∷ []))))
    × (verify_password flat shifted (codes "horse") encoded ≡ some true)
verify-hash_example = verify-hash flat shifted (codes "horse") (codes "cow") (1 ∷ 2 ∷ [])
