-- ===== src/Rsa.antt =====
-- `RsaKey::decrypt` of src/crypto/rsa.cpp. The key of OpenSSL is a parameter: its size in bytes, and what
-- `RSA_private_decrypt` makes of that many bytes, or none if it fails.
use tibia_login_orig.Base.{ℕ, not, Option, none, some, List, length, ◌==◌, if◌then◌else◌}

pub record Rsa : Type 0 where
  pub rsa_size : ℕ
  pub private_decrypt : List ℕ → Option (List ℕ)

-- The bytes after the call; `none` is the result false. A key without a handle has no `Rsa`.
unfoldable pub decrypt : Option Rsa → List ℕ → Option (List ℕ)
decrypt none bytes = none
decrypt (some rsa) bytes =
    if not (length bytes == rsa.rsa_size) then none else rsa.private_decrypt bytes
