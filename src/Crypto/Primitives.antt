-- ===== src/Crypto/Primitives.antt =====
-- The crates that core/src/crypto.rs calls: x25519-dalek, hkdf, sha2 and chacha20poly1305.
use rabaska.Prelude.{◌≡◌, Option, some}
use rabaska.Prelude.Bytes.{Bytes, IsArray}

pub record Primitives : Type 0 where
  -- `PublicKey::from(&secret).to_bytes()` and `secret.diffie_hellman(&peer).to_bytes()`
  pub public_key : Bytes → Bytes
  pub diffie_hellman : Bytes → Bytes → Bytes
  -- HKDF-SHA256 of key material, salt and info, expanded to 32 bytes
  pub hkdf : Bytes → Bytes → Bytes → Bytes
  pub sha256 : Bytes → Bytes
  -- XChaCha20-Poly1305 under key, nonce and associated data; `none` is a tag that fails
  pub aead_encrypt : Bytes → Bytes → Bytes → Bytes → Bytes
  pub aead_decrypt : Bytes → Bytes → Bytes → Bytes → Option Bytes
  -- Two parties compute the same shared secret.
  pub diffie_hellman_comm :
      (a b : Bytes) → diffie_hellman a (public_key b) ≡ diffie_hellman b (public_key a)
  pub sha256-IsArray : (m : Bytes) → IsArray 32 (sha256 m)
  -- The holder of the key opens what was sealed.
  pub decrypt-encrypt :
      (key nonce aad m : Bytes) → aead_decrypt key nonce aad (aead_encrypt key nonce aad m) ≡ some m
