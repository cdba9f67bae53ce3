-- ===== src/Qr/Encoder.antt =====
-- The crate that core/src/qr.rs calls: qrcodegen.
use rabaska.Prelude.{ℕ, ◌≡◌, ◌≤◌, Bool, true, Option}
use rabaska.Prelude.Bytes.{Bytes}

-- `Ecc`
pub data Ecc : Type 0 where
  low medium quartile high : Ecc

-- A code as `QrCode` has it: its modules per side, and whether a module is dark.
pub record QrCode : Type 0 where
  pub size : ℕ
  pub get_module : ℕ → ℕ → Bool

pub record QrEncoder : Type 0 where
  -- Whether `encode_segments_advanced` takes one byte segment of a length at one version and level.
  pub encodes : ℕ → ℕ → Ecc → Bool
  -- `encode_binary`; `none` is data too long for any version.
  pub encode_binary : Bytes → Ecc → Option QrCode
  -- What fits, fits with bytes left out, and an empty segment fits.
  pub encodes_mono :
      (len len' version : ℕ) (ecc : Ecc)
      → len ≤ len'
      → encodes len' version ecc ≡ true
      → encodes len version ecc ≡ true
  pub encodes_empty : (version : ℕ) (ecc : Ecc) → encodes 0 version ecc ≡ true
