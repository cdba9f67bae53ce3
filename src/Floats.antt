-- ===== src/Floats.antt =====
-- The `f64` arithmetic that core/src/qr.rs and harness/src/main.rs use, and the `f32` one of core/src/wasm.rs.
use rabaska.Prelude.{ℕ, ◌≡◌, Bool, true, false}

-- The numbers with NaN among them: a comparison with it is false, so `lt` is irreflexive and transitive.
pub record Floats : Type 1 where
  pub F : Type 0
  pub of_nat : ℕ → F
  pub add : F → F → F
  pub mul : F → F → F
  pub div : F → F → F
  -- Without the fraction; a number below 0 and NaN give 0.
  pub trunc : F → ℕ
  -- `f64::MAX`
  pub max_value : F
  pub lt : F → F → Bool
  pub lt_irrefl : (a : F) → lt a a ≡ false
  pub lt_trans : (a b c : F) → lt a b ≡ true → lt b c ≡ true → lt a c ≡ true
