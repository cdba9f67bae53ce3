-- ===== src/Qr/Render.antt =====
-- core/src/qr.rs: `Rendered` and `encode_luma`.
pub mod Regions
pub mod Pixels
use rabaska.Prelude.{
  ℕ, zero, suc, ◌+◌, ◌*◌, ◌-◌, ◌%◌, ◌^◌, ltb, Bool, true, false, if◌then◌else◌, List, [], ◌∷◌,
  Option, none, some, length, replicate,
}
use rabaska.Prelude.Bytes.{Bytes}
use rabaska.Error.{Result, ok, err, panic, truncated, ◌>>=◌}
use rabaska.Qr.Encoder.{Ecc, QrCode, QrEncoder}

pub record Rendered : Type 0 where
  pub luma : Bytes
  pub width : ℕ
  pub height : ℕ
  pub modules : ℕ

-- `for i in start..start + count { … }`
unfoldable pub for_range {ℓ} : {S : Type ℓ} → ℕ → (ℕ → S → Result S) → ℕ → S → Result S
for_range zero body start s = ok s
for_range (suc count) body start s = body start s >>= for_range count body (start + 1)

-- `luma[i] = v`
unfoldable pub set_at : ℕ → ℕ → Bytes → Result Bytes
set_at i v [] = panic
set_at zero v (b ∷ bs) = ok (v ∷ bs)
set_at (suc i) v (b ∷ bs) = set_at i v bs >>= λ rest. ok (b ∷ rest)

-- Arithmetic on `usize`, of `bits` bits, wraps. What is made of sums and products is reduced once: it is
-- the same as after each operation.
abbrev pub wrap_usize : ℕ → ℕ → ℕ
wrap_usize bits n = n % 2 ^ bits

-- `vec![255u8; len]`, which panics above `isize::MAX`
unfoldable pub white : ℕ → ℕ → Result Bytes
white bits len = if ltb len (2 ^ (bits - 1)) then ok (replicate len 255) else panic

-- The two inner loops. A range that ends before it starts is empty.
unfoldable pub paint_module : ℕ → ℕ → ℕ → ℕ → ℕ → Bytes → Result Bytes
paint_module bits side scale x0 y0 luma =
    for_range (wrap_usize bits (y0 + scale) - y0)
      (λ y.
        for_range (wrap_usize bits (x0 + scale) - x0)
          (λ x. set_at (wrap_usize bits (y * side + x)) 0) x0)
      y0 luma

-- The body of `for mx in 0..modules`.
unfoldable pub paint_if_dark : ℕ → QrCode → ℕ → ℕ → ℕ → ℕ → ℕ → Bytes → Result Bytes
unfolding paint_module
paint_if_dark bits code side scale quiet my mx luma =
    if code.get_module mx my
    then paint_module bits side scale (wrap_usize bits ((mx + quiet) * scale))
        (wrap_usize bits ((my + quiet) * scale)) luma
    else ok luma

unfoldable pub paint : ℕ → QrCode → ℕ → ℕ → ℕ → Bytes → Result Bytes
paint bits code side scale quiet luma =
    for_range code.size (λ my. for_range code.size (paint_if_dark bits code side scale quiet my) 0)
      0 luma

unfoldable pub encode_luma : ⦃qr : QrEncoder⦄ → ℕ → Bytes → Ecc → ℕ → ℕ → Result Rendered
unfolding white
encode_luma ⦃qr⦄ bits bytes ecc scale quiet = elim (qr.encode_binary bytes ecc) [
  | none ↦ err (truncated 0 (length bytes))
  | some code ↦
      let side = wrap_usize bits ((code.size + 2 * quiet) * scale) in
      white bits (wrap_usize bits (side * side)) >>= λ blank.
      paint bits code side scale quiet blank >>= λ luma.
      ok (record { luma = luma; width = side; height = side; modules = code.size })
]
