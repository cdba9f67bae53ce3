-- ===== src/Qr/Capacity.antt =====
-- core/src/qr.rs: `capacity`, `smallest_version` and `usable_payload`; `qr_capacity` of core/src/wasm.rs.
-- Versions are 1 to 40: on any other, the crate's `Version::new` panics.
pub mod Search
use rabaska.Prelude.{
  ℕ, zero, suc, ◌+◌, ◌-◌, ◌/◌, Option, none, some, Bool, true, false, ltb, leb, ◌==◌,
}
use rabaska.Wire.Types.{symbol_overhead}
use rabaska.Qr.Encoder.{Ecc, low, medium, quartile, high, QrEncoder}

-- `(lo + hi).div_ceil(2)`
abbrev pub mid : ℕ → ℕ → ℕ
mid lo hi = (lo + hi + 1) / 2

module _ ⦃qr : QrEncoder⦄ (version : ℕ) (ecc : Ecc) where
  -- `while lo < hi { … }`, `fuel` rounds at most.
  unfoldable pub search_loop : ℕ → ℕ → ℕ → ℕ
  search_loop zero lo hi = lo
  search_loop (suc fuel) lo hi = elim (ltb lo hi) [
    | false ↦ lo
    | true ↦ elim (qr.encodes (mid lo hi) version ecc) [
      | true ↦ search_loop fuel (mid lo hi) hi
      | false ↦ search_loop fuel lo (mid lo hi - 1)
    ]
  ]

  -- The range halves, and 12 rounds close one of 3000.
  unfoldable pub capacity : ℕ
  unfolding search_loop
  capacity = search_loop 12 0 3000

  -- `saturating_sub`
  unfoldable pub usable_payload : ℕ
  unfolding capacity
  usable_payload = capacity - symbol_overhead

-- `(first..).take(rounds).find(|&v| capacity(v, ecc) >= len)`
unfoldable pub find_version : ⦃qr : QrEncoder⦄ → ℕ → Ecc → ℕ → ℕ → Option ℕ
find_version len ecc zero first = none
find_version len ecc (suc rounds) first = elim (leb len (capacity first ecc)) [
  | true ↦ some first
  | false ↦ find_version len ecc rounds (first + 1)
]

unfoldable pub smallest_version : ⦃qr : QrEncoder⦄ → ℕ → Ecc → Option ℕ
unfolding find_version
smallest_version len ecc = find_version len ecc 40 1

-- The level that a byte from JavaScript stands for.
unfoldable pub ecc_of_byte : ℕ → Ecc
ecc_of_byte b = elim (b == 0) [
  | true ↦ low
  | false ↦ elim (b == 1) [
    | true ↦ medium
    | false ↦ elim (b == 2) [ true ↦ quartile | false ↦ high ]
  ]
]

unfoldable pub qr_capacity : ⦃qr : QrEncoder⦄ → ℕ → ℕ → ℕ
unfolding capacity ecc_of_byte
qr_capacity version ecc = capacity version (ecc_of_byte ecc)
