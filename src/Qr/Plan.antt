-- ===== src/Qr/Plan.antt =====
-- core/src/qr.rs: `plan_symbol_size`, the symbol size that tiles the frames.
pub mod Best
use rabaska.Prelude.{ℕ, zero, suc, ◌+◌, ◌-◌, ◌*◌, ◌/◌, Bool, true, false, ◌&&◌, List, [], ◌∷◌, ◌==◌}
use rabaska.Wire.Types.{symbol_overhead}
use rabaska.Floats.{Floats}

module _ ⦃f : Floats⦄ where
  -- `waste` and `usable` after `for &raw in capacities`, for packets of a length.
  unfoldable pub rung_waste : ℕ → List ℕ → f.F → Bool → f.F × Bool
  rung_waste packet [] waste usable = (waste, usable)
  rung_waste packet (raw ∷ rest) waste usable =
      let cap = raw - symbol_overhead in
      let n = cap / packet in
      elim (n == 0) [
        | true ↦ (f.max_value, usable)
        | false ↦
            rung_waste packet rest
              (f.add waste (f.div (f.of_nat (cap - n * packet)) (f.of_nat cap))) true
      ]

  -- What one round of `for s in min..=max` works out.
  abbrev pub score : List ℕ → ℕ → f.F × Bool
  score capacities s = rung_waste (s + 4) capacities (f.of_nat 0) false

  -- `usable && waste < best_waste`
  abbrev pub beats : List ℕ → ℕ → f.F → Bool
  beats capacities s best_waste = (score capacities s).1 && f.lt (score capacities s).0 best_waste

  -- `count` rounds from `s` on.
  unfoldable pub plan_loop : List ℕ → ℕ → ℕ → ℕ → f.F → ℕ
  unfolding rung_waste
  plan_loop capacities zero s best best_waste = best
  plan_loop capacities (suc count) s best best_waste = elim (beats capacities s best_waste) [
    | true ↦ plan_loop capacities count (s + 1) s (score capacities s).0
    | false ↦ plan_loop capacities count (s + 1) best best_waste
  ]

  unfoldable pub plan_symbol_size : List ℕ → ℕ → ℕ → ℕ
  unfolding plan_loop
  plan_symbol_size capacities min max = plan_loop capacities (max + 1 - min) min min f.max_value

-- `SHIPPING_RUNGS`
abbrev pub shipping_rungs : List ℕ
shipping_rungs = 997 ∷ 2331 ∷ 2953 ∷ 7500 ∷ 11_000 ∷ []
