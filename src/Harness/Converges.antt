-- ===== src/Harness/Converges.antt =====
-- harness/src/main.rs: the rounds of a run in which every frame is read, up to the delivery.
use rabaska.Prelude.{
  ℕ, zero, suc, ◌+◌, ◌-◌, ◌*◌, ◌%◌, ◌^◌, ◌≡◌, ◌≢◌, ◌≤◌, ◌<◌, ◌⊎◌, inl, inr, refl, sym, subst, List,
  length, arith,
}
use rabaska.Prelude.Bytes.{Bytes}
use rabaska.Floats.{Floats}
use rabaska.Wire.Frame.{Crc}
use rabaska.Wire.Beacon.{Beacon}
use rabaska.Crypto.Primitives.{Primitives}
use rabaska.Pipeline.Services.{Deflate, Fountain}
use rabaska.Pipeline.Transfer.{Offers}
use rabaska.Pipeline.Transfer.Completing.{Completes}
use rabaska.Pipeline.Transfer.Showing.{KnowsUpTo-lt}
use rabaska.Harness.{
  Rung, Lighting, did_not_converge, World, Round, goes_on, ends, round, rounds_from,
}
use rabaska.Harness.Lossless.{IsLossless, IsAt, TakesOn, pool_filled, round-TakesOn}

module _ ⦃crc : Crc⦄ ⦃prim : Primitives⦄ ⦃deflate : Deflate⦄ ⦃fountain : Fountain⦄ ⦃f : Floats⦄
    (b : Beacon) (pool : List Bytes) (key payload : Bytes) (offer : Offers b pool key payload)
    (law : Completes b.oti offer.object pool) where
  module _ (schedule : List Rung) (light : Lighting) (pos : 0 < length schedule)
      (clear : IsLossless light) where
    -- Two rounds for each packet that is left, and one for a beacon whose turn it is, are enough.
    abbrev Enough : ℕ → ℕ → ℕ → Type 0
    Enough rounds i k =
        (2 * (length pool - k) + 1 ≤ rounds) ⊎ ((2 * (length pool - k) ≤ rounds) × (i % 15 ≢ 0))

    none_left : (i k : ℕ) → k < length pool → Enough 0 i k → ⊥
    none_left i k lt (inl all) = omega arith
    none_left i k lt (inr (all, _)) = omega arith

    later-Enough :
        (rounds i k k' : ℕ)
        → k < length pool
        → ((i % 15 ≡ 0) × (k' ≡ k)) ⊎ (k < k')
        → Enough (suc rounds) i k
        → Enough rounds (i + 1) k'
    later-Enough rounds i k k' lt (inl (turn, same)) (inl all) = inr (omega arith, omega arith)
    later-Enough rounds i k k' lt (inl (turn, same)) (inr (all, other)) = absurd (omega arith)
    later-Enough rounds i k k' lt (inr more) (inl all) = inl (omega arith)
    later-Enough rounds i k k' lt (inr more) (inr (all, other)) = inl (omega arith)

    pub rounds_from-ne :
        (rounds i k : ℕ) (w : World)
        → IsAt b pool key payload offer law i k w
        → i + rounds < 256 ^ 4
        → Enough rounds i k
        → rounds_from schedule light payload rounds i w ≢ did_not_converge
    unfolding rounds_from
    rounds_from-ne zero i k w at small enough =
        let lt =
          KnowsUpTo-lt b pool key payload offer law w.rx k
            (pool_filled b pool key payload offer law i k w at) at.rx at.known in
        absurd (none_left i k lt enough)
    rounds_from-ne (suc rounds) i k w at small enough =
        after (λ k' w' at' enough'. rounds_from-ne rounds (i + 1) k' w' at' (omega arith) enough')
          (round schedule light payload i w) refl
          (round-TakesOn b pool key payload offer law schedule light pos clear i k w at
            (omega arith))
      where
        after :
            ((k' : ℕ) (w' : World)
              → IsAt b pool key payload offer law (i + 1) k' w'
              → Enough rounds (i + 1) k'
              → rounds_from schedule light payload rounds (i + 1) w' ≢ did_not_converge)
            → (r : Round) → round schedule light payload i w ≡ r
            → TakesOn b pool key payload offer law i k r
            → rounds_from schedule light payload (suc rounds) i w ≢ did_not_converge
        after rest (ends o) e h =
            let step : rounds_from schedule light payload (suc rounds) i w ≡ o =
              rw (rounds_from, e) in
            subst (λ x. x ≢ did_not_converge) (sym step) h
        after rest (goes_on w') e (k', at', which) =
            let step : rounds_from schedule light payload (suc rounds) i w
                ≡ rounds_from schedule light payload rounds (i + 1) w' =
              rw (rounds_from, e) in
            let lt =
              KnowsUpTo-lt b pool key payload offer law w.rx k
                (pool_filled b pool key payload offer law i k w at) at.rx at.known in
            subst (λ x. x ≢ did_not_converge) (sym step)
              (rest k' w' at' (later-Enough rounds i k k' lt which enough))
