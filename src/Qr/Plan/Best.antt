-- ===== src/Qr/Plan/Best.antt =====
-- core/src/qr.rs: the planned symbol size is usable and wastes least.
use rabaska.Prelude.{
  ℕ, zero, suc, ◌≡◌, ◌≤◌, ◌<◌, ◌+◌, ◌-◌, ◌*◌, ◌/◌, ◌⊎◌, inl, inr, refl, sym, subst, Bool, true,
  false, List, [], ◌∷◌, All, ◌==◌, arith, Bool-cases,
}
use rabaska.Wire.Types.{symbol_overhead}
use rabaska.Floats.{Floats}
use rabaska.Qr.Plan.{rung_waste, score, beats, plan_loop, plan_symbol_size}

module _ ⦃f : Floats⦄ where
  -- Each rung holds a packet at least.
  abbrev pub EachHoldsOne : List ℕ → ℕ → Type 0
  EachHoldsOne capacities s = All (λ raw. 0 < (raw - symbol_overhead) / (s + 4)) capacities

  rung_waste-holds :
      (packet : ℕ) (capacities : List ℕ) (waste : f.F) (usable : Bool)
      → f.lt (rung_waste packet capacities waste usable).0 f.max_value ≡ true
      → All (λ raw. 0 < (raw - symbol_overhead) / packet) capacities
  unfolding rung_waste
  rung_waste-holds packet [] waste usable h = tt
  rung_waste-holds packet (raw ∷ rest) waste usable h =
      let n = (raw - symbol_overhead) / packet in
      elim (Bool-cases (n == 0)) [
        | inl dead ↦
            let step : rung_waste packet (raw ∷ rest) waste usable ≡ (f.max_value, usable) =
              rw (rung_waste, dead) in
            let below = subst (λ p. f.lt p.0 f.max_value ≡ true) step h in
            let no = f.lt_irrefl f.max_value in cc
        | inr alive ↦
            let waste' = f.add waste (
              f.div (f.of_nat (raw - symbol_overhead - n * packet))
                (f.of_nat (raw - symbol_overhead))) in
            let step : rung_waste packet (raw ∷ rest) waste usable
                ≡ rung_waste packet rest waste' true =
              rw (rung_waste, alive) in
            (
              ground arith,
              rung_waste-holds packet rest waste' true
                  (subst (λ p. f.lt p.0 f.max_value ≡ true) step h),
            )
      ]

  module _ (capacities : List ℕ) where
    beats-cases :
        (s : ℕ) (w : f.F)
        → beats capacities s w ≡ true
        → ((score capacities s).1 ≡ true) × (f.lt (score capacities s).0 w ≡ true)
    beats-cases s w h = (ground arith, ground arith)

    -- What the rounds before `s` have found: none that beats it, and the waste that stands with the choice.
    abbrev Found : ℕ → ℕ → ℕ → f.F → Type 0
    Found lo s best best_waste =
        ((k : ℕ) → lo ≤ k → k < s → beats capacities k best_waste ≡ false)
        × (((best ≡ lo) × (best_waste ≡ f.max_value))
            ⊎ ((lo ≤ best)
                × (best < s)
                × (best_waste ≡ (score capacities best).0)
                × (f.lt best_waste f.max_value ≡ true)))

    -- The choice after all rounds up to `hi`: `lo` if no size is better than none, or a size of least waste.
    abbrev pub IsBest : ℕ → ℕ → ℕ → Type 0
    IsBest lo hi r =
        ((r ≡ lo) × ((k : ℕ) → lo ≤ k → k < hi → beats capacities k f.max_value ≡ false))
        ⊎ ((lo ≤ r)
            × (r < hi)
            × EachHoldsOne capacities r
            × ((k : ℕ) → lo ≤ k → k < hi → beats capacities k (score capacities r).0 ≡ false))

    Found-IsBest : (lo s best : ℕ) (w : f.F) → Found lo s best w → IsBest lo s best
    Found-IsBest lo s best w (none_beats, inl (same, top)) =
        inl (
          same,
          λ k low high. subst (λ v. beats capacities k v ≡ false) top (none_beats k low high),
        )
    Found-IsBest lo s best w (none_beats, inr (low, high, stands, below)) = inr (
      low,
      high,
      rung_waste-holds (best + 4) capacities (f.of_nat 0) false
          (subst (λ v. f.lt v f.max_value ≡ true) stands below),
      λ k low' high'. subst (λ v. beats capacities k v ≡ false) stands (none_beats k low' high'),
    )

    keep_step :
        (lo s best : ℕ) (w : f.F)
        → beats capacities s w ≡ false
        → Found lo s best w
        → Found lo (s + 1) best w
    keep_step lo s best w worse (none_beats, which) = (
      (λ k low high. elim (Bool-cases (k == s)) [
        | inl here ↦ let same : k ≡ s = ground arith in rw same worse
        | inr there ↦ none_beats k low (ground arith)
      ]),
      wider which,
    )
      where
        wider :
            ((best ≡ lo) × (w ≡ f.max_value))
              ⊎ ((lo ≤ best)
                  × (best < s)
                  × (w ≡ (score capacities best).0)
                  × (f.lt w f.max_value ≡ true))
            → ((best ≡ lo) × (w ≡ f.max_value))
              ⊎ ((lo ≤ best)
                  × (best < s + 1)
                  × (w ≡ (score capacities best).0)
                  × (f.lt w f.max_value ≡ true))
        wider (inl first) = inl first
        wider (inr (a, b, c, d)) = inr (a, omega arith, c, d)

    take_step :
        (lo s best : ℕ) (w : f.F)
        → lo ≤ s
        → beats capacities s w ≡ true
        → Found lo s best w
        → Found lo (s + 1) s (score capacities s).0
    take_step lo s best w le better (none_beats, which) =
        let v = (score capacities s).0 in
        let (usable, less) = beats-cases s w better in
        (
          (λ k low high. elim (Bool-cases (beats capacities k v)) [
            | inr not ↦ not
            | inl over ↦
                let (usable', less') = beats-cases k v over in
                elim (Bool-cases (k == s)) [
                  | inl here ↦
                      let same : k ≡ s = ground arith in
                      let no = f.lt_irrefl v in
                      let yes' : f.lt v v ≡ true =
                        subst (λ j. f.lt (score capacities j).0 v ≡ true) same less' in
                      cc
                  | inr there ↦
                      let through = f.lt_trans (score capacities k).0 v w less' less in
                      let old = none_beats k low (ground arith) in
                      let yes' : beats capacities k w ≡ true = rw (usable', through) in cc
                ]
          ]),
          inr (le, omega arith, refl, below less which),
        )
      where
        below :
            f.lt (score capacities s).0 w ≡ true
            → ((best ≡ lo) × (w ≡ f.max_value))
              ⊎ ((lo ≤ best)
                  × (best < s)
                  × (w ≡ (score capacities best).0)
                  × (f.lt w f.max_value ≡ true))
            → f.lt (score capacities s).0 f.max_value ≡ true
        below less (inl (same, top)) = subst (λ v. f.lt (score capacities s).0 v ≡ true) top less
        below less (inr (a, b, c, d)) = f.lt_trans (score capacities s).0 w f.max_value less d

    plan_loop-IsBest :
        (count lo s best : ℕ) (w : f.F)
        → lo ≤ s
        → Found lo s best w
        → IsBest lo (s + count) (plan_loop capacities count s best w)
    unfolding plan_loop
    plan_loop-IsBest zero lo s best w le found =
        let e : s ≡ s + 0 = omega arith in
        subst (λ hi. IsBest lo hi best) e (Found-IsBest lo s best w found)
    plan_loop-IsBest (suc count) lo s best w le found =
        let e : s + 1 + count ≡ s + suc count = omega arith in
        elim (Bool-cases (beats capacities s w)) [
          | inl better ↦
              let step : plan_loop capacities (suc count) s best w
                  ≡ plan_loop capacities count (s + 1) s (score capacities s).0 =
                rw (plan_loop, better) in
              subst (λ r. IsBest lo (s + suc count) r) (sym step)
                (subst
                  (λ hi. IsBest lo hi (plan_loop capacities count (s + 1) s (score capacities s).0))
                  e
                  (plan_loop-IsBest count lo (s + 1) s (score capacities s).0 (omega arith)
                    (take_step lo s best w le better found)))
          | inr worse ↦
              let step : plan_loop capacities (suc count) s best w
                  ≡ plan_loop capacities count (s + 1) best w =
                rw (plan_loop, worse) in
              subst (λ r. IsBest lo (s + suc count) r) (sym step)
                (subst (λ hi. IsBest lo hi (plan_loop capacities count (s + 1) best w)) e
                  (plan_loop-IsBest count lo (s + 1) best w (omega arith)
                    (keep_step lo s best w worse found)))
        ]

    -- The planned symbol size is one between `min` and `max` at which every rung holds a packet and that no
    -- usable size between them beats in waste; or it is `min`, and then no size between them is usable with a
    -- waste below `f64::MAX`.
    pub plan_symbol_size-IsBest :
        (min max : ℕ) → min ≤ max → IsBest min (max + 1) (plan_symbol_size capacities min max)
    unfolding plan_symbol_size
    plan_symbol_size-IsBest min max le =
        let e : min + (max + 1 - min) ≡ max + 1 = omega arith in
        subst (λ hi. IsBest min hi (plan_loop capacities (max + 1 - min) min min f.max_value)) e
          (plan_loop-IsBest (max + 1 - min) min min min f.max_value (omega arith)
            ((λ k low high. absurd (omega arith)), inl (refl, refl)))
