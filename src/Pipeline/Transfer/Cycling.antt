-- ===== src/Pipeline/Transfer/Cycling.antt =====
-- core/src/pipeline.rs: the pool is sent round and round, so that whoever listens from any point on hears all of it.
use rabaska.Prelude.{
  ℕ, zero, suc, ◌+◌, ◌%◌, ◌≡◌, ◌≤◌, ◌<◌, refl, sym, ap, subst, ◌∙◌, List, [], ◌∷◌, length, get_or,
  All, Bool-cases, inl, inr, ltb, ltb→lt, ltb-false→le, arith,
}
use native.Mathlib.Nat.{mod-add-mod, mod-mod, mod-eq_of_lt, add-mod_right}
use rabaska.Prelude.Bytes.{Bytes}
use rabaska.Wire.Beacon.{Beacon}
use rabaska.Wire.Frame.{Crc}
use rabaska.Crypto.Primitives.{Primitives}
use rabaska.Pipeline.Services.{Deflate, Fountain}
use rabaska.Pipeline.Transmitter.Validity.{window}
use rabaska.Pipeline.Receiver.{Receiver}
use rabaska.Pipeline.Transfer.{Offers}
use rabaska.Pipeline.Transfer.Completing.{Completes, Knows, not_all_known}
use rabaska.Pipeline.Transfer.Showing.{Works, window-All_at}

-- The window from a place of the cycle is the window from its remainder.
pub window-mod :
    (n : ℕ) (packets : List Bytes) (k : ℕ)
    → window n packets (k % length packets) ≡ window n packets k
window-mod zero packets k = refl
window-mod (suc n) packets k =
    let size = length packets in
    let first : get_or packets (k % size % size) [] ≡ get_or packets (k % size) [] =
      ap (λ i. get_or packets i []) (mod-mod k size) in
    let rest : window n packets (k % size + 1) ≡ window n packets (k + 1) =
      sym (window-mod n packets (k % size + 1))
      ∙ ap (window n packets) (mod-add-mod k size 1)
      ∙ window-mod n packets (k + 1) in
    λ i. first i ∷ rest i

module _ ⦃crc : Crc⦄ ⦃prim : Primitives⦄ ⦃deflate : Deflate⦄ ⦃fountain : Fountain⦄ (b : Beacon)
    (pool : List Bytes) (key payload : Bytes) (offer : Offers b pool key payload)
    (law : Completes b.oti offer.object pool) where
  -- The `m` packets from place `c` of the cycle on are known.
  abbrev pub KnowsFrom : ℕ → ℕ → Receiver → Type 0
  KnowsFrom c m r =
      (j : ℕ) → c ≤ j → j < c + m → Knows b pool key r (get_or pool (j % length pool) [])

  pub window-KnowsFrom :
      (r r' : Receiver) (n c m : ℕ)
      → ((q : Bytes) → Knows b pool key r q → Knows b pool key r' q)
      → KnowsFrom c m r
      → All (Knows b pool key r') (window n pool (c + m))
      → KnowsFrom c (m + n) r'
  window-KnowsFrom r r' n c m keeps known shown j low high = elim (Bool-cases (ltb j (c + m))) [
    | inl old ↦ keeps (get_or pool (j % length pool) []) (known j low (ltb→lt j (c + m) old))
    | inr new ↦
        window-All_at (Knows b pool key r') n pool (c + m) j shown (ltb-false→le j (c + m) new)
          (omega arith)
  ]

  -- A receiver that works on has not heard the whole cycle.
  pub KnowsFrom-lt :
      (r : Receiver) (c m : ℕ)
      → c < length pool
      → Works b pool key payload offer law r
      → KnowsFrom c m r
      → m < length pool
  KnowsFrom-lt r c m lt w known = elim (Bool-cases (ltb m (length pool))) [
    | inl less ↦ ltb→lt m (length pool) less
    | inr all ↦
        let le = ltb-false→le m (length pool) all in
        absurd (
          not_all_known b pool key offer.object offer.recovers law r (omega arith) w.collects
            (λ i inside. each i inside le))
  ]
    where
      each : (i : ℕ) → i < length pool → length pool ≤ m → Knows b pool key r (get_or pool i [])
      each i inside le = elim (Bool-cases (ltb i c)) [
        | inl before ↦
            let less = ltb→lt i c before in
            let same : (i + length pool) % length pool ≡ i =
              add-mod_right i (length pool) ∙ mod-eq_of_lt inside in
            subst (λ k. Knows b pool key r (get_or pool k [])) same
              (known (i + length pool) (omega arith) (omega arith))
        | inr after ↦
            let more = ltb-false→le i c after in
            subst (λ k. Knows b pool key r (get_or pool k [])) (mod-eq_of_lt inside)
              (known i more (omega arith))
      ]
