-- ===== src/Handshake/Watching/Keyed.antt =====
-- core/src/wasm.rs: how many frames a receiver that has the key needs.
use rabaska.Prelude.{
  ℕ, suc, ◌+◌, ◌-◌, ◌*◌, ◌%◌, ◌^◌, ◌≡◌, ◌≢◌, ◌≤◌, ◌<◌, ◌⊎◌, max, inl, inr, ◌∙◌, some, ◌==◌, List,
  [], ◌∷◌, length, Bool-cases, arith,
}
use rabaska.Prelude.Bytes.{Bytes}
use rabaska.Wire.Frame.{Crc}
use rabaska.Wire.Beacon.{Beacon}
use rabaska.Wire.Symbol.{packets_per_frame}
use rabaska.Crypto.Primitives.{Primitives}
use rabaska.Pipeline.Services.{Deflate, Fountain}
use rabaska.Pipeline.Transmitter.Validity.{wrap, advance}
use rabaska.Pipeline.Transfer.{Offers}
use rabaska.Pipeline.Transfer.Completing.{Completes}
use rabaska.Pipeline.Transfer.Cycling.{KnowsFrom-lt}
use rabaska.Handshake.{Send}
use rabaska.Handshake.Receive.{Receive}
use rabaska.Handshake.Watching.{watch}
use rabaska.Handshake.Watching.Steps.{IsOn, beacon-IsOn, symbol-Gains}

-- Enough frames to come, from a frame number on, for `k` packets that are left: two beacons may follow one another,
-- where the number wraps.
abbrev Enough : ℕ → ℕ → ℕ → Type 0
Enough frames id k =
    (3 * k + 2 ≤ frames)
    ⊎ ((3 * k + 1 ≤ frames) × (id ≢ 4_294_967_295))
    ⊎ ((3 * k ≤ frames) × (id % 15 ≢ 0))

none_left : (id k : ℕ) → 0 < k → Enough 0 id k → ⊥
none_left id k pos (inl all) = omega arith
none_left id k pos (inr (inl (all, _))) = omega arith
none_left id k pos (inr (inr (all, _))) = omega arith

after_beacon :
    (frames id k : ℕ)
    → id < 256 ^ 4
    → id % 15 ≡ 0
    → Enough (suc frames) id k
    → Enough frames ((id + 1) % 256 ^ 4) k
after_beacon frames id k lt turn (inl all) = inr (inl (omega arith, λ e. omega arith))
after_beacon frames id k lt turn (inr (inl (all, ne))) = inr (inr (omega arith, λ e. omega arith))
after_beacon frames id k lt turn (inr (inr (all, other))) = absurd (other turn)

after_packets :
    (frames id id' k k' : ℕ)
    → id % 15 ≢ 0
    → k' < k
    → Enough (suc frames) id k
    → Enough frames id' k'
after_packets frames id id' k k' other less (inl all) = inl (omega arith)
after_packets frames id id' k k' other less (inr (inl (all, _))) = inl (omega arith)
after_packets frames id id' k k' other less (inr (inr (all, _))) = inl (omega arith)

module _ ⦃crc : Crc⦄ ⦃prim : Primitives⦄ ⦃deflate : Deflate⦄ ⦃fountain : Fountain⦄ (b : Beacon)
    (pool : List Bytes) (key payload : Bytes) (offer : Offers b pool key payload)
    (law : Completes b.oti offer.object pool) where
  left_lt :
      (c m : ℕ) (send : Send) (r : Receive)
      → IsOn b pool key payload offer law c m send r
      → m < length pool
  left_lt c m send r on =
      KnowsFrom-lt b pool key payload offer law r.rx c m on.inside on.works on.known

  -- A receiver that has the key.
  pub watch-IsOn :
      (capacities : List ℕ) (c m : ℕ) (send : Send) (r : Receive)
      → IsOn b pool key payload offer law c m send r
      → Enough (length capacities) send.tx.frame_id (length pool - m)
      → watch capacities send r ≡ some payload
  unfolding wrap advance
  watch-IsOn [] c m send r on enough =
      let lt = left_lt c m send r on in
      absurd (none_left send.tx.frame_id (length pool - m) (omega arith) enough)
  watch-IsOn (capacity ∷ capacities) c m send r on enough =
      let t = send.tx in
      let n = max (packets_per_frame capacity t.packet_len) 1 in
      let lt = left_lt c m send r on in
      elim (Bool-cases (t.frame_id % 15 == 0)) [
        | inl due ↦
            let turn : t.frame_id % 15 ≡ 0 = ground arith in
            let (step, on') =
              beacon-IsOn b pool key payload offer law c m send r capacity capacities on turn in
            step
            ∙ watch-IsOn capacities c m (record send { tx = wrap t }) r on'
                (after_beacon (length capacities) t.frame_id (length pool - m)
                  on.tx.sends.valid.frame_id turn enough)
        | inr other ↦
            let turn : t.frame_id % 15 ≢ 0 = λ e. ground arith in
            elim (symbol-Gains b pool key payload offer law c m send r capacity capacities on
              turn) [
                | inl found ↦ found
                | inr (r', k, one, step, on') ↦
                    step
                    ∙ watch-IsOn capacities c (m + k) (record send { tx = advance t n }) r' on'
                        (after_packets (length capacities) t.frame_id ((t.frame_id + 1) % 256 ^ 4)
                          (length pool - m) (length pool - (m + k)) turn (omega arith) enough)
              ]
      ]
