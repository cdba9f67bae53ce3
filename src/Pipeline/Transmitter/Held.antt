-- ===== src/Pipeline/Transmitter/Held.antt =====
-- core/src/pipeline.rs: what a held transmitter displays.
use rabaska.Prelude.{ℕ, ◌≡◌, refl, ap, max, true, List, [], ◌∷◌, length, All}
use rabaska.Error.{ok}
use rabaska.Wire.Frame.{Crc}
use rabaska.Wire.Symbol.{packets_per_frame}
use rabaska.Pipeline.Transmitter.{Transmitter, OpticalFrame, beacon_frame, next_frame_at, stream}
use rabaska.Pipeline.Transmitter.Validity.{
  IsValid, next_frame_packed-Shows, next_frame_at_le, beacon_step, wrap, wrap-IsValid,
}

module _ ⦃crc : Crc⦄ where
  -- A valid transmitter produces a frame for each capacity of a schedule.
  pub stream_total :
      (t : Transmitter) (capacities : List ℕ)
      → IsValid t
      → (p : Transmitter × List OpticalFrame) × (stream t capacities ≡ ok p)
        × IsValid p.0
        × (length p.1 ≡ length capacities)
  unfolding stream next_frame_at
  stream_total t [] v = ((t, []), refl, v, refl)
  stream_total t (c ∷ cs) v =
      let (p, one, v', shown) =
        next_frame_packed-Shows t (max (packets_per_frame c t.packet_len) 1) v
          (next_frame_at_le c t.packet_len) in
      let (q, more, v'', len) = stream_total p.0 cs v' in
      ((q.0, p.1 ∷ q.1), rw (one, more), v'', ap Prim.Native.Nat.suc len)

  -- As long as it is held, a valid transmitter repeats its beacon, whatever the schedule of capacities:
  -- no frame carries a packet, the cursor stays where it is, and it is still held.
  stream-hold :
      (t : Transmitter) (capacities : List ℕ)
      → IsValid t
      → t.held ≡ true
      → (p : Transmitter × List OpticalFrame) × (stream t capacities ≡ ok p)
        × (length p.1 ≡ length capacities)
        × All (λ f. f ≡ beacon_frame t.beacon_bytes) p.1
        × (p.0.cursor ≡ t.cursor)
        × (p.0.held ≡ true)
  unfolding stream next_frame_at wrap
  stream-hold t [] v h = ((t, []), refl, refl, tt, refl, h)
  stream-hold t (c ∷ cs) v h =
      let n = max (packets_per_frame c t.packet_len) 1 in
      let one = beacon_step t n v (rw h) in
      let (q, more, len, beacons, cursor, held) = stream-hold (wrap t) cs (wrap-IsValid t v) h in
      (
        (q.0, beacon_frame t.beacon_bytes ∷ q.1),
        rw (one, more),
        ap Prim.Native.Nat.suc len,
        (refl, beacons),
        cursor,
        held,
      )
