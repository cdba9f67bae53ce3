-- ===== src/Qr/Fits.antt =====
-- core/src/qr.rs with core/src/pipeline.rs: what is planned for the codes, the codes can show.
use rabaska.Prelude.{
  ℕ, ◌+◌, ◌-◌, ◌/◌, ◌%◌, ◌≡◌, ◌≤◌, ◌<◌, max, inl, inr, ap, ◌∙◌, true, ◌||◌, ◌==◌, List, [], ◌∷◌,
  length, map, All, Bool-cases, arith,
}
use rabaska.Error.{ok}
use rabaska.Wire.Types.{symbol_overhead, beacon_len}
use rabaska.Wire.Frame.{Crc}
use rabaska.Wire.Beacon.RoundTrip as BeaconTrip
use rabaska.Wire.Symbol
use rabaska.Wire.Symbol.{frame_size, packets_per_frame}
use rabaska.Wire.Symbol.Packing.{encode-IsArray, packets_per_frame_bounds}
use rabaska.Pipeline.Transmitter.{
  Transmitter, OpticalFrame, beacon_frame, symbol_frame, frame_bytes, next_frame_at,
}
use rabaska.Pipeline.Transmitter.Validity.{
  IsValid, wrap, advance, symbols, beacon_step, symbol_step, next_frame_at_le, symbols-IsWellFormed,
  length-window,
}
use rabaska.Floats.{Floats}
use rabaska.Qr.Encoder.{Ecc, QrEncoder}
use rabaska.Qr.Capacity.{capacity}
use rabaska.Qr.Capacity.Search.{capacity-IsLargest}
use rabaska.Qr.Plan.{beats, plan_symbol_size}
use rabaska.Qr.Plan.Best.{EachHoldsOne, plan_symbol_size-IsBest}

-- The count of packets that `next_frame_at` asks for, where a packet fits.
count_fits :
    (room packet_len : ℕ)
    → 0 < packet_len
    → symbol_overhead + packet_len ≤ room
    → frame_size (max (packets_per_frame room packet_len) 1) packet_len ≤ room
unfolding frame_size
count_fits room packet_len pos one =
    let (_, fits, _) = packets_per_frame_bounds room packet_len in
    elim (Bool-cases (packets_per_frame room packet_len == 0)) [
      | inl no_packet ↦
          let zero_packets : packets_per_frame room packet_len ≡ 0 = ground arith in
          rw zero_packets (omega arith)
      | inr some_packets ↦
          let many : 0 < packets_per_frame room packet_len = ground arith in
          let same : max (packets_per_frame room packet_len) 1 ≡ packets_per_frame room packet_len =
            omega arith in
          rw same (fits many)
    ]

module _ ⦃crc : Crc⦄ where
  -- The next frame of a transmitter at a capacity that takes a beacon and a packet.
  next_frame_at_fits :
      (t : Transmitter) (room : ℕ)
      → IsValid t
      → beacon_len ≤ room
      → symbol_overhead + t.packet_len ≤ room
      → (p : Transmitter × OpticalFrame) × (next_frame_at t room ≡ ok p)
        × (length (frame_bytes p.1) ≤ room)
  unfolding next_frame_at frame_bytes
  next_frame_at_fits t room v beacon one =
      let n = max (packets_per_frame room t.packet_len) 1 in
      elim (Bool-cases (t.held || t.frame_id % t.beacon_interval == 0)) [
        | inl due ↦
            let size : length t.beacon_bytes ≡ beacon_len =
              ap length v.beacon_bytes ∙ (BeaconTrip.encode-IsArray t.beacon v.beacon).0 in
            ((wrap t, beacon_frame t.beacon_bytes), beacon_step t n v due, omega arith)
        | inr symbol ↦
            let frame = Symbol.encode (symbols t n) in
            let size : length frame ≡ frame_size n t.packet_len =
              (encode-IsArray (symbols t n)
                (symbols-IsWellFormed t n v (next_frame_at_le room t.packet_len))).0
              ∙ ap (λ k. frame_size k t.packet_len) (length-window n t.packets t.cursor) in
            (
              (advance t n, symbol_frame frame),
              symbol_step t n v symbol,
              (let fits = count_fits room t.packet_len v.packet_len_pos one in omega arith),
            )
      ]

-- A code: a version and a level of error correction.
abbrev pub Code : Type 0
Code = ℕ × Ecc

abbrev pub capacities_of : ⦃qr : QrEncoder⦄ → List Code → List ℕ
capacities_of codes = map (λ c. capacity c.0 c.1) codes

module _ ⦃crc : Crc⦄ ⦃f : Floats⦄ ⦃qr : QrEncoder⦄ where
  -- The next frame, at the capacity of a code, is one that the code's encoder takes.
  abbrev pub FitsCode : Transmitter → Code → Type 0
  FitsCode t c =
      (p : Transmitter × OpticalFrame) × (next_frame_at t (capacity c.0 c.1) ≡ ok p)
      × (qr.encodes (length (frame_bytes p.1)) c.0 c.1 ≡ true)

  fits_code :
      (t : Transmitter) (c : Code)
      → IsValid t
      → beacon_len ≤ capacity c.0 c.1
      → symbol_overhead + t.packet_len ≤ capacity c.0 c.1
      → FitsCode t c
  fits_code t c v beacon one =
      let (p, shows, within) = next_frame_at_fits t (capacity c.0 c.1) v beacon one in
      let ((_, _, largest, _), _) = capacity-IsLargest c.0 c.1 in
      (
        p,
        shows,
        qr.encodes_mono (length (frame_bytes p.1)) (capacity c.0 c.1) c.0 c.1 within largest,
      )

  holds_one :
      (room s packet_len : ℕ)
      → packet_len ≤ s + 4
      → 0 < (room - symbol_overhead) / (s + 4)
      → symbol_overhead + packet_len ≤ room
  holds_one room s packet_len short holds = grind arith

  each_fits :
      (codes : List Code) (s : ℕ) (t : Transmitter)
      → IsValid t
      → t.packet_len ≤ s + 4
      → EachHoldsOne (capacities_of codes) s
      → All (λ c. beacon_len ≤ capacity c.0 c.1) codes
      → All (FitsCode t) codes
  each_fits [] s t v short holds beacons = tt
  each_fits (c ∷ codes) s t v short (hold, holds) (beacon, beacons) = (
    fits_code t c v beacon (holds_one (capacity c.0 c.1) s t.packet_len short hold),
    each_fits codes s t v short holds beacons,
  )

  -- If a size between the bounds can be used for the codes, then a valid transmitter, with packets no longer
  -- than the planned symbol size and the 4 bytes of their identifier, shows at the capacity of each code a next
  -- frame that the code's encoder takes, be it a beacon or packets, where each code holds a beacon.
  pub planned-FitsCode :
      (codes : List Code) (lo hi usable : ℕ) (t : Transmitter)
      → let capacities = capacities_of codes in
        lo ≤ usable
        → usable ≤ hi
        → beats capacities usable f.max_value ≡ true
        → IsValid t
        → t.packet_len ≤ plan_symbol_size capacities lo hi + 4
        → All (λ c. beacon_len ≤ capacity c.0 c.1) codes
        → All (FitsCode t) codes
  planned-FitsCode codes lo hi usable t low high good v short beacons =
      let capacities = capacities_of codes in
      elim (plan_symbol_size-IsBest capacities lo hi (omega arith)) [
        | inl (_, none_good) ↦ let bad = none_good usable low (omega arith) in cc
        | inr (_, _, holds, _) ↦
            each_fits codes (plan_symbol_size capacities lo hi) t v short holds beacons
      ]
