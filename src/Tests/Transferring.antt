-- ===== src/Tests/Transferring.antt =====
-- The theorems on whole transfers, at three bytes.
use rabaska.Prelude.{
  ℕ, ◌≡◌, ◌∙◌, ap, refl, inl, arith, [], ◌∷◌, replicate, length, get_or, false, ltb, le→ltb, ◌+◌,
  ◌*◌, ◌%◌, ◌^◌, ◌/◌, ◌<◌, ◌≤◌,
}
use rabaska.Prelude.Bytes.{Bytes}
use rabaska.Wire.Types.{session}
use rabaska.Wire.Beacon
use rabaska.Wire.Beacon.RoundTrip as BeaconTrip
use rabaska.Crypto.Keys.{encrypt}
use rabaska.Pipeline.Compress.{maybe_compress}
use rabaska.Pipeline.Transmitter as Tx
use rabaska.Pipeline.Transmitter.{
  Transmitter, OpticalFrame, beacon_frame, symbol_frame, unsent_beacon,
}
use rabaska.Pipeline.Receiver as Rx
use rabaska.Pipeline.Receiver.{id_of}
use rabaska.Pipeline.Transfer.{Recovers}
use rabaska.Pipeline.Transfer.Sending.{sent_object}
use rabaska.Harness.{
  Peers, peers_from, keys_for, config_for, rung_qr, rung_c4, rung_c8, schedule_of, Lighting, run,
  Rung, delivered, next_f64, read_probability,
}
use rabaska.Harness.Rounds.{IsSafe}
use rabaska.Pipeline.Transfer.Completing.{Completes}
use rabaska.Harness.Lossless.{IsLossless}
use rabaska.Harness.Delivers.{run-delivered}
use rabaska.Harness.Run.{run_tx, run-IsSafe}
use rabaska.Tests.Fountains.{toy-Recovers, toy-Completes}
use rabaska.Tests.Toys.{toy_crc, toy_primitives, toy_deflate, toy_fountain, toy_floats, array}

abbrev three : Bytes
three = 10 ∷ 20 ∷ 30 ∷ []

abbrev a_sid : Bytes
a_sid = 1 ∷ 2 ∷ 3 ∷ 4 ∷ 5 ∷ 6 ∷ 7 ∷ 8 ∷ []

abbrev two_peers : Peers
two_peers = peers_from (replicate 32 1) (replicate 32 2) (replicate 32 3) (replicate 32 4) a_sid

abbrev two_peers_tx : Transmitter
two_peers_tx = run_tx session two_peers (replicate 24 3) three

abbrev two_peers_object : Bytes
two_peers_object =
    sent_object (keys_for session two_peers).0 (replicate 24 3) (config_for session two_peers) three

two_peers-Recovers : Recovers two_peers_tx.beacon.oti two_peers_object two_peers_tx.packets
unfolding Tx.new config_for unsent_beacon encrypt maybe_compress
two_peers-Recovers =
    toy-Recovers two_peers_tx.beacon.oti two_peers_object (get_or two_peers_tx.packets 0 [])
      (get_or two_peers_tx.packets 1 []) refl refl

abbrev poor_light : Lighting
poor_light = record { name = []; p_qr = 550; p_c4 = 180; p_c8 = 20 }

run-IsSafe_example : IsSafe 400_000 (
    run session two_peers
      (replicate 24 3)
      three
      (rung_qr ∷ rung_c4 ∷ rung_c8 ∷ [])
      poor_light
      0xBEEF)
unfolding schedule_of
run-IsSafe_example =
    run-IsSafe session (replicate 32 1) (replicate 32 2) (replicate 32 3) (replicate 32 4) a_sid
      (replicate 24 3) three (rung_qr ∷ rung_c4 ∷ rung_c8 ∷ []) poor_light 0xBEEF
      (array 8 a_sid refl) (array 32 (replicate 32 1) refl) (array 24 (replicate 24 3) refl)
      (omega arith) (inl (omega arith)) (omega arith) two_peers-Recovers

abbrev two_peers_key : Bytes
two_peers_key = (keys_for session two_peers).0

abbrev bright_room : Lighting
bright_room = record { name = []; p_qr = 1000; p_c4 = 1000; p_c8 = 1000 }

thousandths_le : (x : ℕ) → x < 2 ^ 64 → (1000 * (1000 * (x / 2 ^ 11))) / (1000 * 2 ^ 53) ≤ 1000
thousandths_le x lt = omega arith

drawn_le : (state : ℕ) → ltb 1000 (next_f64 state).1 ≡ false
unfolding next_f64
drawn_le state =
    let next = (state * 6_364_136_223_846_793_005 + 1_442_695_040_888_963_407) % 2 ^ 64 in
    le→ltb 1000 (next_f64 state).1 (thousandths_le next (omega arith))

sure : (rung : Rung) (frame : OpticalFrame) → read_probability bright_room rung frame ≡ 1000
unfolding read_probability
sure rung (beacon_frame b) = refl
sure rung (symbol_frame b) = ground arith

bright_room-IsLossless : IsLossless bright_room
bright_room-IsLossless rung frame state =
    ap (λ p. ltb p (next_f64 state).1) (sure rung frame) ∙ drawn_le state

two_peers-Completes : Completes two_peers_tx.beacon.oti two_peers_object two_peers_tx.packets
unfolding Tx.new config_for unsent_beacon encrypt maybe_compress
two_peers-Completes =
    toy-Completes two_peers_tx.beacon.oti two_peers_object (get_or two_peers_tx.packets 0 [])
      (get_or two_peers_tx.packets 1 []) refl refl (omega arith) (omega arith) (λ e. apart e)
  where
    apart : id_of (get_or two_peers_tx.packets 0 []) ≡ id_of (get_or two_peers_tx.packets 1 []) → ⊥
    apart e = let zero_one : ◌≡◌ {A = ℕ} 0 1 = ap (λ l. get_or l 0 0) e in absurd (omega arith)

two_packets : length two_peers_tx.packets ≡ 2
unfolding Tx.new
two_packets = refl

run-delivered_example :
    (n : ℕ) × (n ≤ 400_000)
    × (run session two_peers
          (replicate 24 3)
          three
          (rung_qr ∷ rung_c4 ∷ rung_c8 ∷ [])
          bright_room
          0xBEEF
        ≡ delivered n (toy_floats.div (toy_floats.of_nat n) (toy_floats.of_nat 30)))
unfolding schedule_of
run-delivered_example =
    run-delivered session (replicate 32 1) (replicate 32 2) (replicate 32 3) (replicate 32 4) a_sid
      (replicate 24 3) three (rung_qr ∷ rung_c4 ∷ rung_c8 ∷ []) bright_room 0xBEEF
      (array 8 a_sid refl) (array 32 (replicate 32 1) refl) (array 24 (replicate 24 3) refl)
      (omega arith) (inl (omega arith)) (omega arith) two_peers-Recovers two_peers-Completes
      (omega (arith, two_packets)) bright_room-IsLossless
