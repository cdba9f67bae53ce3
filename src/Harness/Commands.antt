-- ===== src/Harness/Commands.antt =====
-- harness/src/main.rs: the commands `modes` and `ladder`, as the values in their tables. How these are laid out,
-- and the fixed text around them, is not modelled.
use rabaska.Prelude.{
  ℕ, ◌+◌, Option, none, some, false, List, [], ◌∷◌, length, replicate, take, ◌++◌,
}
use rabaska.Prelude.Bytes.{Bytes, ascii, slice}
use rabaska.Error.{Result, ok, err, panic, ◌>>=◌}
use rabaska.Floats.{Floats}
use rabaska.Wire.Types.{Mode, pair, session, seal, open_room, default_codec}
use rabaska.Wire.Frame.{Crc}
use rabaska.Wire.Beacon
use rabaska.Wire.Beacon.{Beacon}
use rabaska.Crypto.Primitives.{Primitives}
use rabaska.Crypto.Keys.{key_pair, sender, derive_pair}
use rabaska.Crypto.Human.{sas}
use rabaska.Pipeline.Services.{Deflate, Fountain}
use rabaska.Pipeline.Transmitter as Tx
use rabaska.Pipeline.Transmitter.{Transmitter, TransmitConfig}
use rabaska.Handshake.Getters.{fold_be}
use rabaska.Harness.{
  Rung, rung_qr, rung_c4, rung_c8, Peers, peers_from, Lighting, Outcome, delivered, run,
}
use rabaska.Harness.Samples.{
  phone_to_phone, dim_room, conditions, wireguard_config, realistic_payloads,
}

-- What the random generators give to one run.
pub record Draw : Type 0 where
  pub s_eph : Bytes
  pub s_id : Bytes
  pub r_eph : Bytes
  pub r_id : Bytes
  pub sid : Bytes
  pub nonce : Bytes
  -- the nonce of `wire_bytes`
  pub wire_nonce : Bytes

abbrev pub peers_of : ⦃prim : Primitives⦄ → Draw → Peers
peers_of d = peers_from d.s_eph d.s_id d.r_eph d.r_id d.sid

abbrev pub full_ladder : List Rung
full_ladder = rung_qr ∷ rung_c4 ∷ rung_c8 ∷ []

module _ ⦃crc : Crc⦄ ⦃prim : Primitives⦄ ⦃deflate : Deflate⦄ ⦃fountain : Fountain⦄ where
  abbrev pub wire_config : TransmitConfig
  wire_config = record {
    mode = pair;
    session_id = replicate 8 0;
    s_eph_pub = replicate 32 0;
    codec = record default_codec { palette = 4 };
    build_hash = replicate 8 0;
    frame_capacity = rung_c4.capacity;
    sender_auth = false;
  }

  abbrev pub wire_key : Bytes
  wire_key =
      derive_pair sender (key_pair (replicate 32 1)) (key_pair (replicate 32 2)).public
        (replicate 8 0)

  -- `wire_bytes`; a panic is the failure of `unwrap`.
  unfoldable pub wire_bytes : Bytes → Bytes → Result ℕ
  unfolding fold_be
  wire_bytes nonce payload =
      let tx = Tx.new wire_key nonce wire_config payload in
      do
        beacon ← elim (Beacon.decode (Beacon.encode tx.beacon)) [
          | ok b ↦ ok b
          | err e ↦ panic
          | panic ↦ panic
        ]
        ok (fold_be 64 0 (slice 0 5 beacon.oti))

-- The names of the modes in the table, and what is said of each.
abbrev pub mode_rows : List (Mode × Bytes × Bytes)
mode_rows =
    (pair, ascii "PAIR", ascii "first meeting, ephemeral ECDH + 5-digit SAS")
    ∷ (session, ascii "SESSION", ascii "stored identities, triple-DH, scan and go")
    ∷ (seal, ascii "SEAL", ascii "camera-less sender, one pass, zero round trips")
    ∷ (open_room, ascii "OPEN", ascii "trusted room, no confidentiality, labelled")
    ∷ []

module _ ⦃crc : Crc⦄ ⦃prim : Primitives⦄ ⦃deflate : Deflate⦄ ⦃fountain : Fountain⦄
    ⦃f : Floats⦄ where
  -- A row: its labels, and how the run ended.
  pub record ModeRow : Type 0 where
    pub label : Bytes
    pub note : Bytes
    pub outcome : Outcome

  -- The loop of `cmd_modes`; the `i`th run draws `draw i`.
  unfoldable pub modes_loop : (ℕ → Draw) → ℕ → List (Mode × Bytes × Bytes) → List ModeRow
  unfolding run
  modes_loop draw i [] = []
  modes_loop draw i ((mode, label, note) ∷ rows) =
      record {
        label = label;
        note = note;
        outcome =
            run mode (peers_of (draw i)) (draw i).nonce wireguard_config full_ladder phone_to_phone
              0xC0FFEE;
      }
      ∷ modes_loop draw (i + 1) rows

  -- The rows, and the digits of one more pairing, whose nonce of 16 bytes is given.
  unfoldable pub cmd_modes : (ℕ → Draw) → Bytes → List ModeRow × Bytes
  unfolding modes_loop
  cmd_modes draw nonce16 =
      let p = peers_of (draw 4) in
      (modes_loop draw 0 mode_rows, sas p.sid p.r_eph.public p.s_eph.public nonce16)

  -- A row of the tables of `ladder`: how the run ended, and the payload's kilobytes per second if it delivered.
  record LadderRow : Type 0 where
    pub conditions : Bytes
    pub label : Bytes
    pub wire_kb : Option f.F
    pub outcome : Outcome
    pub effective : Option f.F

  -- `n as f64 / 1024.0`
  abbrev kilobytes : ℕ → f.F
  kilobytes n = f.div (f.of_nat n) (f.of_nat 1024)

  abbrev speed : Bytes → Outcome → Option f.F
  speed payload (delivered n secs) = some (f.div (kilobytes (length payload)) secs)
  speed payload _ = none

  -- `run` in SESSION mode, as a row.
  abbrev row_of : Draw → List Rung → Lighting → Option f.F → Bytes × Bytes → LadderRow
  row_of d ladder light wire_kb (label, payload) =
      let outcome = run session (peers_of d) d.nonce payload ladder light 0xBEEF in
      record {
        conditions = light.name;
        label = label;
        wire_kb = wire_kb;
        outcome = outcome;
        effective = speed payload outcome;
      }

  -- The inner loop over the payloads.
  unfoldable ladder_loop :
      (ℕ → Draw) → ℕ → Lighting → List (Bytes × Bytes) → Result (List LadderRow)
  unfolding wire_bytes run
  ladder_loop draw i light [] = ok []
  ladder_loop draw i light ((label, payload) ∷ payloads) = do
    n ← wire_bytes (draw i).wire_nonce payload
    rest ← ladder_loop draw (i + 1) light payloads
    ok (row_of (draw i) full_ladder light (some (kilobytes n)) (label, payload) ∷ rest)

  -- The outer loop over the conditions.
  unfoldable conditions_loop :
      (ℕ → Draw) → ℕ → List Lighting → List (Bytes × Bytes) → Result (List LadderRow)
  unfolding ladder_loop
  conditions_loop draw i [] payloads = ok []
  conditions_loop draw i (light ∷ lights) payloads = do
    rows ← ladder_loop draw i light payloads
    rest ← conditions_loop draw (i + length payloads) lights payloads
    ok (rows ++ rest)

  -- The second table: the robust rung alone, in the worst light.
  unfoldable floor_loop : (ℕ → Draw) → ℕ → List (Bytes × Bytes) → List LadderRow
  unfolding run
  floor_loop draw i [] = []
  floor_loop draw i (p ∷ payloads) =
      row_of (draw i) (rung_qr ∷ []) dim_room none p ∷ floor_loop draw (i + 1) payloads

  unfoldable cmd_ladder : (ℕ → Draw) → Result (List LadderRow × List LadderRow)
  unfolding conditions_loop floor_loop realistic_payloads
  cmd_ladder draw = do
    rows ← conditions_loop draw 0 conditions realistic_payloads
    ok (rows, floor_loop draw (length rows) (take 3 realistic_payloads))
