-- ===== src/Handshake/Getters.antt =====
-- core/src/wasm.rs: what `Send`, `Receive` and `IngestResult` tell of themselves.
pub mod Consistent
use rabaska.Prelude.{
  ℕ, ◌+◌, ◌*◌, ◌%◌, ◌^◌, Option, none, some, Bool, true, false, List, [], ◌∷◌, length, ◌==◌,
  if◌then◌else◌, bit_or,
}
use rabaska.Prelude.Bytes.{Bytes, ascii, slice}
use rabaska.Floats.{Floats}
use rabaska.Wire.Types.{Mode, pair, session, seal, open_room, default_codec}
use rabaska.Wire.Beacon.{Beacon, compressed}
use rabaska.Wire.Frame.{Crc}
use rabaska.Crypto.Primitives.{Primitives}
use rabaska.Crypto.Human.{build_hash}
use rabaska.Pipeline.Services.{Fountain}
use rabaska.Pipeline.Receiver.{Receiver}
use rabaska.Handshake.{Send, reveal}
use rabaska.Handshake.Receive.{Receive, IngestResult}
use rabaska.Handshake.Prefix.{hex4}

-- `for b in bytes { n = (n << 8) | *b }` in a word of `w` bits.
unfoldable pub fold_be : ℕ → ℕ → Bytes → ℕ
fold_be w n [] = n
fold_be w n (b ∷ bs) = fold_be w (bit_or ((n * 256) % 2 ^ w) b) bs

-- `Send::held`, `Send::sas` and `Send::expected_hash`, with the methods of the transmitter that they call.
abbrev is_held : Send → Bool
is_held s = s.tx.held

abbrev shown_sas : Send → Option Bytes
shown_sas s = s.sas

abbrev expected_hash : Send → Bytes
expected_hash s = s.tx.plaintext_hash

-- `Send::wire_bytes`; a `usize` of wasm32 has 32 bits.
unfoldable pub wire_bytes : Send → ℕ
unfolding fold_be
wire_bytes s = fold_be 32 0 (slice 0 5 s.tx.beacon.oti)

-- `Send::compressed`
unfoldable is_compressed : Send → Bool
unfolding compressed
is_compressed s = compressed s.tx.beacon

-- `self.rx.beacon().map(f)`
abbrev of_beacon : {A : Type 0} → (Beacon → A) → Option Beacon → Option A
of_beacon f none = none
of_beacon f (some b) = some (f b)

-- `format!("{:?}", mode).to_lowercase()`
abbrev mode_name : Mode → Bytes
mode_name pair = ascii "pair"
mode_name session = ascii "session"
mode_name seal = ascii "seal"
mode_name open_room = ascii "open"

module _ ⦃fountain : Fountain⦄ where
  unfoldable peer_build_hash : Receive → Option Bytes
  peer_build_hash r = of_beacon (λ b. b.build_hash) r.rx.beacon

  unfoldable mode_of : Receive → Option Bytes
  mode_of r = of_beacon (λ b. mode_name b.mode) r.rx.beacon

  unfoldable session_hex : Receive → Option Bytes
  unfolding hex4
  session_hex r = of_beacon (λ b. hex4 b.session_id) r.rx.beacon

  -- `checkpoint`, of `Receive` and of the receiver; the arrays are copied.
  abbrev pub checkpoint : Receive → List Bytes
  checkpoint r = r.rx.seen

  -- `Receiver::progress`, `has_key` and `distinct`
  abbrev pub progress_of : Receiver → ℕ × ℕ
  progress_of r = (r.received, r.needed)

  abbrev has_key : Receiver → Bool
  has_key r = elim r.key [ none ↦ false | some k ↦ true ]

  abbrev pub distinct : Receiver → ℕ
  distinct r = length r.ids

-- `Receive::session_reveal`
unfoldable session_reveal : ⦃crc : Crc⦄ ⦃prim : Primitives⦄ ⦃fountain : Fountain⦄ → Receive → Bytes
unfolding reveal
session_reveal r = reveal r.session

module _ ⦃f : Floats⦄ where
  -- `(received as f32 / needed as f32).min(1.0)`; the quotient is a number, for `needed` is not 0.
  unfoldable pub fraction_of : ℕ → ℕ → f.F
  fraction_of received needed =
      if needed == 0
      then f.of_nat 0
      else (let quotient = f.div (f.of_nat received) (f.of_nat needed) in
          if f.lt (f.of_nat 1) quotient then f.of_nat 1 else quotient)

  -- `IngestResult::fraction` and `Receiver::fraction`
  unfoldable result_fraction : IngestResult → f.F
  unfolding fraction_of
  result_fraction r = fraction_of r.received r.needed

  unfoldable receiver_fraction : ⦃fountain : Fountain⦄ → Receiver → f.F
  unfolding fraction_of
  receiver_fraction r = fraction_of r.received r.needed

-- `build_hash` and `default_symbol_size`
unfoldable bundle_hash : ⦃prim : Primitives⦄ → Bytes → Bytes
unfolding build_hash
bundle_hash bundle = build_hash bundle

abbrev default_symbol_size : ℕ
default_symbol_size = default_codec.symbol_size
