-- ===== src/Harness/WireBytes.antt =====
-- harness/src/main.rs and core/src/wasm.rs: both `wire_bytes` give the length of what the codec carries.
use rabaska.Prelude.{
  ℕ, ◌≡◌, ◌≤◌, ◌<◌, ◌+◌, ◌*◌, ◌%◌, ◌^◌, refl, sym, ap, ◌∙◌, subst, [], ◌∷◌, length, All, bit_or,
  replicate, arith,
}
use native.Mathlib.Nat.{mod-eq_of_lt}
use rabaska.Prelude.Bits.{bit_or-add}
use rabaska.Prelude.Bytes.{Bytes, IsByte, IsArray, slice, slice-IsArray, array}
use rabaska.Error.{ok}
use rabaska.Wire.Frame.{Crc}
use rabaska.Wire.Beacon.RoundTrip as BeaconTrip
use rabaska.Crypto.Primitives.{Primitives}
use rabaska.Crypto.Human.{from_be}
use rabaska.Pipeline.Services.{Deflate, Fountain}
use rabaska.Pipeline.Transmitter as Tx
use rabaska.Pipeline.Transmitter.{TransmitConfig}
use rabaska.Pipeline.Transmitter.Start.{IsUsable, sender_new-IsValid}
use rabaska.Pipeline.Transfer.Sending.{sent_object}
use rabaska.Handshake.{Send}
use rabaska.Handshake.Getters as Getters
use rabaska.Handshake.Getters.{fold_be}
use rabaska.Harness.Commands.{wire_key, wire_config, wire_bytes}

from_be_le : (n : ℕ) (bs : Bytes) → n ≤ from_be n bs
unfolding from_be
from_be_le n [] = omega arith
from_be_le n (b ∷ bs) = let more = from_be_le (n * 256 + b) bs in omega arith

-- In a word that is wide enough, the loop reads a big-endian number.
fold_be_lem :
    (w n : ℕ) (bs : Bytes) → All IsByte bs → from_be n bs < 2 ^ w → fold_be w n bs ≡ from_be n bs
unfolding fold_be from_be
fold_be_lem w n [] all fits = refl
fold_be_lem w n (b ∷ bs) (byte, all) fits =
    let le = from_be_le (n * 256 + b) bs in
    let small : n * 256 < 2 ^ w = omega arith in
    let next : bit_or ((n * 256) % 2 ^ w) b ≡ n * 256 + b =
      ap (λ m. bit_or m b) (mod-eq_of_lt small) ∙ bit_or-add 8 n b byte in
    ap (λ m. fold_be w m bs) next ∙ fold_be_lem w (n * 256 + b) bs all fits

module _ ⦃fountain : Fountain⦄ where
  -- The transmission information starts with the object's length, in five bytes, big-endian.
  pub record StartsWithLength : Type 0 where
    pub config :
        (object : Bytes) (symbol : ℕ)
        → length object < 256 ^ 5
        → from_be 0 (slice 0 5 (fountain.config object symbol)) ≡ length object

  config_length :
      StartsWithLength
      → (w : ℕ) (object : Bytes) (symbol : ℕ) → length object < 256 ^ 5
      → length object < 2 ^ w
      → fold_be w 0 (slice 0 5 (fountain.config object symbol)) ≡ length object
  config_length law w object symbol fits narrow =
      let same = law.config object symbol fits in
      let all =
        slice-IsArray 0 5 (fountain.config object symbol) (fountain.config-IsArray object symbol).1
          (let twelve = (fountain.config-IsArray object symbol).0 in omega arith) in
      fold_be_lem w 0 (slice 0 5 (fountain.config object symbol)) all.1
        (subst (λ n. n < 2 ^ w) (sym same) narrow)
      ∙ same

module _ ⦃crc : Crc⦄ ⦃prim : Primitives⦄ ⦃deflate : Deflate⦄ ⦃fountain : Fountain⦄ where
  wire_config-IsUsable : IsUsable wire_config
  wire_config-IsUsable = record {
    session_id = array 8 (replicate 8 0) refl;
    s_eph_pub = array 32 (replicate 32 0) refl;
    build_hash = array 8 (replicate 8 0) refl;
    symbol_size_min = omega arith;
    symbol_size_max = omega arith;
    palette = omega arith;
    tile_px = omega arith;
  }

  sent_length :
      StartsWithLength
      → (key nonce : Bytes) (cfg : TransmitConfig) (payload : Bytes) (w : ℕ)
      → length (sent_object key nonce cfg payload) < 256 ^ 5
      → length (sent_object key nonce cfg payload) < 2 ^ w
      → fold_be w 0 (slice 0 5 (Tx.new key nonce cfg payload).beacon.oti)
        ≡ length (sent_object key nonce cfg payload)
  unfolding Tx.new
  sent_length law key nonce cfg payload w fits narrow =
      config_length law w (sent_object key nonce cfg payload) cfg.codec.symbol_size fits narrow

  -- If the transmission information starts with the length of the object, in five bytes, what `wire_bytes` of the
  -- harness gives for a payload is the length of its encrypted body, and nothing panics on the way; and a sender's
  -- `wire_bytes` is the length of its own encrypted body, if that is shorter than 4 GiB.
  pub wire_bytes_lem :
      (nonce payload key nonce' : Bytes) (cfg : TransmitConfig) (send : Send)
      → StartsWithLength
      → IsArray 24 nonce
      → length (sent_object wire_key nonce wire_config payload) < 256 ^ 5
      → send.tx ≡ Tx.new key nonce' cfg payload
      → length (sent_object key nonce' cfg payload) < 2 ^ 32
      → (wire_bytes nonce payload ≡ ok (length (sent_object wire_key nonce wire_config payload)))
        × (Getters.wire_bytes send ≡ length (sent_object key nonce' cfg payload))
  unfolding wire_bytes Getters.wire_bytes
  wire_bytes_lem nonce payload key nonce' cfg send law hn fits made narrow =
      let tx = Tx.new wire_key nonce wire_config payload in
      let valid = sender_new-IsValid wire_key nonce wire_config payload wire_config-IsUsable hn in
      let read = BeaconTrip.decode-encode tx.beacon valid.beacon in
      (
        rw read (ap ok (sent_length law wire_key nonce wire_config payload 64 fits (omega arith))),
        ap (λ t. fold_be 32 0 (slice 0 5 t.beacon.oti)) made
            ∙ sent_length law key nonce' cfg payload 32 (omega arith) narrow,
      )
