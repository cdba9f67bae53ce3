-- ===== src/Pipeline/Transfer/Sending.antt =====
-- core/src/pipeline.rs: what `Transmitter::new` offers, and that its frames carry nothing else.
use rabaska.Prelude.{
  ℕ, zero, suc, ◌≡◌, ◌≤◌, ◌<◌, ◌+◌, ◌%◌, ◌^◌, max, ◌⊎◌, inl, inr, refl, ap, subst, ◌∙◌, Bool, true,
  false, ◌||◌, List, length, All, Bool-cases, ◌==◌, ==_refl, arith,
}
use native.Mathlib.Nat.{mod-eq_of_lt}
use rabaska.Prelude.Bytes.{Bytes, IsArray, slice}
use rabaska.Error.{ok}
use rabaska.Wire.Frame.{Crc}
use rabaska.Wire.Beacon
use rabaska.Wire.Beacon.{Beacon, aad, compressed}
use rabaska.Wire.Beacon.RoundTrip as BeaconTrip
use rabaska.Wire.Symbol
use rabaska.Wire.Symbol.{packets_per_frame}
use rabaska.Wire.Symbol.RoundTrip as SymbolTrip
use rabaska.Crypto.Primitives.{Primitives}
use rabaska.Crypto.Keys.{encrypt, decrypt-encrypt}
use rabaska.Crypto.Human.{complete_hash}
use rabaska.Pipeline.Services.{Deflate, Fountain}
use rabaska.Pipeline.Compress.{
  maybe_compress, maybe_decompress, inflate_limit, maybe_decompress-maybe_compress,
}
use rabaska.Pipeline.Transmitter.{
  Transmitter, TransmitConfig, OpticalFrame, beacon_frame, symbol_frame, frame_bytes, flags_of,
  unsent_beacon, new, next_frame_at,
}
use rabaska.Pipeline.Transmitter.Validity.{
  IsValid, window, wrap, advance, symbols, beacon_step, symbol_step, wrap-IsValid, advance-IsValid,
  next_frame_at_le, symbols-IsWellFormed,
}
use rabaska.Pipeline.Transmitter.Start.{IsUsable, sender_new-IsValid}
use rabaska.Pipeline.Receiver.{open_object}
use rabaska.Pipeline.Transfer.{IsFrom, Recovers, Offers, IsFrameOf}

pub window-IsFrom :
    (n : ℕ) (packets : List Bytes) (k : ℕ)
    → 0 < length packets
    → All (IsFrom packets) (window n packets k)
window-IsFrom zero packets k pos = tt
window-IsFrom (suc n) packets k pos =
    ((k % length packets, omega arith, refl), window-IsFrom n packets (k + 1) pos)

-- The transmitter of a beacon, a pool and a payload, at some point of its stream.
pub record Sends ⦃crc : Crc⦄ ⦃prim : Primitives⦄ (b : Beacon) (pool : List Bytes) (payload : Bytes)
    (t : Transmitter) : Type 0 where
  pub valid : IsValid t
  pub beacon : t.beacon ≡ b
  pub packets : t.packets ≡ pool
  pub plaintext_hash : t.plaintext_hash ≡ complete_hash b.session_id payload

compressed-flags_of : (c a : Bool) (b : Beacon) → b.flags ≡ flags_of c a → compressed b ≡ c
unfolding compressed flags_of
compressed-flags_of true true b e = rw e refl
compressed-flags_of true false b e = rw e refl
compressed-flags_of false true b e = rw e refl
compressed-flags_of false false b e = rw e refl

module _ ⦃crc : Crc⦄ ⦃prim : Primitives⦄ (b : Beacon) (pool : List Bytes) (payload : Bytes) where
  symbols-IsFrameOf :
      (t : Transmitter) (n : ℕ)
      → Sends b pool payload t
      → n ≤ 255
      → IsFrameOf b pool (Symbol.encode (symbols t n))
  symbols-IsFrameOf t n s le = inr (
    symbols t n,
    SymbolTrip.decode-encode (symbols t n) (symbols-IsWellFormed t n s.valid le),
    ap (λ u. slice 0 4 u.session_id) s.beacon,
    subst (λ ps. All (IsFrom ps) (window n t.packets t.cursor)) s.packets
        (window-IsFrom n t.packets t.cursor (let c = s.valid.cursor in omega arith)),
  )

  pub wrap-Sends : (t : Transmitter) → Sends b pool payload t → Sends b pool payload (wrap t)
  unfolding wrap
  wrap-Sends t s = record {
    valid = wrap-IsValid t s.valid;
    beacon = s.beacon;
    packets = s.packets;
    plaintext_hash = s.plaintext_hash;
  }

  pub advance-Sends :
      (t : Transmitter) (n : ℕ) → Sends b pool payload t → Sends b pool payload (advance t n)
  unfolding advance
  advance-Sends t n s = record {
    valid = advance-IsValid t n s.valid;
    beacon = s.beacon;
    packets = s.packets;
    plaintext_hash = s.plaintext_hash;
  }

  -- The next frame, for whatever rung, is one of the transmitter's.
  pub next_frame_at-Sends :
      (t : Transmitter) (capacity : ℕ)
      → Sends b pool payload t
      → (p : Transmitter × OpticalFrame) × (next_frame_at t capacity ≡ ok p)
        × Sends b pool payload p.0
        × IsFrameOf b pool (frame_bytes p.1)
        × (p.0.beacon_interval ≡ t.beacon_interval)
  unfolding next_frame_at frame_bytes wrap advance
  next_frame_at-Sends t capacity s =
      let n = max (packets_per_frame capacity t.packet_len) 1 in
      elim (Bool-cases (t.held || t.frame_id % t.beacon_interval == 0)) [
        | inl due ↦ (
          (wrap t, beacon_frame t.beacon_bytes),
          beacon_step t n s.valid due,
          wrap-Sends t s,
          inl (
              ap Beacon.decode s.valid.beacon_bytes
              ∙ BeaconTrip.decode-encode t.beacon s.valid.beacon
              ∙ ap ok s.beacon),
          refl,
        )
        | inr symbol ↦ (
          (advance t n, symbol_frame (Symbol.encode (symbols t n))),
          symbol_step t n s.valid symbol,
          advance-Sends t n s,
          symbols-IsFrameOf t n s (next_frame_at_le capacity t.packet_len),
          refl,
        )
      ]

module _ ⦃crc : Crc⦄ ⦃prim : Primitives⦄ ⦃deflate : Deflate⦄ ⦃fountain : Fountain⦄
    (key nonce : Bytes) (cfg : TransmitConfig) (payload : Bytes) where
  -- The object that `new` hands to the fountain code.
  abbrev pub sent_object : Bytes
  sent_object =
      encrypt key nonce (aad (unsent_beacon cfg nonce (maybe_compress payload).1 (length payload)))
        (maybe_compress payload).0

  pub new-Sends :
      IsUsable cfg
      → IsArray 24 nonce
      → Sends
          (new key nonce cfg payload).beacon
          (new key nonce cfg payload).packets
          payload
          (new key nonce cfg payload)
  unfolding new unsent_beacon
  new-Sends usable hn = record {
    valid = sender_new-IsValid key nonce cfg payload usable hn;
    beacon = refl;
    packets = refl;
    plaintext_hash = refl;
  }

  -- The receiver's side of `new`: whoever holds the key opens the object to the payload.
  pub new_opens :
      length payload < 256 ^ 4
      → (length payload ≤ inflate_limit) ⊎ ((maybe_compress payload).1 ≡ false)
      → open_object (new key nonce cfg payload).beacon key sent_object ≡ ok payload
  unfolding new unsent_beacon aad open_object
  new_opens lt fits =
      let b = (new key nonce cfg payload).beacon in
      let c = (maybe_compress payload).1 in
      let body = (maybe_compress payload).0 in
      let flag : compressed b ≡ c = compressed-flags_of c cfg.sender_auth b refl in
      let opened = decrypt-encrypt key nonce (aad b) body in
      let inflated : maybe_decompress body (compressed b) ≡ ok payload =
        ap (maybe_decompress body) flag ∙ (maybe_decompress-maybe_compress payload fits).0 in
      let len : (length payload == length payload % 256 ^ 4) ≡ true =
        ap (λ n. length payload == n) (mod-eq_of_lt lt) ∙ ==_refl (length payload) in
      rw (opened, inflated, len)

  -- A new transmitter offers its payload.
  pub new-Offers :
      length payload < 256 ^ 4
      → (length payload ≤ inflate_limit) ⊎ ((maybe_compress payload).1 ≡ false)
      → Recovers
          (new key nonce cfg payload).beacon.oti
          sent_object
          (new key nonce cfg payload).packets
      → Offers (new key nonce cfg payload).beacon (new key nonce cfg payload).packets key payload
  new-Offers lt fits law = record {
    object = sent_object;
    opens = new_opens lt fits;
    recovers = law;
  }
