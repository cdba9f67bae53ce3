-- ===== src/Pipeline/Receiver/Opening.antt =====
-- core/src/pipeline.rs: what a plaintext that the receiver delivers has gone through.
use rabaska.Prelude.{
  ◌≡◌, inl, inr, some, none, true, List, [], arith, length, ◌++◌, Option, Option-cases, Bool-cases,
  ap, ◌∙◌, sym, subst,
}
use rabaska.Prelude.Bytes.{Bytes, slice, bytes_eq}
use rabaska.Error.{ok, Result-cases, >>=-eq-ok}
use rabaska.Wire.Frame.{Crc}
use rabaska.Wire.Beacon.{Beacon, aad, compressed}
use rabaska.Wire.Symbol
use rabaska.Crypto.Primitives.{Primitives}
use rabaska.Crypto.Keys.{decrypt}
use rabaska.Pipeline.Services.{Deflate, Fountain}
use rabaska.Pipeline.Compress.{maybe_decompress}
use rabaska.Pipeline.Receiver.{
  Receiver, done, ignored, of_session, open_object, conclude, absorb, ingest_beacon, ingest_symbol,
  ingest,
}
use rabaska.Pipeline.Receiver.Invariant.{IsValid, held-IsValid, absorb_step, absorb_all_keeps}

module _ ⦃crc : Crc⦄ ⦃prim : Primitives⦄ ⦃deflate : Deflate⦄ ⦃fountain : Fountain⦄ where
  -- A ciphertext whose tag verifies under the key and the beacon's associated data, whose body inflates to
  -- the plaintext, which has the length that the beacon declares.
  abbrev pub Opens : Beacon → Bytes → Bytes → Type 0
  Opens b key plaintext =
      (ct body : Bytes) × (prim.aead_decrypt key b.nonce (aad b) ct ≡ some body)
      × (maybe_decompress body (compressed b) ≡ ok plaintext)
      × (length plaintext ≡ b.plaintext_len)

  open_object-Opens :
      (b : Beacon) (key ct plaintext : Bytes)
      → open_object b key ct ≡ ok plaintext
      → Opens b key plaintext
  unfolding open_object decrypt
  open_object-Opens b key ct plaintext h =
      let (body, opened, rest) = >>=-eq-ok (decrypt key b.nonce (aad b) ct) _ h in
      let (p, inflated, checked) = >>=-eq-ok (maybe_decompress body (compressed b)) _ rest in
      let same : p ≡ plaintext = ground arith in
      (ct, body, ground arith, inflated ∙ ap ok same, ground arith)

  -- What a delivery shows of the state before it and after it.
  abbrev pub Delivers : Receiver → Bytes → Receiver → Type 0
  Delivers r plaintext r' =
      (b : Beacon) × (key : Bytes) × (r.beacon ≡ some b)
      × (r.key ≡ some key)
      × Opens b key plaintext
      × (r'.done ≡ true)

  conclude-Opens :
      (b : Beacon) (r : Receiver) (finished : Option Bytes) (plaintext : Bytes)
      → (conclude b (r, finished)).1 ≡ ok (done plaintext)
      → (key : Bytes) × (r.key ≡ some key)
        × Opens b key plaintext
        × ((conclude b (r, finished)).0.done ≡ true)
  unfolding conclude
  conclude-Opens b r none plaintext h = cc
  conclude-Opens b r (some ct) plaintext h = elim (Option-cases r.key) [
    | inl without ↦ absurd (ground arith)
    | inr (key, present) ↦ elim (Result-cases (open_object b key ct)) [
      | inl crash ↦ absurd (ground arith)
      | inr (inl (e, refused)) ↦ absurd (ground arith)
      | inr (inr (p, opened)) ↦
          let same : p ≡ plaintext = ground arith in
          (key, present, open_object-Opens b key ct plaintext (opened ∙ ap ok same), ground arith)
    ]
  ]

  absorb-Delivers :
      (r : Receiver) (packets : List Bytes) (plaintext : Bytes) {b : Beacon}
      → IsValid r
      → r.beacon ≡ some b
      → (absorb r packets).1 ≡ ok (done plaintext)
      → Delivers r plaintext (absorb r packets).0
  absorb-Delivers r packets plaintext {b = b} v hb h =
      let queued = of_session (slice 0 4 b.session_id) r.pending ++ packets in
      let (p, run, _, _, same_key) =
        absorb_all_keeps queued (record r { pending = [] }) none (held-IsValid r [] v) hb in
      let step = absorb_step r packets hb run in
      let (key, present, opens, finished) =
        conclude-Opens b p.0 p.1 plaintext (subst (λ x. x.1 ≡ ok (done plaintext)) step h) in
      (b, key, hb, sym same_key ∙ present, opens, subst (λ x. x.0.done ≡ true) (sym step) finished)

  ingest_symbol-Delivers :
      (r : Receiver) (sf : Symbol.SymbolFrame) (plaintext : Bytes)
      → IsValid r
      → (ingest_symbol r sf).1 ≡ ok (done plaintext)
      → Delivers r plaintext (ingest_symbol r sf).0
  unfolding ingest_symbol
  ingest_symbol-Delivers r sf plaintext v h = elim (Option-cases r.beacon) [
    | inl without ↦ absurd (ground arith)
    | inr (b, present) ↦ elim (Bool-cases (bytes_eq sf.sid4 (slice 0 4 b.session_id))) [
      | inl own ↦
          let step : ingest_symbol r sf ≡ absorb r sf.packets = ground arith in
          let delivered = subst (λ x. x.1 ≡ ok (done plaintext)) step h in
          subst (λ x. Delivers r plaintext x.0) (sym step)
            (absorb-Delivers r sf.packets plaintext v present delivered)
      | inr foreign ↦ absurd (ground arith)
    ]
  ]

  ingest_delivered :
      (r : Receiver) (frame plaintext : Bytes)
      → IsValid r
      → (ingest r frame).1 ≡ ok (done plaintext)
      → (sf : Symbol.SymbolFrame) × (ingest r frame ≡ ingest_symbol r sf)
  unfolding ingest ingest_beacon
  ingest_delivered r frame plaintext v h = elim (Result-cases (Symbol.decode frame)) [
    | inl crash ↦ absurd (ground arith)
    | inr (inl (e, refused)) ↦ absurd (ground arith)
    | inr (inr (sf, got)) ↦ (sf, ground arith)
  ]

  after_done : (r : Receiver) (frame : Bytes) → r.done ≡ true → ingest r frame ≡ (r, ok ignored)
  unfolding ingest
  after_done r frame h = ground arith

  -- Whenever a valid receiver delivers a plaintext, it had a beacon and a key, some ciphertext verified
  -- under that key and the beacon's associated data, its body inflated to that plaintext if the beacon says
  -- that it is compressed, and the plaintext has the declared length; and every later frame is ignored.
  pub ingest-Delivers :
      (r : Receiver) (frame plaintext : Bytes)
      → IsValid r
      → (ingest r frame).1 ≡ ok (done plaintext)
      → Delivers r plaintext (ingest r frame).0
        × ((next : Bytes) → ingest (ingest r frame).0 next ≡ ((ingest r frame).0, ok ignored))
  ingest-Delivers r frame plaintext v h =
      let (sf, step) = ingest_delivered r frame plaintext v h in
      let delivered = subst (λ x. x.1 ≡ ok (done plaintext)) step h in
      let shown : Delivers r plaintext (ingest r frame).0 =
        subst (λ x. Delivers r plaintext x.0) (sym step)
          (ingest_symbol-Delivers r sf plaintext v delivered) in
      let (_, _, _, _, _, finished) = shown in
      (shown, λ next. after_done (ingest r frame).0 next finished)
