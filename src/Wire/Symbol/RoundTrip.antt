-- ===== src/Wire/Symbol/RoundTrip.antt =====
-- core/src/wire.rs: `SymbolFrame::encode` and `SymbolFrame::decode`.
use rabaska.Prelude.{
  ℕ, ◌≡◌, ◌↔◌, ◌≤◌, ◌+◌, ◌-◌, ◌*◌, ◌%◌, ap, sym, ◌∙◌, none, [], ◌∷◌, ◌++◌, All, length, drop, ltb,
  not, le→ltb, arith, append-nil, All-drop, length-drop,
}
use rabaska.Prelude.Bytes.{
  Bytes, IsByte, slice, byte_at, flat, flat-slices, slice-IsArray, slice_one, slice_rest,
  byte_at-IsByte, to_le, from_le, to_le-from_le, from_le_lt,
}
use rabaska.Error.{ok, panic, ◌>>=◌, truncated, >>=-eq-ok, >>=-eq-panic, ensure-ok, ensure-panic}
use rabaska.Wire.Types.{symbol_overhead, symbol_type}
use rabaska.Wire.Frame.{
  Crc, open_frame, frame, length-frame, open_frame-ne-panic, open_frame-frame, frame-open_frame,
}
use rabaska.Wire.Symbol.{SymbolFrame, IsWellFormed, fields, encode, decode}
use rabaska.Wire.Symbol.Chunks.{chunks_exact, chunks_exact_facts, chunks_exact-eq-panic}
use rabaska.Wire.Symbol.Body.{parse_body, length-body, parse_body-fields}

module _ ⦃crc : Crc⦄ where
  decode_opened :
      (bytes body : Bytes)
      → symbol_overhead ≤ length bytes
      → open_frame bytes symbol_type none ≡ ok body
      → decode bytes ≡ parse_body (length bytes) body
  unfolding decode parse_body
  decode_opened bytes body long opened = rw (le→ltb (length bytes) symbol_overhead long, opened)

  -- What a sender encodes, a receiver decodes.
  pub decode-encode : (s : SymbolFrame) → IsWellFormed s → decode (encode s) ≡ ok s
  unfolding encode
  decode-encode s w =
      decode_opened _ (flat (fields s))
        (omega (arith, length-frame symbol_type (flat (fields s)), length-body s w))
        (open_frame-frame symbol_type none (flat (fields s)) (omega arith))
      ∙ parse_body-fields s w _

parse_body_facts :
    (len : ℕ) (body : Bytes) (s : SymbolFrame)
    → parse_body len body ≡ ok s
    → (length body ≡ 11 + byte_at body 8 * from_le (slice 9 11 body))
      × (chunks_exact (from_le (slice 9 11 body)) (drop 11 body) ≡ ok s.packets)
      × (s.sid4 ≡ slice 0 4 body)
      × (s.frame_id ≡ from_le (slice 4 8 body))
      × (s.packet_len ≡ from_le (slice 9 11 body))
unfolding parse_body
parse_body_facts len body s h = ground arith

split_body :
    (b : Bytes)
    → 11 ≤ length b
    → slice 0 4 b ++ (slice 4 8 b ++ (slice 8 9 b ++ (slice 9 11 b ++ drop 11 b))) ≡ b
split_body b long =
    let rest : drop 11 b ≡ slice 11 (11 + (length b - 11)) b ++ [] =
      sym (append-nil (slice 11 (11 + (length b - 11)) b) ∙ slice_rest 11 b) in
    ap (λ t. slice 0 4 b ++ (slice 4 8 b ++ (slice 8 9 b ++ (slice 9 11 b ++ t)))) rest
    ∙ flat-slices (4 ∷ 4 ∷ 1 ∷ 2 ∷ (length b - 11) ∷ []) 0 b (omega arith)

-- A body that parses has the fields of the frame that it gives.
fields-parse_body :
    (len : ℕ) (body : Bytes) (s : SymbolFrame)
    → All IsByte body
    → parse_body len body ≡ ok s
    → IsWellFormed s × (flat (fields s) ≡ body)
fields-parse_body len body s hb h =
    let (size, chunked, sid4, id, plen) = parse_body_facts len body s h in
    let (pos, packed, count, widths) =
      chunks_exact_facts (from_le (slice 9 11 body)) (byte_at body 8) (drop 11 body) s.packets
        (All-drop IsByte 11 body hb) (omega (arith, length-drop 11 body)) chunked in
    let count_byte = byte_at-IsByte body 8 hb in
    let id_field : to_le 4 s.frame_id ≡ slice 4 8 body =
      ap (to_le 4) id
      ∙ to_le-from_le 4 (slice 4 8 body) (slice-IsArray 4 8 body hb (omega arith)) in
    let plen_field : to_le 2 s.packet_len ≡ slice 9 11 body =
      ap (to_le 2) plen
      ∙ to_le-from_le 2 (slice 9 11 body) (slice-IsArray 9 11 body hb (omega arith)) in
    let count_eq : length s.packets % 256 ≡ byte_at body 8 = omega arith in
    let count_field : length s.packets % 256 ∷ [] ≡ slice 8 9 body =
      ap (λ v. v ∷ []) count_eq ∙ sym (slice_one body 8 (omega arith)) in
    (
      record {
        sid4 = rw sid4 (slice-IsArray 0 4 body hb (omega arith));
        frame_id = rw id (from_le_lt 4 (slice 4 8 body) (slice-IsArray 4 8 body hb (omega arith)));
        packet_len =
            rw plen (from_le_lt 2 (slice 9 11 body) (slice-IsArray 9 11 body hb (omega arith)));
        not_empty = omega arith;
        count = omega arith;
        packets = rw plen widths;
      },
      (λ i. sid4 i ++ (id_field i ++ (count_field i ++ (plen_field i ++ packed i))))
          ∙ split_body body (omega arith),
    )

-- Opening a body with the packet length 0 and nothing behind its 11 bytes.
abbrev pub IsZeroLength : Bytes → Type 0
IsZeroLength body = (length body ≡ 11) × (from_le (slice 9 11 body) ≡ 0)

parse_body-eq-panic : (len : ℕ) (body : Bytes) → (parse_body len body ≡ panic) ↔ IsZeroLength body
unfolding parse_body
parse_body-eq-panic len body = (
  λ h. ground (arith, chunks_exact-eq-panic (from_le (slice 9 11 body)) (drop 11 body)),
  λ h.
      let no_packets : byte_at body 8 * from_le (slice 9 11 body) ≡ 0 = rw h.1 (omega arith) in
      ground (arith, chunks_exact-eq-panic (from_le (slice 9 11 body)) (drop 11 body)),
)

module _ ⦃crc : Crc⦄ where
  decode_ok :
      (bytes : Bytes) (s : SymbolFrame)
      → decode bytes ≡ ok s
      → (open_frame bytes symbol_type none >>= parse_body (length bytes)) ≡ ok s
  unfolding decode parse_body
  decode_ok bytes s h = ensure-ok (not (ltb (length bytes) symbol_overhead)) _ _ h

  decode_panic :
      (bytes : Bytes)
      → decode bytes ≡ panic
      → (open_frame bytes symbol_type none >>= parse_body (length bytes)) ≡ panic
  unfolding decode parse_body
  decode_panic bytes h =
      ensure-panic (not (ltb (length bytes) symbol_overhead))
        (truncated symbol_overhead (length bytes)) _ h

  encode-decode :
      (bytes : Bytes) (s : SymbolFrame)
      → All IsByte bytes
      → decode bytes ≡ ok s
      → IsWellFormed s × (bytes ≡ encode s)
  unfolding encode
  encode-decode bytes s hb h =
      let (body, opened, parsed) =
        >>=-eq-ok (open_frame bytes symbol_type none) (parse_body (length bytes))
          (decode_ok bytes s h) in
      let (sealed, fits, bs) = frame-open_frame bytes symbol_type none body hb (λ n. n) opened in
      let (wf, packed) = fields-parse_body (length bytes) body s bs parsed in
      (wf, sealed ∙ ap (frame symbol_type) (sym packed))

  -- On bytes, `decode` returns `s` exactly when `s` is well formed, its packets not empty, and the
  -- bytes are `encode s`.
  pub decode-SymbolFrame_iff :
      (bytes : Bytes) (s : SymbolFrame)
      → All IsByte bytes
      → (decode bytes ≡ ok s) ↔ (IsWellFormed s × (bytes ≡ encode s))
  decode-SymbolFrame_iff bytes s hb = (encode-decode bytes s hb, λ w. rw w.1 (decode-encode s w.0))

  -- On bytes, `decode` panics exactly on the frames whose body has 11 bytes and the packet length 0,
  -- whatever count of packets they claim.
  pub decode-SymbolFrame-eq-panic :
      (bytes : Bytes)
      → All IsByte bytes
      → (decode bytes ≡ panic)
        ↔ ((body : Bytes) × All IsByte body × IsZeroLength body × (bytes ≡ frame symbol_type body))
  decode-SymbolFrame-eq-panic bytes hb = (
    λ h.
        let (body, opened, parsed) =
          >>=-eq-panic (open_frame bytes symbol_type none) (parse_body (length bytes))
            (open_frame-ne-panic bytes symbol_type none) (decode_panic bytes h) in
        let (sealed, fits, bs) = frame-open_frame bytes symbol_type none body hb (λ n. n) opened in
        (body, bs, (parse_body-eq-panic (length bytes) body).0 parsed, sealed),
    λ w. rw w.3 (
        decode_opened (frame symbol_type w.0) w.0 (omega (arith, length-frame symbol_type w.0, w.2))
          (open_frame-frame symbol_type none w.0 (omega arith))
        ∙ (parse_body-eq-panic _ w.0).1 w.2),
  )
