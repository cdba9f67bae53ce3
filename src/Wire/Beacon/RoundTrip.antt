-- ===== src/Wire/Beacon/RoundTrip.antt =====
-- core/src/wire.rs: `Beacon::encode` and `Beacon::decode` undo one another.
use rabaska.Prelude.{
  ◌≡◌, ◌↔◌, refl, ap, sym, some, List, [], ◌∷◌, get_or, arith, All, length, subst, ◌∙◌,
}
use rabaska.Prelude.Bytes.{
  Bytes, IsByte, IsArray, slice, slices, byte_at, flat, flat-IsArray, HasWidths, slices-flat,
  flat-slices, length-flat, slice-IsArray, slice_one, byte_at-IsByte, byte_at-slice, from_le,
  to_le-IsArray, from_le-to_le, to_le-from_le, from_le_lt,
}
use rabaska.Error.{ok, >>=-eq-ok}
use rabaska.Wire.Types.{
  Mode, mode_byte, mode_from_u8, mode_byte_lt, mode_from_u8-mode_byte, mode_byte-mode_from_u8,
  beacon_len, beacon_type,
}
use rabaska.Wire.Frame.{Crc, open_frame, frame, open_frame-frame, frame-IsArray, frame-open_frame}
use rabaska.Wire.Beacon.{Beacon, IsWellFormed, fields, widths, of_body, encode, decode}

fields-HasWidths : (b : Beacon) → IsWellFormed b → HasWidths widths (fields b)
fields-HasWidths b w = assumption (
  refl,
  tt,
  mode_byte_lt b.mode,
  to_le-IsArray 4 b.plaintext_len,
  to_le-IsArray 2 b.codec.symbol_size,
)

of_fields : Mode → List Bytes → Beacon
of_fields m fs = record {
  mode = m;
  flags = byte_at (get_or fs 1 []) 0;
  session_id = get_or fs 2 [];
  s_eph_pub = get_or fs 3 [];
  nonce = get_or fs 4 [];
  plaintext_len = from_le (get_or fs 5 []);
  oti = get_or fs 6 [];
  codec = record {
    symbol_size = from_le (get_or fs 7 []);
    palette = byte_at (get_or fs 8 []) 0;
    tile_px = byte_at (get_or fs 9 []) 0;
  };
  build_hash = get_or fs 10 [];
}

of_body-slices : (m : Mode) (body : Bytes) → of_body m body ≡ of_fields m (slices widths 0 body)
unfolding of_fields
of_body-slices m body = sym λ i. record (of_body m body) {
  flags = byte_at-slice body 1 i;
  codec = record (of_body m body).codec {
    palette = byte_at-slice body 84 i;
    tile_px = byte_at-slice body 85 i;
  };
}

of_body-flat : (b : Beacon) → IsWellFormed b → of_body b.mode (flat (fields b)) ≡ b
of_body-flat b w =
    of_body-slices b.mode (flat (fields b))
    ∙ ap (of_fields b.mode) (slices-flat widths (fields b) (fields-HasWidths b w))
    ∙ unfold of_fields in
      λ i. record b {
        plaintext_len = from_le-to_le 4 b.plaintext_len w.plaintext_len i;
        codec = record b.codec {
          symbol_size = from_le-to_le 2 b.codec.symbol_size w.symbol_size i;
        };
      }

fields-of_body :
    (m : Mode) (body : Bytes)
    → IsArray 94 body
    → mode_byte m ≡ byte_at body 0
    → fields (of_body m body) ≡ slices widths 0 body
fields-of_body m body (len, bs) e =
    let mode_field : slice 0 1 body ≡ mode_byte m ∷ [] =
      slice_one body 0 (omega arith) ∙ ap (λ v. v ∷ []) (sym e) in
    let len_field =
      to_le-from_le 4 (slice 66 70 body) (slice-IsArray 66 70 body bs (omega arith)) in
    let size_field =
      to_le-from_le 2 (slice 82 84 body) (slice-IsArray 82 84 body bs (omega arith)) in
    rw (
      ← mode_field,
      ← slice_one body 1 (omega arith),
      len_field,
      size_field,
      ← slice_one body 84 (omega arith),
      ← slice_one body 85 (omega arith),
    )

flat-of_body :
    (m : Mode) (body : Bytes)
    → IsArray 94 body
    → mode_byte m ≡ byte_at body 0
    → flat (fields (of_body m body)) ≡ body
flat-of_body m body (len, bs) e =
    ap flat (fields-of_body m body (len, bs) e) ∙ flat-slices widths 0 body (sym len)

of_body-IsWellFormed : (m : Mode) (body : Bytes) → IsArray 94 body → IsWellFormed (of_body m body)
of_body-IsWellFormed m body (len, bs) = record {
  flags = byte_at-IsByte body 1 bs;
  session_id = slice-IsArray 2 10 body bs (omega arith);
  s_eph_pub = slice-IsArray 10 42 body bs (omega arith);
  nonce = slice-IsArray 42 66 body bs (omega arith);
  plaintext_len = from_le_lt 4 (slice 66 70 body) (slice-IsArray 66 70 body bs (omega arith));
  oti = slice-IsArray 70 82 body bs (omega arith);
  symbol_size = from_le_lt 2 (slice 82 84 body) (slice-IsArray 82 84 body bs (omega arith));
  palette = byte_at-IsByte body 84 bs;
  tile_px = byte_at-IsByte body 85 bs;
  build_hash = slice-IsArray 86 94 body bs (omega arith);
}

module _ ⦃crc : Crc⦄ where
  pub encode-IsArray : (b : Beacon) → IsWellFormed b → IsArray beacon_len (encode b)
  unfolding encode
  encode-IsArray b w =
      frame-IsArray 94 beacon_type (flat (fields b)) (omega arith)
        (flat-IsArray widths (fields b) (fields-HasWidths b w))

  -- What a sender encodes, a receiver decodes.
  pub decode-encode : (b : Beacon) → IsWellFormed b → decode (encode b) ≡ ok b
  unfolding decode encode
  decode-encode b w =
      rw
        (
          open_frame-frame beacon_type (some beacon_len) (flat (fields b))
              (omega (arith, length-flat widths (fields b) (fields-HasWidths b w))),
          mode_from_u8-mode_byte b.mode,
        )
        (ap ok (of_body-flat b w))

  encode-decode :
      (bytes : Bytes) (b : Beacon)
      → All IsByte bytes
      → decode bytes ≡ ok b
      → IsWellFormed b × (bytes ≡ encode b)
  unfolding decode encode
  encode-decode bytes b hb h =
      let (body, opened, e) = >>=-eq-ok (open_frame bytes beacon_type (some beacon_len)) _ h in
      let (mode, known, e') = >>=-eq-ok (mode_from_u8 (byte_at body 0)) _ e in
      let (sealed, fits, bs) =
        frame-open_frame bytes beacon_type (some beacon_len) body hb (λ n. omega arith) opened in
      let len : length body ≡ 94 = omega arith in
      subst (λ q. IsWellFormed q × (bytes ≡ encode q)) (cc e')
        (
          of_body-IsWellFormed mode body (len, bs),
          sealed
              ∙ ap (frame beacon_type)
                  (sym (flat-of_body mode body (len, bs) (mode_byte-mode_from_u8 _ mode known))),
        )

  -- On bytes, `decode` returns `b` exactly when `b` has the field widths of the Rust type and the
  -- bytes are `encode b`.
  pub decode-Beacon_iff :
      (bytes : Bytes) (b : Beacon)
      → All IsByte bytes
      → (decode bytes ≡ ok b) ↔ (IsWellFormed b × (bytes ≡ encode b))
  decode-Beacon_iff bytes b hb = (encode-decode bytes b hb, λ w. rw w.1 (decode-encode b w.0))
