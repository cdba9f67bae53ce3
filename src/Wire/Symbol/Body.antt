-- ===== src/Wire/Symbol/Body.antt =====
-- core/src/wire.rs: the body of a SYMBOL frame, as `encode` writes and `decode` reads it.
use rabaska.Prelude.{
  ℕ, ◌≡◌, ◌+◌, ◌-◌, ◌*◌, ◌%◌, refl, subst, ap, sym, ◌∙◌, List, [], ◌∷◌, All, length, drop, get_or,
  ◌==◌, ==_refl, arith, append-nil,
}
use rabaska.Prelude.Bytes.{
  Bytes, IsArray, flat-IsArray, IsByte, slice, slices, byte_at, flat, total, HasWidths, slices-flat,
  length-flat, slice_rest, byte_at-slice, to_le, from_le, to_le-IsArray, from_le-to_le,
}
use rabaska.Error.{Result, ok, ◌>>=◌, ◌>>◌, ensure, truncated}
use rabaska.Wire.Types.{symbol_overhead}
use rabaska.Wire.Symbol.{SymbolFrame, IsWellFormed, fields}
use rabaska.Wire.Symbol.Chunks.{chunks_exact, chunks_exact-flat, flat_packets-IsArray}

-- `decode` after the frame is open.
unfoldable pub parse_body : ℕ → Bytes → Result SymbolFrame
parse_body len body = do
  let count = byte_at body 8
  let packet_len = from_le (slice 9 11 body)
  let need = 11 + count * packet_len
  ensure (length body == need) (truncated (need + symbol_overhead - 11) len)
  packets ← chunks_exact packet_len (drop 11 body)
  ok (record {
    sid4 = slice 0 4 body;
    frame_id = from_le (slice 4 8 body);
    packet_len = packet_len;
    packets = packets;
  })

parse_body_lem :
    (s : SymbolFrame) (len : ℕ) (body : Bytes)
    → byte_at body 8 ≡ length s.packets
    → from_le (slice 9 11 body) ≡ s.packet_len
    → slice 0 4 body ≡ s.sid4
    → from_le (slice 4 8 body) ≡ s.frame_id
    → length body ≡ 11 + length s.packets * s.packet_len
    → chunks_exact s.packet_len (drop 11 body) ≡ ok s.packets
    → parse_body len body ≡ ok s
unfolding parse_body
parse_body_lem s len body count plen sid4 id size chunked =
    rw (plen, count, size, ==_refl (11 + length s.packets * s.packet_len), chunked, sid4, id)

module _ (s : SymbolFrame) (w : IsWellFormed s) where
  packed : Bytes
  packed = flat s.packets

  -- The fields of the body, the packets as one.
  parts : List Bytes
  parts =
      s.sid4
      ∷ to_le 4 s.frame_id
      ∷ (length s.packets % 256 ∷ [])
      ∷ to_le 2 s.packet_len
      ∷ flat s.packets
      ∷ []

  abbrev part_widths : List ℕ
  part_widths = 4 ∷ 4 ∷ 1 ∷ 2 ∷ length s.packets * s.packet_len ∷ []

  parts-HasWidths : HasWidths part_widths parts
  unfolding parts
  parts-HasWidths =
      let count : IsByte (length s.packets % 256) = omega arith in
      assumption (
        refl,
        tt,
        count,
        to_le-IsArray 4 s.frame_id,
        to_le-IsArray 2 s.packet_len,
        flat_packets-IsArray s.packet_len s.packets w.packets,
      )

  flat-parts : flat parts ≡ flat (fields s)
  unfolding parts
  flat-parts = rw append-nil

  part : (k : ℕ) → get_or (slices part_widths 0 (flat (fields s))) k [] ≡ get_or parts k []
  part k =
      ap (λ bs. get_or (slices part_widths 0 bs) k []) (sym flat-parts)
      ∙ ap (λ fs. get_or fs k []) (slices-flat part_widths parts parts-HasWidths)

  pub length-body : length (flat (fields s)) ≡ 11 + length s.packets * s.packet_len
  length-body =
      ap length (sym flat-parts)
      ∙ length-flat part_widths parts parts-HasWidths
      ∙ let e : total part_widths ≡ 11 + length s.packets * s.packet_len = omega arith in e

  pub body-IsArray : IsArray (11 + length s.packets * s.packet_len) (flat (fields s))
  body-IsArray = (
    length-body,
    subst (All IsByte) flat-parts (flat-IsArray part_widths parts parts-HasWidths).1,
  )

  drop-body : drop 11 (flat (fields s)) ≡ flat s.packets
  unfolding parts
  drop-body =
      sym (slice_rest 11 (flat (fields s)))
      ∙ ap (λ n. slice 11 (11 + n) (flat (fields s)))
          (let e : length (flat (fields s)) - 11 ≡ length s.packets * s.packet_len =
              omega (arith, length-body) in
            e)
      ∙ part 4

  pub parse_body-fields : (len : ℕ) → parse_body len (flat (fields s)) ≡ ok s
  unfolding parts
  parse_body-fields len =
      parse_body_lem s len (flat (fields s))
        (sym (byte_at-slice (flat (fields s)) 8)
          ∙ ap (λ f. byte_at f 0) (part 2)
          ∙ let e : length s.packets % 256 ≡ length s.packets = omega (arith, w.count) in e)
        (ap from_le (part 3) ∙ from_le-to_le 2 s.packet_len w.packet_len) (part 0)
        (ap from_le (part 1) ∙ from_le-to_le 4 s.frame_id w.frame_id) length-body
        (ap (chunks_exact s.packet_len) drop-body
          ∙ chunks_exact-flat s.packet_len s.packets w.not_empty w.packets)
