-- ===== src/Wire/PairReq.antt =====
-- core/src/wire.rs: the PAIR_REQ frame.
use rabaska.Prelude.{
  ℕ, ◌≡◌, ◌↔◌, refl, ap, sym, ◌∙◌, Bool, some, List, [], ◌∷◌, ◌++◌, get_or, arith, All, length,
  subst,
}
use rabaska.Prelude.Bytes.{
  Bytes, IsByte, IsArray, slice, byte_at, flat, flat-IsArray, slices, HasWidths, slices-flat,
  flat-slices, slice_one, length-flat, slice-IsArray, byte_at-IsByte,
}
use rabaska.Error.{Result, ok, ◌>>=◌, >>=-eq-ok}
use rabaska.Wire.Types.{pair_req_len, pair_req_type, has_flag, has_id_hint_flag}
use rabaska.Wire.Frame.{
  Crc, seal_crc, common_header, open_frame, frame, open_frame-frame, frame-IsArray,
  frame-open_frame,
}

pub record PairReq : Type 0 where
  pub flags : ℕ
  pub session_id : Bytes
  pub r_eph_pub : Bytes
  pub id_hint : Bytes
  pub r_commit : Bytes

-- The Rust types of the fields.
pub record IsWellFormed (p : PairReq) : Type 0 where
  pub flags : IsByte p.flags
  pub session_id : IsArray 8 p.session_id
  pub r_eph_pub : IsArray 32 p.r_eph_pub
  pub id_hint : IsArray 4 p.id_hint
  pub r_commit : IsArray 16 p.r_commit

-- What `encode` appends between the header and the CRC.
abbrev fields : PairReq → List Bytes
fields p = (p.flags ∷ []) ∷ p.session_id ∷ p.r_eph_pub ∷ p.id_hint ∷ p.r_commit ∷ []

abbrev widths : List ℕ
widths = 1 ∷ 8 ∷ 32 ∷ 4 ∷ 16 ∷ []

abbrev of_body : Bytes → PairReq
of_body body = record {
  flags = byte_at body 0;
  session_id = slice 1 9 body;
  r_eph_pub = slice 9 41 body;
  id_hint = slice 41 45 body;
  r_commit = slice 45 61 body;
}

unfoldable pub has_id_hint : PairReq → Bool
has_id_hint p = has_flag p.flags has_id_hint_flag

module _ ⦃crc : Crc⦄ where
  unfoldable pub encode : PairReq → Bytes
  unfolding frame
  encode p = seal_crc (common_header [] pair_req_type ++ flat (fields p))

  unfoldable pub decode : Bytes → Result PairReq
  decode bytes = do body ← open_frame bytes pair_req_type (some pair_req_len); ok (of_body body)

fields-HasWidths : (p : PairReq) → IsWellFormed p → HasWidths widths (fields p)
fields-HasWidths p w = assumption (refl, tt)

of_fields : List Bytes → PairReq
of_fields fs = record {
  flags = byte_at (get_or fs 0 []) 0;
  session_id = get_or fs 1 [];
  r_eph_pub = get_or fs 2 [];
  id_hint = get_or fs 3 [];
  r_commit = get_or fs 4 [];
}

of_body-flat : (p : PairReq) → IsWellFormed p → of_body (flat (fields p)) ≡ p
unfolding of_fields
of_body-flat p w = ap of_fields (slices-flat widths (fields p) (fields-HasWidths p w))

flat-of_body : (body : Bytes) → length body ≡ 61 → flat (fields (of_body body)) ≡ body
flat-of_body body h =
    ap (λ f. f ++ flat (slices (8 ∷ 32 ∷ 4 ∷ 16 ∷ []) 1 body))
      (sym (slice_one body 0 (omega arith)))
    ∙ flat-slices widths 0 body (sym h)

of_body-IsWellFormed : (body : Bytes) → IsArray 61 body → IsWellFormed (of_body body)
of_body-IsWellFormed body (len, bs) = record {
  flags = byte_at-IsByte body 0 bs;
  session_id = slice-IsArray 1 9 body bs (omega arith);
  r_eph_pub = slice-IsArray 9 41 body bs (omega arith);
  id_hint = slice-IsArray 41 45 body bs (omega arith);
  r_commit = slice-IsArray 45 61 body bs (omega arith);
}

module _ ⦃crc : Crc⦄ where
  pub encode-IsArray : (p : PairReq) → IsWellFormed p → IsArray pair_req_len (encode p)
  unfolding encode
  encode-IsArray p w =
      frame-IsArray 61 pair_req_type (flat (fields p)) (omega arith)
        (flat-IsArray widths (fields p) (fields-HasWidths p w))

  pub decode-encode : (p : PairReq) → IsWellFormed p → decode (encode p) ≡ ok p
  unfolding decode encode
  decode-encode p w =
      rw
        (open_frame-frame pair_req_type (some pair_req_len) (flat (fields p))
          (omega (arith, length-flat widths (fields p) (fields-HasWidths p w))))
        (ap ok (of_body-flat p w))

  encode-decode :
      (bytes : Bytes) (p : PairReq)
      → All IsByte bytes
      → decode bytes ≡ ok p
      → IsWellFormed p × (bytes ≡ encode p)
  unfolding decode encode
  encode-decode bytes p hb h =
      let (body, opened, e) = >>=-eq-ok (open_frame bytes pair_req_type (some pair_req_len)) _ h in
      let (sealed, fits, bs) =
        frame-open_frame bytes pair_req_type (some pair_req_len) body hb (λ n. omega arith)
          opened in
      let len : length body ≡ 61 = omega arith in
      subst (λ q. IsWellFormed q × (bytes ≡ encode q)) (cc e)
        (
          of_body-IsWellFormed body (len, bs),
          sealed ∙ ap (frame pair_req_type) (sym (flat-of_body body len)),
        )

  -- On bytes, `decode` returns `p` exactly when `p` has the field widths of the Rust type and the
  -- bytes are `encode p`.
  decode-PairReq_iff :
      (bytes : Bytes) (p : PairReq)
      → All IsByte bytes
      → (decode bytes ≡ ok p) ↔ (IsWellFormed p × (bytes ≡ encode p))
  decode-PairReq_iff bytes p hb = (encode-decode bytes p hb, λ w. rw w.1 (decode-encode p w.0))
