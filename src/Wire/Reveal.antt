-- ===== src/Wire/Reveal.antt =====
-- core/src/wire.rs: the REVEAL frame.
use rabaska.Prelude.{
  ◌≡◌, ◌↔◌, ap, sym, some, List, [], ◌∷◌, ◌++◌, get_or, arith, All, length, subst, ℕ, ◌∙◌,
}
use rabaska.Prelude.Bytes.{
  Bytes, IsByte, IsArray, slice, flat, flat-IsArray, HasWidths, slices-flat, flat-slices,
  length-flat, slice-IsArray,
}
use rabaska.Error.{Result, ok, ◌>>=◌, >>=-eq-ok}
use rabaska.Wire.Types.{reveal_len, reveal_type}
use rabaska.Wire.Frame.{
  Crc, seal_crc, common_header, open_frame, frame, open_frame-frame, frame-IsArray,
  frame-open_frame,
}

pub record Reveal : Type 0 where
  pub sid4 : Bytes
  pub r_nonce : Bytes

-- The Rust types of the fields.
pub record IsWellFormed (r : Reveal) : Type 0 where
  pub sid4 : IsArray 4 r.sid4
  pub r_nonce : IsArray 16 r.r_nonce

-- What `encode` appends between the header and the CRC.
abbrev pub fields : Reveal → List Bytes
fields r = r.sid4 ∷ r.r_nonce ∷ []

abbrev widths : List ℕ
widths = 4 ∷ 16 ∷ []

abbrev pub of_body : Bytes → Reveal
of_body body = record { sid4 = slice 0 4 body; r_nonce = slice 4 20 body }

module _ ⦃crc : Crc⦄ where
  unfoldable pub encode : Reveal → Bytes
  unfolding frame
  encode r = seal_crc (common_header [] reveal_type ++ flat (fields r))

  unfoldable pub decode : Bytes → Result Reveal
  decode bytes = do body ← open_frame bytes reveal_type (some reveal_len); ok (of_body body)

fields-HasWidths : (r : Reveal) → IsWellFormed r → HasWidths widths (fields r)
fields-HasWidths r w = assumption tt

of_fields : List Bytes → Reveal
of_fields fs = record { sid4 = get_or fs 0 []; r_nonce = get_or fs 1 [] }

of_body-flat : (r : Reveal) → IsWellFormed r → of_body (flat (fields r)) ≡ r
unfolding of_fields
of_body-flat r w = ap of_fields (slices-flat widths (fields r) (fields-HasWidths r w))

flat-of_body : (body : Bytes) → length body ≡ 20 → flat (fields (of_body body)) ≡ body
flat-of_body body h = flat-slices widths 0 body (sym h)

of_body-IsWellFormed : (body : Bytes) → IsArray 20 body → IsWellFormed (of_body body)
of_body-IsWellFormed body (len, bs) = record {
  sid4 = slice-IsArray 0 4 body bs (omega arith);
  r_nonce = slice-IsArray 4 20 body bs (omega arith);
}

module _ ⦃crc : Crc⦄ where
  pub encode-IsArray : (r : Reveal) → IsWellFormed r → IsArray reveal_len (encode r)
  unfolding encode
  encode-IsArray r w =
      frame-IsArray 20 reveal_type (flat (fields r)) (omega arith)
        (flat-IsArray widths (fields r) (fields-HasWidths r w))

  pub decode-encode : (r : Reveal) → IsWellFormed r → decode (encode r) ≡ ok r
  unfolding decode encode
  decode-encode r w =
      rw
        (open_frame-frame reveal_type (some reveal_len) (flat (fields r))
          (omega (arith, length-flat widths (fields r) (fields-HasWidths r w))))
        (ap ok (of_body-flat r w))

  encode-decode :
      (bytes : Bytes) (r : Reveal)
      → All IsByte bytes
      → decode bytes ≡ ok r
      → IsWellFormed r × (bytes ≡ encode r)
  unfolding decode encode
  encode-decode bytes r hb h =
      let (body, opened, e) = >>=-eq-ok (open_frame bytes reveal_type (some reveal_len)) _ h in
      let (sealed, fits, bs) =
        frame-open_frame bytes reveal_type (some reveal_len) body hb (λ n. omega arith) opened in
      let len : length body ≡ 20 = omega arith in
      subst (λ q. IsWellFormed q × (bytes ≡ encode q)) (cc e)
        (
          of_body-IsWellFormed body (len, bs),
          sealed ∙ ap (frame reveal_type) (sym (flat-of_body body len)),
        )

  -- On bytes, `decode` returns `r` exactly when `r` has the field widths of the Rust type and the
  -- bytes are `encode r`.
  decode-Reveal_iff :
      (bytes : Bytes) (r : Reveal)
      → All IsByte bytes
      → (decode bytes ≡ ok r) ↔ (IsWellFormed r × (bytes ≡ encode r))
  decode-Reveal_iff bytes r hb = (encode-decode bytes r hb, λ w. rw w.1 (decode-encode r w.0))
