-- ===== src/Wire/Frame.antt =====
-- core/src/wire.rs: the common header, the CRC trailer and `open_frame`.
use rabaska.Prelude.{
  ℕ, suc, ◌+◌, ◌-◌, ◌^◌, ◌≤◌, ◌<◌, ◌≡◌, ◌≢◌, ◌↔◌, refl, ap, ◌∙◌, subst, Option, none, some, [], ◌∷◌,
  ◌++◌, arith, length, take, drop, All, ltb, ◌==◌, not, length-append, take-append, drop-append,
  take-append-drop, length-drop, All-drop, All-take, ==_refl, All-append,
}
use rabaska.Prelude.Bytes.{
  Bytes, IsByte, IsArray, to_le-IsArray, slice, byte_at, bytes_eq, to_le, from_le, from_le-to_le,
  to_le-from_le,
}
use rabaska.Error.{
  Result, ok, panic, >>=-eq-ok, ◌>>◌, ensure, truncated, bad_magic, bad_version, bad_frame_type,
  bad_crc,
}
use rabaska.Wire.Types.{magic, version}

-- The crate `crc32fast`: a checksum of 32 bits.
pub record Crc : Type 0 where
  pub crc32 : Bytes → ℕ
  pub crc32_lt : (bs : Bytes) → crc32 bs < 2 ^ 32

-- The length that `open_frame` asks for, and the error of any other.
unfoldable pub check_len : Bytes → Option ℕ → Result (Unit {0})
check_len bytes (some n) = ensure (length bytes == n) (truncated n (length bytes))
check_len bytes none = ensure (not (ltb (length bytes) 8)) (truncated 8 (length bytes))

unfoldable pub common_header : Bytes → ℕ → Bytes
common_header buf ty = (buf ++ magic) ++ version ∷ ty ∷ []

module _ ⦃crc : Crc⦄ where
  unfoldable pub seal_crc : Bytes → Bytes
  seal_crc buf = buf ++ to_le 4 (crc.crc32 buf)

  unfoldable pub open_frame : Bytes → ℕ → Option ℕ → Result Bytes
  open_frame bytes want_type want_len = do
    check_len bytes want_len
    ensure (bytes_eq (slice 0 2 bytes) magic) bad_magic
    ensure (byte_at bytes 2 == version) (bad_version (byte_at bytes 2))
    ensure (byte_at bytes 3 == want_type) (bad_frame_type (byte_at bytes 3))
    let split = length bytes - 4
    let expected = crc.crc32 (take split bytes)
    let got = from_le (drop split bytes)
    ensure (expected == got) (bad_crc expected got)
    ok (slice 4 split bytes)

-- `Peek the frame type without validating anything else.`
unfoldable pub peek_type : Bytes → Result ℕ
peek_type bytes = do
  ensure (not (ltb (length bytes) 4)) (truncated 4 (length bytes))
  ensure (bytes_eq (slice 0 2 bytes) magic) bad_magic
  ensure (byte_at bytes 2 == version) (bad_version (byte_at bytes 2))
  ok (byte_at bytes 3)

-- The lengths that a caller of `open_frame` accepts.
abbrev pub Fits : Option ℕ → ℕ → Type 0
Fits none n = 8 ≤ n
Fits (some k) n = n ≡ k

pub check_len_iff :
    (bytes : Bytes) (want : Option ℕ) → (check_len bytes want ≡ ok tt) ↔ Fits want (length bytes)
unfolding check_len
check_len_iff bytes none = ground arith
check_len_iff bytes (some k) = ground arith

module _ ⦃crc : Crc⦄ where
  -- A whole frame: header, body and CRC.
  unfoldable pub frame : ℕ → Bytes → Bytes
  unfolding seal_crc common_header
  frame ty body = seal_crc (common_header [] ty ++ body)

  pub length-frame : (ty : ℕ) (body : Bytes) → length (frame ty body) ≡ length body + 8
  unfolding frame
  length-frame ty body = omega (
    arith,
    length-append (common_header [] ty ++ body) (to_le 4 (crc.crc32 (common_header [] ty ++ body))),
  )

  pub frame-IsArray :
      (n ty : ℕ) (body : Bytes) → IsByte ty → IsArray n body → IsArray (n + 8) (frame ty body)
  unfolding frame
  frame-IsArray n ty body hty (len, bs) = (
    omega (arith, length-frame ty body),
    All-append IsByte (common_header [] ty ++ body)
        (to_le 4 (crc.crc32 (common_header [] ty ++ body)))
        (All-append IsByte (common_header [] ty) body
          (omega arith, (omega arith, (omega arith, (hty, tt)))) bs)
        (to_le-IsArray 4 (crc.crc32 (common_header [] ty ++ body))).1,
  )

  pub open_frame-frame :
      (ty : ℕ) (want : Option ℕ) (body : Bytes)
      → Fits want (length body + 8)
      → open_frame (frame ty body) ty want ≡ ok body
  unfolding open_frame frame seal_crc common_header bytes_eq
  open_frame-frame ty want body fits = rw (
    (check_len_iff bytes want).1 (subst (Fits want) (omega (arith, length-frame ty body)) fits),
    split_eq,
    take-append pre trailer (length pre) refl,
    drop-append pre trailer (length pre) refl,
    from_le-to_le 4 (crc.crc32 pre) (crc.crc32_lt pre),
    ==_refl (crc.crc32 pre),
    ==_refl ty,
    take-append body trailer (length pre - 4) (omega arith),
  )
    where
      pre : Bytes
      pre = common_header [] ty ++ body

      trailer : Bytes
      trailer = to_le 4 (crc.crc32 pre)

      bytes : Bytes
      bytes = pre ++ trailer

      split_eq : length bytes - 4 ≡ length pre
      split_eq = omega (arith, length-append body trailer)

  -- What a successful `open_frame` has found out.
  open_frame_facts :
      (m0 m1 v t : ℕ) (rest : Bytes) (ty : ℕ) (want : Option ℕ) (body : Bytes)
      → open_frame (m0 ∷ m1 ∷ v ∷ t ∷ rest) ty want ≡ ok body
      → (check_len (m0 ∷ m1 ∷ v ∷ t ∷ rest) want ≡ ok tt)
        × (m0 ≡ 0x52)
        × (m1 ≡ 0x42)
        × (v ≡ version)
        × (t ≡ ty)
        × (crc.crc32 (take (length rest + 4 - 4) (m0 ∷ m1 ∷ v ∷ t ∷ rest))
            ≡ from_le (drop (length rest + 4 - 4) (m0 ∷ m1 ∷ v ∷ t ∷ rest)))
        × (take (length rest + 4 - 4 - 4) rest ≡ body)
  unfolding open_frame bytes_eq
  open_frame_facts m0 m1 v t rest ty want body h =
      let e : suc (suc (suc (suc (length rest)))) ≡ length rest + 4 = omega arith in
      rw (← e) (ground arith)

  frame-open_frame_long :
      (bytes : Bytes) (ty : ℕ) (want : Option ℕ) (body : Bytes)
      → All IsByte bytes
      → 8 ≤ length bytes
      → open_frame bytes ty want ≡ ok body
      → (bytes ≡ frame ty body) × Fits want (length bytes) × All IsByte body
  unfolding frame seal_crc common_header
  frame-open_frame_long (m0 ∷ m1 ∷ v ∷ t ∷ rest) ty want body hb long h =
      let k = length rest - 4 in
      let e : length rest + 4 - 4 ≡ suc (suc (suc (suc k))) = omega arith in
      let e' : suc (suc (suc (suc k))) - 4 ≡ k = omega arith in
      let facts = rw (e, e') at (open_frame_facts m0 m1 v t rest ty want body h) in
      let trailer : to_le 4 (crc.crc32 (m0 ∷ m1 ∷ v ∷ t ∷ take k rest)) ≡ drop k rest =
        ap (to_le 4) facts.5
        ∙ to_le-from_le 4 (drop k rest)
            (omega (arith, length-drop k rest), All-drop IsByte k rest hb.1.1.1.1) in
      (
        cc (take-append-drop k rest, trailer, facts.1, facts.2, facts.3, facts.4, facts.6),
        (check_len_iff _ want).0 facts.0,
        subst (All IsByte) facts.6 (All-take IsByte k rest hb.1.1.1.1),
      )
  frame-open_frame_long _ ty want body hb long h = absurd (omega arith)

  open_frame-Fits :
      (bytes : Bytes) (ty : ℕ) (want : Option ℕ) (body : Bytes)
      → open_frame bytes ty want ≡ ok body
      → Fits want (length bytes)
  unfolding open_frame
  open_frame-Fits bytes ty want body h =
      (check_len_iff bytes want).0 (>>=-eq-ok (check_len bytes want) _ h).1

  -- A frame that opens is the frame of its body, CRC included.
  pub frame-open_frame :
      (bytes : Bytes) (ty : ℕ) (want : Option ℕ) (body : Bytes)
      → All IsByte bytes
      → (Fits want (length bytes) → 8 ≤ length bytes)
      → open_frame bytes ty want ≡ ok body
      → (bytes ≡ frame ty body) × Fits want (length body + 8) × All IsByte body
  frame-open_frame bytes ty want body hb long h =
      let (e, fits, bs) =
        frame-open_frame_long bytes ty want body hb (long (open_frame-Fits bytes ty want body h))
          h in
      (e, subst (Fits want) (ap length e ∙ length-frame ty body) fits, bs)

  pub open_frame-ne-panic :
      (bytes : Bytes) (ty : ℕ) (want : Option ℕ) → open_frame bytes ty want ≢ panic
  unfolding open_frame check_len
  open_frame-ne-panic bytes ty none h = ground arith
  open_frame-ne-panic bytes ty (some n) h = ground arith

  -- A frame that opens as one of a type is seen to be of that type.
  pub open_frame-peek_type :
      (bytes : Bytes) (ty : ℕ) (want : Option ℕ) (body : Bytes)
      → (Fits want (length bytes) → 4 ≤ length bytes)
      → open_frame bytes ty want ≡ ok body
      → peek_type bytes ≡ ok ty
  unfolding open_frame peek_type
  open_frame-peek_type bytes ty want body long h =
      let le = long (open_frame-Fits bytes ty want body h) in
      let (_, _, rest) = >>=-eq-ok (check_len bytes want) _ h in ground arith
