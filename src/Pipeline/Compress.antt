-- ===== src/Pipeline/Compress.antt =====
-- core/src/pipeline.rs: the sniffer, `maybe_compress` and `maybe_decompress`.
use rabaska.Prelude.{
  ℕ, ◌≡◌, ◌≤◌, ◌+◌, ◌*◌, ◌/◌, none, some, ◌⊎◌, Bool, true, false, not, ◌&&◌, ◌||◌, List, [], ◌∷◌,
  ◌++◌, length, take, ltb, leb, arith, if◌then◌else◌, Bool-cases, inl, inr, leb→le, le→leb, ap,
  length-take, length-append, take-append_long,
}
use rabaska.Prelude.Bytes.{Bytes, ascii, slice, bytes_eq, bytes_eq→eq, slice-append}
use rabaska.Error.{Result, ok, err, decompress}
use rabaska.Pipeline.Services.{Deflate}

abbrev min_compress_bytes : ℕ
min_compress_bytes = 256

-- `MAGICS`
abbrev magics : List Bytes
magics =
    (0xFF ∷ 0xD8 ∷ 0xFF ∷ [])
    ∷ (0x89 ∷ 0x50 ∷ 0x4E ∷ 0x47 ∷ 0x0D ∷ 0x0A ∷ 0x1A ∷ 0x0A ∷ [])
    ∷ ascii "GIF87a"
    ∷ ascii "GIF89a"
    ∷ (0x50 ∷ 0x4B ∷ 0x03 ∷ 0x04 ∷ [])
    ∷ (0x1F ∷ 0x8B ∷ [])
    ∷ (0x28 ∷ 0xB5 ∷ 0x2F ∷ 0xFD ∷ [])
    ∷ ascii "BZh"
    ∷ (0xFD ∷ 0x37 ∷ 0x7A ∷ 0x58 ∷ 0x5A ∷ 0x00 ∷ [])
    ∷ (0x37 ∷ 0x7A ∷ 0xBC ∷ 0xAF ∷ 0x27 ∷ 0x1C ∷ [])
    ∷ (0x52 ∷ 0x61 ∷ 0x72 ∷ 0x21 ∷ 0x1A ∷ 0x07 ∷ [])
    ∷ ascii "%PDF"
    ∷ ascii "OggS"
    ∷ ascii "fLaC"
    ∷ (0x00 ∷ 0x00 ∷ 0x01 ∷ 0xBA ∷ [])
    ∷ []

-- `b.starts_with(m)`
unfoldable pub starts_with : Bytes → Bytes → Bool
unfolding bytes_eq
starts_with b m = bytes_eq (take (length m) b) m

-- `MAGICS.iter().any(|m| b.starts_with(m))`
unfoldable pub any_magic : List Bytes → Bytes → Bool
unfolding starts_with
any_magic [] b = false
any_magic (m ∷ ms) b = starts_with b m || any_magic ms b

unfoldable pub is_already_compressed : Bytes → Bool
is_already_compressed b =
    if any_magic magics b
    then true
    else if leb 12 (length b) && bytes_eq (slice 4 8 b) (ascii "ftyp")
    then true
    else if leb 12 (length b)
        && bytes_eq (slice 0 4 b) (ascii "RIFF")
        && not (bytes_eq (slice 8 12 b) (ascii "WAVE"))
    then true
    else false

-- `64 << 20`
abbrev pub inflate_limit : ℕ
inflate_limit = 64 * 1_048_576

module _ ⦃deflate : Deflate⦄ where
  unfoldable pub maybe_compress : Bytes → Bytes × Bool
  maybe_compress plain =
      if ltb (length plain) min_compress_bytes || is_already_compressed plain
      then (plain, false)
      else let margin = length plain / 32 in
        let z = deflate.compress plain in
        if ltb (length z + margin) (length plain) then (z, true) else (plain, false)

  unfoldable pub maybe_decompress : Bytes → Bool → Result Bytes
  maybe_decompress body compressed =
      if not compressed
      then ok body
      else elim (deflate.decompress body inflate_limit) [ some bs ↦ ok bs | none ↦ err decompress ]

  -- `maybe_compress` never makes a payload longer, and `maybe_decompress` gives the payload back,
  -- provided that it is at most 64 MiB or was not compressed.
  pub maybe_decompress-maybe_compress :
      (plain : Bytes)
      → (length plain ≤ inflate_limit) ⊎ ((maybe_compress plain).1 ≡ false)
      → (maybe_decompress (maybe_compress plain).0 (maybe_compress plain).1 ≡ ok plain)
        × (length (maybe_compress plain).0 ≤ length plain)
  unfolding maybe_compress maybe_decompress
  maybe_decompress-maybe_compress plain h =
      ground (arith, deflate.decompress-compress plain inflate_limit)

starts_with-append : (b m more : Bytes) → starts_with b m ≡ true → starts_with (b ++ more) m ≡ true
unfolding starts_with
starts_with-append b m more h =
    let same = bytes_eq→eq (take (length m) b) m h in
    let long : length m ≤ length b = omega (arith, ap length same, length-take (length m) b) in
    rw (take-append_long (length m) b more long) h

any_magic-append :
    (ms : List Bytes) (b more : Bytes) → any_magic ms b ≡ true → any_magic ms (b ++ more) ≡ true
unfolding any_magic
any_magic-append [] b more h = h
any_magic-append (m ∷ ms) b more h =
    ground (arith, starts_with-append b m more, any_magic-append ms b more)

-- What a payload starts with decides: bytes added behind a sniffed container do not hide it.
is_already_compressed-append :
    (b more : Bytes) → is_already_compressed b ≡ true → is_already_compressed (b ++ more) ≡ true
unfolding is_already_compressed
is_already_compressed-append b more h = elim (Bool-cases (leb 12 (length b))) [
  | inl long ↦
      let le = leb→le 12 (length b) long in
      let longer = le→leb 12 (length (b ++ more)) (omega (arith, length-append b more)) in
      rw
        (
          slice-append 4 8 b more (omega arith) (omega arith),
          slice-append 0 4 b more (omega arith) (omega arith),
          slice-append 8 12 b more (omega arith) (omega arith),
          longer,
        )
        (ground (arith, any_magic-append magics b more))
  | inr short ↦ ground (arith, any_magic-append magics b more)
]
