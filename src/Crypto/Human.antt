-- ===== src/Crypto/Human.antt =====
-- core/src/crypto.rs: hashes that people compare, and the commitment to the receiver's nonce.
use rabaska.Prelude.{
  ℕ, zero, suc, ◌+◌, ◌-◌, ◌*◌, ◌/◌, ◌%◌, Bool, [], ◌∷◌, ◌++◌, length, replicate, ltb, ◌==◌, bit_or,
  bit_xor, if◌then◌else◌,
}
use rabaska.Prelude.Bytes.{Bytes, ascii, flat, slice, byte_at}
use rabaska.Crypto.Primitives.{Primitives}

abbrev pub info_sas : Bytes
info_sas = ascii "rabaska/v2/sas"

abbrev info_commit : Bytes
info_commit = ascii "rabaska/v2/commit"

abbrev info_idhint : Bytes
info_idhint = ascii "rabaska/v2/idhint"

abbrev info_complete : Bytes
info_complete = ascii "rabaska/v2/complete"

-- `for i in i..16 { diff |= expect[i] ^ claimed[i]; }`, `rounds` rounds
unfoldable pub diff_loop : ℕ → ℕ → ℕ → Bytes → Bytes → ℕ
diff_loop zero i diff expect claimed = diff
diff_loop (suc rounds) i diff expect claimed =
    diff_loop rounds (i + 1) (bit_or diff (bit_xor (byte_at expect i) (byte_at claimed i))) expect
      claimed

-- `u32::from_be_bytes`
unfoldable pub from_be : ℕ → Bytes → ℕ
from_be acc [] = acc
from_be acc (b ∷ bs) = from_be (acc * 256 + b) bs

-- The decimal digits of a `u32`, which has at most ten.
unfoldable pub decimal : ℕ → ℕ → Bytes
decimal zero n = []
decimal (suc fuel) n =
    let rest = decimal fuel (n / 10) in
    if ltb n 10 then (b'0' + n) ∷ [] else rest ++ (b'0' + n % 10) ∷ []

-- `format!("{n:05}")`
unfoldable pub format_05 : ℕ → Bytes
unfolding decimal
format_05 n = let digits = decimal 10 n in replicate (5 - length digits) b'0' ++ digits

module _ ⦃prim : Primitives⦄ where
  unfoldable pub commit : Bytes → Bytes → Bytes → Bytes
  commit session_id r_eph_pub r_nonce =
      slice 0 16 (prim.sha256 (flat (info_commit ∷ session_id ∷ r_eph_pub ∷ r_nonce ∷ [])))

  unfoldable pub verify_commit : Bytes → Bytes → Bytes → Bytes → Bool
  unfolding diff_loop commit
  verify_commit session_id r_eph_pub r_nonce claimed =
      diff_loop 16 0 0 (commit session_id r_eph_pub r_nonce) claimed == 0

  unfoldable pub sas : Bytes → Bytes → Bytes → Bytes → Bytes
  unfolding format_05 from_be
  sas session_id r_eph_pub s_eph_pub r_nonce =
      let d = prim.sha256 (flat (info_sas ∷ session_id ∷ r_eph_pub ∷ s_eph_pub ∷ r_nonce ∷ [])) in
      format_05 (from_be 0 (slice 0 4 d) % 100_000)

  unfoldable pub id_hint : Bytes → Bytes
  id_hint id_pub = slice 0 4 (prim.sha256 (info_idhint ++ id_pub))

  unfoldable pub complete_hash : Bytes → Bytes → Bytes
  complete_hash session_id plaintext =
      slice 0 8 (prim.sha256 (flat (info_complete ∷ session_id ∷ plaintext ∷ [])))

  unfoldable pub build_hash : Bytes → Bytes
  build_hash bundle = slice 0 8 (prim.sha256 bundle)
