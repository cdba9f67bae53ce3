-- ===== src/Handshake/TypedKey.antt =====
-- core/src/wasm.rs: `base32_groups`, a public key to be typed by hand.
pub mod Digits
pub mod Value
pub mod Injective
use rabaska.Prelude.{
  ℕ, zero, suc, ◌+◌, ◌-◌, ◌*◌, ◌/◌, ◌%◌, ◌^◌, Bool, true, false, ◌&&◌, List, [], ◌∷◌, ◌++◌, ltb,
  leb, ◌==◌, if◌then◌else◌,
}
use rabaska.Prelude.Bytes.{Bytes, ascii, byte_at}
use rabaska.Crypto.Primitives.{Primitives}
use rabaska.Crypto.Human.{id_hint}

-- `A`
abbrev pub alphabet : Bytes
alphabet = ascii "ABCDEFGHIJKLMNOPQRSTUVWXYZ234567"

-- `push`, on the text and the count of characters in it.
unfoldable pub push : ℕ → Bytes × ℕ → Bytes × ℕ
push c (out, count) =
    ((if ltb 0 count && count % 4 == 0 then out ++ b'-' ∷ [] else out) ++ c ∷ [], count + 1)

-- `while n >= 5`; each round takes 5 off, so `n` rounds are enough.
unfoldable pub drain : ℕ → ℕ → ℕ → Bytes × ℕ → ℕ × (Bytes × ℕ)
unfolding push
drain zero bits n out = (n, out)
drain (suc fuel) bits n out = elim (leb 5 n) [
  | false ↦ (n, out)
  | true ↦ drain fuel bits (n - 5) (push (byte_at alphabet (bits / 2 ^ (n - 5) % 32)) out)
]

-- `(bits << 8) | b`, in 32 bits: the low byte is free.
abbrev pub shift_in : ℕ → ℕ → ℕ
shift_in bits b = bits * 256 % 2 ^ 32 + b

-- `for b in key`
unfoldable pub key_loop : Bytes → ℕ → ℕ → Bytes × ℕ → ℕ × ℕ × (Bytes × ℕ)
unfolding drain
key_loop [] bits n out = (bits, n, out)
key_loop (b ∷ key) bits n out =
    let bits' = shift_in bits b in
    let (n', out') = drain (n + 8) bits' (n + 8) out in key_loop key bits' n' out'

-- `if n > 0`: the bits that are left, filled up with zeros.
unfoldable pub last_push : ℕ × ℕ × (Bytes × ℕ) → Bytes × ℕ
unfolding push
last_push (bits, n, out) =
    if ltb 0 n then push (byte_at alphabet (bits * 2 ^ (5 - n) % 2 ^ 32 % 32)) out else out

-- The checksum group, from the first two bytes of the hint.
unfoldable pub checksum_of : Bytes → Bytes
checksum_of c =
    byte_at alphabet (byte_at c 0 / 8)
    ∷ byte_at alphabet (byte_at c 0 % 32)
    ∷ byte_at alphabet (byte_at c 1 / 8)
    ∷ byte_at alphabet (byte_at c 1 % 32)
    ∷ []

unfoldable pub base32_groups : ⦃prim : Primitives⦄ → Bytes → Bytes
unfolding key_loop last_push checksum_of id_hint
base32_groups key = (last_push (key_loop key 0 0 ([], 0))).0 ++ b'-' ∷ checksum_of (id_hint key)
