-- ===== src/Crypto/Sas.antt =====
-- core/src/crypto.rs: the short authentication string is five decimal digits.
use rabaska.Prelude.{
  ℕ, zero, suc, ◌≡◌, ◌≤◌, ◌<◌, ◌+◌, ◌-◌, ◌*◌, ◌/◌, ◌%◌, ◌^◌, refl, ◌∙◌, true, Bool-cases, inl, inr,
  [], ◌∷◌, ◌++◌, length, replicate, All, ltb, ltb→lt, arith, length-append, length-replicate,
  All-append,
}
use rabaska.Prelude.Bytes.{Bytes, flat, slice}
use native.Mathlib.Nat.{pow-suc}
use rabaska.Crypto.Primitives.{Primitives}
use rabaska.Crypto.Human.{decimal, format_05, from_be, sas, info_sas}

abbrev pub IsDigit : ℕ → Type 0
IsDigit c = (b'0' ≤ c) × (c ≤ b'9')

-- The number that decimal digits stand for.
unfoldable pub value : ℕ → Bytes → ℕ
value acc [] = acc
value acc (c ∷ cs) = value (acc * 10 + (c - b'0')) cs

value-append : (acc c : ℕ) (cs : Bytes) → value acc (cs ++ c ∷ []) ≡ value acc cs * 10 + (c - b'0')
unfolding value
value-append acc c [] = refl
value-append acc c (d ∷ cs) = value-append (acc * 10 + (d - b'0')) c cs

value-zeros : (k : ℕ) (cs : Bytes) → value 0 (replicate k b'0' ++ cs) ≡ value 0 cs
unfolding value
value-zeros zero cs = refl
value-zeros (suc k) cs = value-zeros k cs

All-zeros : (k : ℕ) → All IsDigit (replicate k b'0')
All-zeros zero = tt
All-zeros (suc k) = (omega arith, All-zeros k)

record IsDecimal (k n : ℕ) (cs : Bytes) : Type 0 where
  short : length cs ≤ k
  digits : All IsDigit cs
  reads : value 0 cs ≡ n

one_digit : (k fuel n : ℕ) → ltb n 10 ≡ true → IsDecimal (suc k) n (decimal (suc fuel) n)
unfolding decimal
one_digit k fuel n small =
    let bound = ltb→lt n 10 small in
    rw small
      (record { short = omega arith; digits = omega arith; reads = unfold value in omega arith })

decimal-IsDecimal :
    (k fuel n : ℕ) → k ≤ fuel → n < 10 ^ suc k → IsDecimal (suc k) n (decimal (suc fuel) n)
decimal-IsDecimal zero fuel n le lt = one_digit zero fuel n (ground arith)
decimal-IsDecimal (suc k) zero n le lt = absurd (omega arith)
decimal-IsDecimal (suc k) (suc fuel) n le lt = elim (Bool-cases (ltb n 10)) [
  | inl small ↦ one_digit (suc k) (suc fuel) n small
  | inr large ↦
      let front = decimal (suc fuel) (n / 10) in
      let digit = b'0' + n % 10 in
      let ih =
        decimal-IsDecimal k fuel (n / 10) (omega arith) (omega (arith, pow-suc 10 (suc k))) in
      let opened : decimal (suc (suc fuel)) n ≡ front ++ digit ∷ [] = unfold decimal in rw large in
      let last : IsDigit digit = omega arith in
      rw opened (record {
        short = omega (arith, length-append front (digit ∷ []), ih.short);
        digits = All-append IsDigit front (digit ∷ []) ih.digits (last, tt);
        reads = omega (arith, value-append 0 digit front, ih.reads);
      })
]

-- The string has five digits, and they read as the number, which is below 100,000.
format_05-IsDecimal :
    (n : ℕ)
    → n < 100_000
    → (length (format_05 n) ≡ 5) × All IsDigit (format_05 n) × (value 0 (format_05 n) ≡ n)
unfolding format_05
format_05-IsDecimal n lt =
    let ds = decimal 10 n in
    let d = decimal-IsDecimal 4 9 n (omega arith) (omega arith) in
    let pad = 5 - length ds in
    (
      omega (
        arith,
        length-append (replicate pad b'0') ds,
        length-replicate {A = ℕ} pad b'0',
        d.short,
      ),
      All-append IsDigit (replicate pad b'0') ds (All-zeros pad) d.digits,
      value-zeros pad ds ∙ d.reads,
    )

module _ ⦃prim : Primitives⦄ where
  -- The number that both ends compute, out of the first four bytes of the hash.
  abbrev pub sas_number : Bytes → Bytes → Bytes → Bytes → ℕ
  sas_number session_id r_eph_pub s_eph_pub r_nonce =
      from_be 0 (
        slice 0 4
          (prim.sha256 (flat (info_sas ∷ session_id ∷ r_eph_pub ∷ s_eph_pub ∷ r_nonce ∷ []))))
      % 100_000

  -- Whatever the inputs, the string has exactly five decimal digits, which read as the hash's number
  -- modulo 100,000.
  sas_five_digits :
      (session_id r_eph_pub s_eph_pub r_nonce : Bytes)
      → (length (sas session_id r_eph_pub s_eph_pub r_nonce) ≡ 5)
        × All IsDigit (sas session_id r_eph_pub s_eph_pub r_nonce)
        × (value 0 (sas session_id r_eph_pub s_eph_pub r_nonce)
            ≡ sas_number session_id r_eph_pub s_eph_pub r_nonce)
  unfolding sas
  sas_five_digits session_id r_eph_pub s_eph_pub r_nonce =
      format_05-IsDecimal (sas_number session_id r_eph_pub s_eph_pub r_nonce) (omega arith)
