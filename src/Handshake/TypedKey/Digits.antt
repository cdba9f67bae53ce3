-- ===== src/Handshake/TypedKey/Digits.antt =====
-- core/src/wasm.rs: the text of `base32_groups` as digits of base 32, and the digits read off it.
use rabaska.Prelude.{
  ℕ, zero, suc, ◌≡◌, ◌<◌, ◌+◌, ◌-◌, ◌*◌, ◌/◌, ◌%◌, ◌^◌, inl, inr, refl, sym, ap, ap₂, ◌∙◌, Bool,
  true, ◌&&◌, List, [], ◌∷◌, ◌++◌, append-nil, append_assoc, ==_iff, length, All, All-append, ltb,
  ◌==◌, if◌then◌else◌, Bool-cases, arith, length-append,
}
use rabaska.Prelude.Bytes.{Bytes, byte_at}
use rabaska.Handshake.TypedKey.{alphabet, push, drain, shift_in, key_loop, last_push}

-- The digits that a byte completes, `n` bits being left over from before, and how many it leaves over.
abbrev pub completes : ℕ → ℕ → List ℕ
completes zero bits = bits / 8 % 32 ∷ []
completes (suc zero) bits = bits / 16 % 32 ∷ []
completes (suc (suc zero)) bits = bits / 32 % 32 ∷ bits / 1 % 32 ∷ []
completes (suc (suc (suc zero))) bits = bits / 64 % 32 ∷ bits / 2 % 32 ∷ []
completes _ bits = bits / 128 % 32 ∷ bits / 4 % 32 ∷ []

abbrev pub leaves : ℕ → ℕ
leaves zero = 3
leaves (suc zero) = 4
leaves (suc (suc zero)) = 0
leaves (suc (suc (suc zero))) = 1
leaves _ = 2

-- The digits of a key from a byte on.
abbrev pub digits : Bytes → ℕ → ℕ → List ℕ
digits [] bits n = if ltb 0 n then bits * 2 ^ (5 - n) % 2 ^ 32 % 32 ∷ [] else []
digits (b ∷ key) bits n = completes n (shift_in bits b) ++ digits key (shift_in bits b) (leaves n)

abbrev pub pushes : List ℕ → Bytes × ℕ → Bytes × ℕ
pushes [] out = out
pushes (d ∷ ds) out = pushes ds (push (byte_at alphabet d) out)

pushes-append :
    (ds es : List ℕ) (out : Bytes × ℕ) → pushes (ds ++ es) out ≡ pushes es (pushes ds out)
pushes-append [] es out = refl
pushes-append (d ∷ ds) es out = pushes-append ds es (push (byte_at alphabet d) out)

drain-completes :
    (n bits : ℕ) (out : Bytes × ℕ)
    → n < 5
    → drain (n + 8) bits (n + 8) out ≡ (leaves n, pushes (completes n bits) out)
unfolding drain
drain-completes zero bits out lt = refl
drain-completes (suc zero) bits out lt = refl
drain-completes (suc (suc zero)) bits out lt = refl
drain-completes (suc (suc (suc zero))) bits out lt = refl
drain-completes (suc (suc (suc (suc zero)))) bits out lt = refl
drain-completes (suc (suc (suc (suc (suc n))))) bits out lt = absurd (omega arith)

pub leaves_lt : (n : ℕ) → leaves n < 5
leaves_lt zero = omega arith
leaves_lt (suc zero) = omega arith
leaves_lt (suc (suc zero)) = omega arith
leaves_lt (suc (suc (suc zero))) = omega arith
leaves_lt (suc (suc (suc (suc n)))) = omega arith

pub key_loop-digits :
    (key : Bytes) (bits n : ℕ) (out : Bytes × ℕ)
    → n < 5
    → last_push (key_loop key bits n out) ≡ pushes (digits key bits n) out
unfolding key_loop last_push
key_loop-digits [] bits n out lt = ground arith
key_loop-digits (b ∷ key) bits n out lt =
    let bits' = shift_in bits b in
    rw (key_loop, drain-completes n bits' out lt)
      (key_loop-digits key bits' (leaves n) (pushes (completes n bits') out) (leaves_lt n)
        ∙ sym (pushes-append (completes n bits') (digits key bits' (leaves n)) out))

-- Digits as they are typed, `k` characters being there: a dash before each group of four but the first.
abbrev pub dashed : ℕ → List ℕ → Bytes
dashed k [] = []
dashed k (d ∷ ds) =
    (if ltb 0 k && k % 4 == 0 then b'-' ∷ [] else []) ++ byte_at alphabet d ∷ dashed (k + 1) ds

-- The dash before the character that makes the count `k + 1`.
abbrev dash : ℕ → Bytes
dash k = if ltb 0 k && k % 4 == 0 then b'-' ∷ [] else []

push-dash : (c k : ℕ) (out : Bytes) → push c (out, k) ≡ ((out ++ dash k) ++ c ∷ [], k + 1)
unfolding push
push-dash c k out = elim (Bool-cases (ltb 0 k && k % 4 == 0)) [
  | inl group ↦ rw (push, group)
  | inr within ↦ rw (push, within, append-nil out)
]

pub pushes-dashed :
    (ds : List ℕ) (out : Bytes) (k : ℕ) → (pushes ds (out, k)).0 ≡ out ++ dashed k ds
pushes-dashed [] out k = sym (append-nil out)
pushes-dashed (d ∷ ds) out k =
    let c = byte_at alphabet d in
    ap (λ q. (pushes ds q).0) (push-dash c k out)
    ∙ pushes-dashed ds ((out ++ dash k) ++ c ∷ []) (k + 1)
    ∙ append_assoc (out ++ dash k) (c ∷ []) (dashed (k + 1) ds)
    ∙ append_assoc out (dash k) (c ∷ dashed (k + 1) ds)

abbrev all_below : ℕ → (ℕ → Bool) → Bool
all_below zero p = true
all_below (suc n) p = p n && all_below n p

all_below-true : (n k : ℕ) (p : ℕ → Bool) → all_below n p ≡ true → k < n → p k ≡ true
all_below-true zero k p h lt = absurd (omega arith)
all_below-true (suc n) k p h lt = elim (Bool-cases (k == n)) [
  | inl last ↦ let same : k ≡ n = ground arith in rw same (ground arith)
  | inr other ↦ all_below-true n k p (ground arith) (ground arith)
]

-- The digit of a character of the alphabet.
abbrev digit_of : ℕ → ℕ
digit_of c = if ltb c 65 then c - 24 else c - 65

digit_of-alphabet : (d : ℕ) → d < 32 → digit_of (byte_at alphabet d) ≡ d
digit_of-alphabet d lt =
    let h = all_below-true 32 d (λ k. digit_of (byte_at alphabet k) == k) refl lt in
    (==_iff (digit_of (byte_at alphabet d)) d).0 h

alphabet_injective : (d e : ℕ) → d < 32 → e < 32 → byte_at alphabet d ≡ byte_at alphabet e → d ≡ e
alphabet_injective d e hd he h =
    sym (digit_of-alphabet d hd) ∙ ap digit_of h ∙ digit_of-alphabet e he

-- The typed digits can be read off, whatever follows them.
pub dashed_injective :
    (k : ℕ) (ds es : List ℕ) (r s : Bytes)
    → length ds ≡ length es
    → All (λ d. d < 32) ds
    → All (λ d. d < 32) es
    → dashed k ds ++ r ≡ dashed k es ++ s
    → ds ≡ es
dashed_injective k [] [] r s len hd he h = refl
dashed_injective k [] (e ∷ es) r s len hd he h = absurd (omega arith)
dashed_injective k (d ∷ ds) [] r s len hd he h = absurd (omega arith)
dashed_injective k (d ∷ ds) (e ∷ es) r s len hd he h = elim (Bool-cases (ltb 0 k && k % 4 == 0)) [
  | inl group ↦
      let h' = rw group at h in
      let first : byte_at alphabet d ≡ byte_at alphabet e = cc in
      let rest : dashed (k + 1) ds ++ r ≡ dashed (k + 1) es ++ s = cc in
      ap₂ ◌∷◌ (alphabet_injective d e hd.0 he.0 first)
        (dashed_injective (k + 1) ds es r s (omega arith) hd.1 he.1 rest)
  | inr within ↦
      let h' = rw within at h in
      let first : byte_at alphabet d ≡ byte_at alphabet e = cc in
      let rest : dashed (k + 1) ds ++ r ≡ dashed (k + 1) es ++ s = cc in
      ap₂ ◌∷◌ (alphabet_injective d e hd.0 he.0 first)
        (dashed_injective (k + 1) ds es r s (omega arith) hd.1 he.1 rest)
]

completes_lt : (n bits : ℕ) → All (λ d. d < 32) (completes n bits)
completes_lt zero bits = (omega arith, tt)
completes_lt (suc zero) bits = (omega arith, tt)
completes_lt (suc (suc zero)) bits = (omega arith, (omega arith, tt))
completes_lt (suc (suc (suc zero))) bits = (omega arith, (omega arith, tt))
completes_lt (suc (suc (suc (suc n)))) bits = (omega arith, (omega arith, tt))

pub digits_lt : (key : Bytes) (bits n : ℕ) → All (λ d. d < 32) (digits key bits n)
digits_lt [] bits n = elim (Bool-cases (ltb 0 n)) [
  | inl some_left ↦ rw some_left (omega arith, tt)
  | inr none_left ↦ rw none_left tt
]
digits_lt (b ∷ key) bits n =
    All-append (λ d. d < 32) (completes n (shift_in bits b))
      (digits key (shift_in bits b) (leaves n)) (completes_lt n (shift_in bits b))
      (digits_lt key (shift_in bits b) (leaves n))

length-completes : (n a b : ℕ) → length (completes n a) ≡ length (completes n b)
length-completes zero a b = refl
length-completes (suc zero) a b = refl
length-completes (suc (suc zero)) a b = refl
length-completes (suc (suc (suc zero))) a b = refl
length-completes (suc (suc (suc (suc n)))) a b = refl

pub length-digits :
    (key key' : Bytes) (bits bits' n : ℕ)
    → length key ≡ length key'
    → length (digits key bits n) ≡ length (digits key' bits' n)
length-digits [] [] bits bits' n len = elim (Bool-cases (ltb 0 n)) [
  | inl some_left ↦ rw some_left refl
  | inr none_left ↦ rw none_left refl
]
length-digits [] (c ∷ key') bits bits' n len = absurd (omega arith)
length-digits (b ∷ key) [] bits bits' n len = absurd (omega arith)
length-digits (b ∷ key) (c ∷ key') bits bits' n len =
    let x = shift_in bits b in
    let y = shift_in bits' c in
    omega (
      arith,
      length-append (completes n x) (digits key x (leaves n)),
      length-append (completes n y) (digits key' y (leaves n)),
      length-completes n x y,
      length-digits key key' x y (leaves n) (omega arith),
    )
