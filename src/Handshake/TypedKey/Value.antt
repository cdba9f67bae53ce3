-- ===== src/Handshake/TypedKey/Value.antt =====
-- core/src/wasm.rs: the digits of `base32_groups` are those of the key's number.
use rabaska.Prelude.{
  ℕ, zero, suc, ◌≡◌, ◌<◌, ◌+◌, ◌-◌, ◌*◌, ◌%◌, ◌^◌, refl, sym, ap, ap₂, ◌∙◌, List, [], ◌∷◌, ◌++◌,
  length, All, ltb, if◌then◌else◌, arith,
}
use rabaska.Prelude.Bytes.{Bytes, IsByte}
use rabaska.Handshake.TypedKey.{shift_in}
use rabaska.Handshake.TypedKey.Digits.{completes, leaves, leaves_lt, digits}

-- The number whose digits of base 32 follow those of `acc`, and the one whose bytes do.
abbrev value_32 : ℕ → List ℕ → ℕ
value_32 acc [] = acc
value_32 acc (d ∷ ds) = value_32 (acc * 32 + d) ds

abbrev value_256 : ℕ → Bytes → ℕ
value_256 acc [] = acc
value_256 acc (b ∷ bs) = value_256 (acc * 256 + b) bs

value_32-append :
    (acc : ℕ) (ds es : List ℕ) → value_32 acc (ds ++ es) ≡ value_32 (value_32 acc ds) es
value_32-append acc [] es = refl
value_32-append acc (d ∷ ds) es = value_32-append (acc * 32 + d) ds es

-- The number filled up with zero bits to whole digits, `n` bits being left over before the key.
abbrev filled : ℕ → Bytes → ℕ → ℕ
filled n [] x = if ltb 0 n then x * 2 ^ (5 - n) else x
filled n (b ∷ key) x = filled (leaves n) key x

-- One byte, with the bits that are left over on either side.
completes_value :
    (n bits acc b : ℕ)
    → n < 5
    → b < 256
    → value_32 acc (completes n (shift_in bits b)) * 2 ^ leaves n + shift_in bits b % 2 ^ leaves n
      ≡ (acc * 2 ^ n + bits % 2 ^ n) * 256 + b
completes_value zero bits acc b lt hb = omega arith
completes_value (suc zero) bits acc b lt hb = omega arith
completes_value (suc (suc zero)) bits acc b lt hb = omega arith
completes_value (suc (suc (suc zero))) bits acc b lt hb = omega arith
completes_value (suc (suc (suc (suc zero)))) bits acc b lt hb = omega arith
completes_value (suc (suc (suc (suc (suc n))))) bits acc b lt hb = absurd (omega arith)

last_value :
    (n bits acc : ℕ)
    → n < 5
    → value_32 acc (digits [] bits n) ≡ filled n [] (acc * 2 ^ n + bits % 2 ^ n)
last_value zero bits acc lt = omega arith
last_value (suc zero) bits acc lt = omega arith
last_value (suc (suc zero)) bits acc lt = omega arith
last_value (suc (suc (suc zero))) bits acc lt = omega arith
last_value (suc (suc (suc (suc zero)))) bits acc lt = omega arith
last_value (suc (suc (suc (suc (suc n))))) bits acc lt = absurd (omega arith)

-- The digits are those of the key's number, filled up.
digits_value :
    (key : Bytes) (bits n acc : ℕ)
    → n < 5
    → All IsByte key
    → value_32 acc (digits key bits n) ≡ filled n key (value_256 (acc * 2 ^ n + bits % 2 ^ n) key)
digits_value [] bits n acc lt h = last_value n bits acc lt
digits_value (b ∷ key) bits n acc lt h =
    let bits' = shift_in bits b in
    let acc' = value_32 acc (completes n bits') in
    value_32-append acc (completes n bits') (digits key bits' (leaves n))
    ∙ digits_value key bits' (leaves n) acc' (leaves_lt n) h.1
    ∙ ap (λ x. filled (leaves n) key (value_256 x key)) (completes_value n bits acc b lt h.0)

filled_injective :
    (key key' : Bytes) (n x y : ℕ)
    → n < 5
    → length key ≡ length key'
    → filled n key x ≡ filled n key' y
    → x ≡ y
filled_injective [] [] zero x y lt len h = omega arith
filled_injective [] [] (suc zero) x y lt len h = omega arith
filled_injective [] [] (suc (suc zero)) x y lt len h = omega arith
filled_injective [] [] (suc (suc (suc zero))) x y lt len h = omega arith
filled_injective [] [] (suc (suc (suc (suc zero)))) x y lt len h = omega arith
filled_injective [] [] (suc (suc (suc (suc (suc n))))) x y lt len h = absurd (omega arith)
filled_injective [] (c ∷ key') n x y lt len h = absurd (omega arith)
filled_injective (b ∷ key) [] n x y lt len h = absurd (omega arith)
filled_injective (b ∷ key) (c ∷ key') n x y lt len h =
    filled_injective key key' (leaves n) x y (leaves_lt n) (omega arith) h

value_256_injective :
    (key key' : Bytes) (x y : ℕ)
    → length key ≡ length key'
    → All IsByte key
    → All IsByte key'
    → value_256 x key ≡ value_256 y key'
    → (x ≡ y) × (key ≡ key')
value_256_injective [] [] x y len hk hk' h = (h, refl)
value_256_injective [] (c ∷ key') x y len hk hk' h = absurd (omega arith)
value_256_injective (b ∷ key) [] x y len hk hk' h = absurd (omega arith)
value_256_injective (b ∷ key) (c ∷ key') x y len hk hk' h =
    let (head, tail) =
      value_256_injective key key' (x * 256 + b) (y * 256 + c) (omega arith) hk.1 hk'.1 h in
    let hb = hk.0 in
    let hc = hk'.0 in let first : b ≡ c = omega arith in (omega arith, ap₂ ◌∷◌ first tail)

-- The digits of two keys of one length are the same only if the keys are.
pub digits_injective :
    (key key' : Bytes)
    → length key ≡ length key'
    → All IsByte key
    → All IsByte key'
    → digits key 0 0 ≡ digits key' 0 0
    → key ≡ key'
digits_injective key key' len h h' same =
    let values =
      sym (digits_value key 0 0 0 (omega arith) h)
      ∙ ap (value_32 0) same
      ∙ digits_value key' 0 0 0 (omega arith) h' in
    let numbers =
      filled_injective key key' 0 (value_256 (0 * 2 ^ 0 + 0 % 2 ^ 0) key)
        (value_256 (0 * 2 ^ 0 + 0 % 2 ^ 0) key') (omega arith) len values in
    (value_256_injective key key' (0 * 2 ^ 0 + 0 % 2 ^ 0) (0 * 2 ^ 0 + 0 % 2 ^ 0) len h h'
      numbers).1
