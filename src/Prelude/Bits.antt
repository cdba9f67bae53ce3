-- ===== src/Prelude/Bits.antt =====
-- `|` on words that have no digit in common.
use Prim.Native.Nat.{
  ℕ, zero, suc, ◌+◌, ◌*◌, ◌/◌, ◌^◌, ◌≤◌, ◌<◌, max, bit_or, digits, bit_or-bitwise,
}
use mathlib.Core.Path.{◌≡◌, refl, sym, ap, ◌∙◌}
use native.Mathlib.Omega.{arith}
use native.Mathlib.Nat.{pow-suc, mul_assoc}

-- `bit_or` on at most `n` digits.
abbrev or_digits : ℕ → ℕ → ℕ → ℕ
or_digits n a b = digits (λ b. b) max n a b

or_digits-zero : (n a : ℕ) → a ≤ n → or_digits n a 0 ≡ a
or_digits-zero zero zero le = refl
or_digits-zero zero (suc a) le = absurd (omega arith)
or_digits-zero (suc n) zero le = refl
or_digits-zero (suc n) (suc a) le = omega (arith, or_digits-zero n (suc a / 2) (omega arith))

double_pow : (a k : ℕ) → a * 2 ^ suc k ≡ (a * 2 ^ k) * 2
double_pow a k = ap (λ p. a * p) (pow-suc 2 k) ∙ sym (mul_assoc a (2 ^ k) 2)

-- A number that ends in `k` zeros, and one of `k` digits.
or_digits-add : (k n x a b : ℕ) → x ≡ a * 2 ^ k → x ≤ n → b < 2 ^ k → or_digits n x b ≡ x + b
or_digits-add zero n x a zero shifted le lt = omega (arith, or_digits-zero n x le)
or_digits-add zero n x a (suc b) shifted le lt = absurd (omega arith)
or_digits-add (suc k) zero zero a b shifted le lt = let same : b ≡ 0 + b = omega arith in same
or_digits-add (suc k) (suc n) zero a b shifted le lt = let same : b ≡ 0 + b = omega arith in same
or_digits-add (suc k) zero (suc x) a b shifted le lt = absurd (omega arith)
or_digits-add (suc k) (suc n) (suc x) a b shifted le lt =
    let twice = shifted ∙ double_pow a k in
    let half : suc x / 2 ≡ a * 2 ^ k = omega arith in
    let low : b / 2 < 2 ^ k = omega (arith, pow-suc 2 k) in
    omega (arith, or_digits-add k n (suc x / 2) a (b / 2) half (omega arith) low)

pub bit_or-add : (k a b : ℕ) → b < 2 ^ k → bit_or (a * 2 ^ k) b ≡ a * 2 ^ k + b
bit_or-add k a b lt =
    bit_or-bitwise (a * 2 ^ k) b ∙ or_digits-add k (a * 2 ^ k) (a * 2 ^ k) a b refl (omega arith) lt
