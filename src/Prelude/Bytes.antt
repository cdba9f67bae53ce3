-- ===== src/Prelude/Bytes.antt =====
-- Byte strings: slices, little-endian words, and a layout of fields one after the other.
use Prim.Native.Nat.{ℕ, zero, suc, ◌+◌, ◌-◌, ◌*◌, ◌/◌, ◌%◌, ◌^◌, ◌≤◌, ◌<◌}
use Prim.Native.Char.{code}
use Prim.Native.String.{String}
use mathlib.Core.Path.{◌≡◌, refl, sym, ap, ap₂, ◌∙◌}
use mathlib.Core.Bool.{Bool, true, false, ◌&&◌}
use mathlib.Core.Logic.{◌≢◌}
use mathlib.Core.List.{List, [], ◌∷◌, ◌++◌}
use native.Mathlib.Omega.{arith}
use native.Mathlib.Nat.{pow-suc}
use rabaska.Prelude.Tests.{◌==◌, ltb}
use rabaska.Prelude.Lists.{
  length, get_or, take, drop, All, length-append, take-append-drop, length-take, length-drop,
  take-append, drop-append, drop-drop, drop_all, take_all, take-append_long, drop-append_long,
  All-append, All-take, All-drop,
}

abbrev pub Bytes : Type 0
Bytes = List ℕ

abbrev pub IsByte : ℕ → Type 0
IsByte b = b < 256

-- A Rust byte string literal, of ASCII characters.
abbrev pub ascii : String → Bytes
ascii String.[] = []
ascii (String.◌∷◌ c s) = code c ∷ ascii s

-- A Rust `[u8; n]`.
abbrev pub IsArray : ℕ → Bytes → Type 0
IsArray n bs = (length bs ≡ n) × All IsByte bs

-- `bs[a..b]`; the code's uses stay inside `bs`, which the theorems on lengths show.
abbrev pub slice : ℕ → ℕ → Bytes → Bytes
slice a b bs = take (b - a) (drop a bs)

-- `bs[i]`
abbrev pub byte_at : Bytes → ℕ → ℕ
byte_at bs i = get_or bs i 0

-- `a == b` on slices
unfoldable pub bytes_eq : Bytes → Bytes → Bool
bytes_eq [] [] = true
bytes_eq [] (y ∷ ys) = false
bytes_eq (x ∷ xs) [] = false
bytes_eq (x ∷ xs) (y ∷ ys) = x == y && bytes_eq xs ys

pub bytes_eq_refl : (xs : Bytes) → bytes_eq xs xs ≡ true
unfolding bytes_eq
bytes_eq_refl [] = refl
bytes_eq_refl (x ∷ xs) = ground (arith, bytes_eq_refl xs)

pub bytes_eq→eq : (xs ys : Bytes) → bytes_eq xs ys ≡ true → xs ≡ ys
unfolding bytes_eq
bytes_eq→eq [] [] h = refl
bytes_eq→eq [] (y ∷ ys) h = cc
bytes_eq→eq (x ∷ xs) [] h = cc
bytes_eq→eq (x ∷ xs) (y ∷ ys) h = ground (arith, bytes_eq→eq xs ys)

pub bytes_eq_ne : (xs ys : Bytes) → xs ≢ ys → bytes_eq xs ys ≡ false
bytes_eq_ne xs ys h = ground (arith, bytes_eq→eq xs ys)

-- `n.to_le_bytes()` and `from_le_bytes`, for a word of `k` bytes
abbrev pub to_le : ℕ → ℕ → Bytes
to_le zero n = []
to_le (suc k) n = n % 256 ∷ to_le k (n / 256)

abbrev pub from_le : Bytes → ℕ
from_le [] = 0
from_le (b ∷ bs) = b + 256 * from_le bs

pub length-to_le : (k n : ℕ) → length (to_le k n) ≡ k
length-to_le zero n = refl
length-to_le (suc k) n = ap suc (length-to_le k (n / 256))

pub All-to_le : (k n : ℕ) → All IsByte (to_le k n)
All-to_le zero n = tt
All-to_le (suc k) n = (omega arith, All-to_le k (n / 256))

pub to_le-IsArray : (k n : ℕ) → IsArray k (to_le k n)
to_le-IsArray k n = (length-to_le k n, All-to_le k n)

pub from_le-to_le : (k n : ℕ) → n < 256 ^ k → from_le (to_le k n) ≡ n
from_le-to_le zero n h = omega arith
from_le-to_le (suc k) n h = omega (arith, from_le-to_le k (n / 256) (omega (arith, pow-suc 256 k)))

pub to_le-from_le : (k : ℕ) (bs : Bytes) → IsArray k bs → to_le k (from_le bs) ≡ bs
to_le-from_le zero [] h = refl
to_le-from_le zero (b ∷ bs) h = absurd (omega arith)
to_le-from_le (suc k) [] h = absurd (omega arith)
to_le-from_le (suc k) (b ∷ bs) h =
    ap₂ ◌∷◌ (let e : (b + 256 * from_le bs) % 256 ≡ b = omega arith in e) (
      ap (to_le k) (let e : (b + 256 * from_le bs) / 256 ≡ from_le bs = omega arith in e)
      ∙ to_le-from_le k bs (omega arith, h.1.1))

pub from_le_lt : (k : ℕ) (bs : Bytes) → IsArray k bs → from_le bs < 256 ^ k
from_le_lt zero [] h = omega arith
from_le_lt zero (b ∷ bs) h = absurd (omega arith)
from_le_lt (suc k) [] h = absurd (omega arith)
from_le_lt (suc k) (b ∷ bs) h = omega (arith, pow-suc 256 k, from_le_lt k bs (omega arith, h.1.1))

pub slice-IsArray :
    (a b : ℕ) (bs : Bytes) → All IsByte bs → b ≤ length bs → IsArray (b - a) (slice a b bs)
slice-IsArray a b bs h le = (
  omega (arith, length-take (b - a) (drop a bs), length-drop a bs),
  All-take IsByte (b - a) (drop a bs) (All-drop IsByte a bs h),
)

pub byte_at-IsByte : (bs : Bytes) (i : ℕ) → All IsByte bs → byte_at bs i < 256
byte_at-IsByte [] i h = omega arith
byte_at-IsByte (b ∷ bs) zero h = h.0
byte_at-IsByte (b ∷ bs) (suc i) h = byte_at-IsByte bs i h.1

pub slice_one : (bs : Bytes) (i : ℕ) → i < length bs → slice i (i + 1) bs ≡ byte_at bs i ∷ []
slice_one [] i h = absurd (omega arith)
slice_one (b ∷ bs) zero h = refl
slice_one (b ∷ bs) (suc i) h =
    ap (λ n. take n (drop i bs)) (let e : suc i + 1 - suc i ≡ i + 1 - i = omega arith in e)
    ∙ slice_one bs i (omega arith)

pub byte_at-slice : (bs : Bytes) (i : ℕ) → byte_at (slice i (i + 1) bs) 0 ≡ byte_at bs i
byte_at-slice [] zero = refl
byte_at-slice [] (suc i) = rw (let e : suc i + 1 - suc i ≡ 1 = omega arith in e)
byte_at-slice (b ∷ bs) zero = refl
byte_at-slice (b ∷ bs) (suc i) =
    ap (λ n. byte_at (take n (drop i bs)) 0)
      (let e : suc i + 1 - suc i ≡ i + 1 - i = omega arith in e)
    ∙ byte_at-slice bs i

-- `buf.extend_from_slice(f)` for each field `f` in turn
abbrev pub flat : List Bytes → Bytes
flat [] = []
flat (f ∷ fs) = f ++ flat fs

abbrev pub total : List ℕ → ℕ
total [] = 0
total (n ∷ ns) = n + total ns

-- Each field is an array of the width that its place has.
abbrev pub HasWidths : List ℕ → List Bytes → Type 0
HasWidths [] [] = Unit
HasWidths [] (f ∷ fs) = ⊥
HasWidths (n ∷ ns) [] = ⊥
HasWidths (n ∷ ns) (f ∷ fs) = IsArray n f × HasWidths ns fs

-- The slices of the widths `ns`, from `start` on.
abbrev pub slices : List ℕ → ℕ → Bytes → List Bytes
slices [] start bs = []
slices (n ∷ ns) start bs = slice start (start + n) bs ∷ slices ns (start + n) bs

pub length-flat : (ns : List ℕ) (fs : List Bytes) → HasWidths ns fs → length (flat fs) ≡ total ns
length-flat [] [] h = refl
length-flat [] (f ∷ fs) h = absurd h
length-flat (n ∷ ns) [] h = absurd h
length-flat (n ∷ ns) (f ∷ fs) h = omega (arith, length-append f (flat fs), length-flat ns fs h.1)

pub flat-IsArray : (ns : List ℕ) (fs : List Bytes) → HasWidths ns fs → IsArray (total ns) (flat fs)
flat-IsArray ns fs h = (length-flat ns fs h, bytes ns fs h)
  where
    bytes : (ns : List ℕ) (fs : List Bytes) → HasWidths ns fs → All IsByte (flat fs)
    bytes [] [] h = tt
    bytes [] (f ∷ fs) h = absurd h
    bytes (n ∷ ns) [] h = absurd h
    bytes (n ∷ ns) (f ∷ fs) h = All-append IsByte f (flat fs) h.0.1 (bytes ns fs h.1)

slices-append :
    (ns : List ℕ) (start : ℕ) (front bs : Bytes) (k : ℕ)
    → length front ≡ k
    → slices ns (k + start) (front ++ bs) ≡ slices ns start bs
slices-append [] start front bs k h = refl
slices-append (n ∷ ns) start front bs k h =
    ap₂ ◌∷◌
      (ap₂ take (let e : k + start + n - (k + start) ≡ start + n - start = omega arith in e)
        (sym (drop-drop k start (front ++ bs)) ∙ ap (drop start) (drop-append front bs k h)))
      (ap (λ s. slices ns s (front ++ bs))
          (let e : k + start + n ≡ k + (start + n) = omega arith in e)
        ∙ slices-append ns (start + n) front bs k h)

-- Slicing undoes the concatenation.
pub slices-flat : (ns : List ℕ) (fs : List Bytes) → HasWidths ns fs → slices ns 0 (flat fs) ≡ fs
slices-flat [] [] h = refl
slices-flat [] (f ∷ fs) h = absurd h
slices-flat (n ∷ ns) [] h = absurd h
slices-flat (n ∷ ns) (f ∷ fs) h = ap₂ ◌∷◌ (take-append f (flat fs) (0 + n - 0) (omega arith)) (
    ap (λ s. slices ns s (f ++ flat fs)) (let e : 0 + n ≡ n + 0 = omega arith in e)
    ∙ slices-append ns 0 f (flat fs) n h.0.0
    ∙ slices-flat ns fs h.1)

-- Concatenating the slices that use the bytes up gives the bytes back.
pub flat-slices :
    (ns : List ℕ) (start : ℕ) (bs : Bytes)
    → start + total ns ≡ length bs
    → flat (slices ns start bs) ≡ drop start bs
flat-slices [] start bs h = sym (drop_all start bs (omega arith))
flat-slices (n ∷ ns) start bs h =
    ap₂ ◌++◌ (ap (λ m. take m (drop start bs)) (let e : start + n - start ≡ n = omega arith in e))
      (flat-slices ns (start + n) bs (omega arith) ∙ sym (drop-drop start n bs))
    ∙ take-append-drop n (drop start bs)

pub slice_rest : (a : ℕ) (bs : Bytes) → slice a (a + (length bs - a)) bs ≡ drop a bs
slice_rest a bs = take_all (drop a bs) (a + (length bs - a) - a) (omega (arith, length-drop a bs))

pub slice-append :
    (a b : ℕ) (bs more : Bytes) → a ≤ b → b ≤ length bs → slice a b (bs ++ more) ≡ slice a b bs
slice-append a b bs more ab le =
    ap (take (b - a)) (drop-append_long a bs more (omega arith))
    ∙ take-append_long (b - a) (drop a bs) more (omega (arith, length-drop a bs))

-- Whether a list holds bytes.
abbrev pub all_bytes : Bytes → Bool
all_bytes [] = true
all_bytes (b ∷ bs) = ltb b 256 && all_bytes bs

pub are_bytes : (bs : Bytes) → all_bytes bs ≡ true → All IsByte bs
are_bytes [] h = tt
are_bytes (b ∷ bs) h = (ground arith, are_bytes bs (ground arith))

pub array : (n : ℕ) (bs : Bytes) → (length bs == n) && all_bytes bs ≡ true → IsArray n bs
array n bs h = (ground arith, are_bytes bs (ground arith))
