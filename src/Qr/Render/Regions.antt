-- ===== src/Qr/Render/Regions.antt =====
-- core/src/qr.rs: the pixels that a loop paints, as a union of what its rounds paint.
use rabaska.Prelude.{
  ℕ, zero, suc, ◌≡◌, ◌≤◌, ◌<◌, ◌+◌, ◌*◌, ◌⊎◌, inl, inr, refl, subst, Bool, true, false,
  if◌then◌else◌, length, get_or, ◌==◌, arith, Bool-cases,
}
use rabaska.Prelude.Bytes.{Bytes}
use rabaska.Error.{Result, ok}
use rabaska.Qr.Render.{for_range}

-- A set of pixels.
abbrev pub Region : Type 1
Region = ℕ → ℕ → Type 0

abbrev pub or_region : Region → Region → Region
or_region S B x y = S x y ⊎ B x y

abbrev nowhere : Region
nowhere x y = ⊥

-- The union of `B i` for `i` from `start` on, `count` of them.
abbrev pub any_region : ℕ → ℕ → (ℕ → Region) → Region
any_region start count B x y = (i : ℕ) × (start ≤ i) × (i < start + count) × B i x y

module _ (side : ℕ) where
  -- A square buffer that is dark on `S` and light elsewhere.
  abbrev pub Shows : Region → Bytes → Type 0
  Shows S luma =
      (length luma ≡ side * side)
      × ((x y : ℕ)
          → x < side
          → y < side
          → (S x y → get_or luma (y * side + x) 0 ≡ 0)
            × (¬ S x y → get_or luma (y * side + x) 0 ≡ 255))

  -- Code that goes through and paints a region.
  abbrev pub Paints : Region → (Bytes → Result Bytes) → Type 1
  Paints B run =
      (S : Region) (luma : Bytes)
      → Shows S luma
      → (l : Bytes) × (run luma ≡ ok l) × Shows (or_region S B) l

  same-Shows :
      (S T : Region) (luma : Bytes)
      → ((x y : ℕ) → S x y → T x y)
      → ((x y : ℕ) → T x y → S x y)
      → Shows S luma
      → Shows T luma
  same-Shows S T luma to from (len, px) = (
    len,
    λ x y hx hy.
        let (dark, light) = px x y hx hy in
        ((λ t. dark (from x y t)), (λ nt. light (λ s. nt (to x y s)))),
  )

  nothing-Paints : Paints nowhere ok
  nothing-Paints S luma h =
      (luma, refl, same-Shows S (or_region S nowhere) luma (λ x y s. inl s) (λ x y. left x y) h)
    where
      left : (x y : ℕ) → or_region S nowhere x y → S x y
      left x y (inl s) = s
      left x y (inr no_way) = absurd no_way

  pub same-Paints :
      (B C : Region) (run : Bytes → Result Bytes)
      → ((x y : ℕ) → B x y → C x y)
      → ((x y : ℕ) → C x y → B x y)
      → Paints B run
      → Paints C run
  same-Paints B C run to from h S luma shows =
      let (l, eq, shown) = h S luma shows in
      (
        l,
        eq,
        same-Shows (or_region S B) (or_region S C) l (λ x y. lift S B C x y (to x y))
            (λ x y. lift S C B x y (from x y)) shown,
      )
    where
      lift : (S B C : Region) (x y : ℕ) → (B x y → C x y) → or_region S B x y → or_region S C x y
      lift S B C x y f (inl s) = inl s
      lift S B C x y f (inr b) = inr (f b)

  pub if-Paints :
      (b : Bool) (B : Region) (run : Bytes → Result Bytes)
      → Paints B run
      → Paints (λ x y. (b ≡ true) × B x y) (λ l. if b then run l else ok l)
  if-Paints true B run h =
      same-Paints B (λ x y. (true ≡ true) × B x y) run (λ x y i. (refl, i)) (λ x y p. p.1) h
  if-Paints false B run h =
      same-Paints nowhere (λ x y. (false ≡ true) × B x y) ok (λ x y no_way. absurd no_way)
        (λ x y p. let e = p.0 in cc) nothing-Paints

  first_region :
      (start : ℕ) (B : ℕ → Region) (S : Region) (count : ℕ) (x y : ℕ)
      → or_region (or_region S (B start)) (any_region (start + 1) count B) x y
      → or_region S (any_region start (suc count) B) x y
  first_region start B S count x y (inl (inl s)) = inl s
  first_region start B S count x y (inl (inr b)) = inr (start, omega arith, omega arith, b)
  first_region start B S count x y (inr (i, low, high, b)) = inr (i, omega arith, omega arith, b)

  split_region :
      (start : ℕ) (B : ℕ → Region) (S : Region) (count : ℕ) (x y : ℕ)
      → or_region S (any_region start (suc count) B) x y
      → or_region (or_region S (B start)) (any_region (start + 1) count B) x y
  split_region start B S count x y (inl s) = inl (inl s)
  split_region start B S count x y (inr (i, low, high, b)) = elim (Bool-cases (i == start)) [
    | inl here ↦ let same : i ≡ start = ground arith in inl (inr (subst (λ k. B k x y) same b))
    | inr there ↦ inr (i, ground arith, omega arith, b)
  ]

  -- A loop paints what its rounds paint.
  pub for_range-Paints :
      (count start : ℕ) (B : ℕ → Region) (body : ℕ → Bytes → Result Bytes)
      → ((i : ℕ) → start ≤ i → i < start + count → Paints (B i) (body i))
      → Paints (any_region start count B) (for_range count body start)
  unfolding for_range
  for_range-Paints zero start B body each S luma h = (
    luma,
    refl,
    same-Shows S (or_region S (any_region start 0 B)) luma (λ x y s. inl s) (λ x y. left x y) h,
  )
    where
      left : (x y : ℕ) → or_region S (any_region start 0 B) x y → S x y
      left x y (inl s) = s
      left x y (inr (i, low, high, b)) = absurd (omega arith)
  for_range-Paints (suc count) start B body each S luma h =
      let (l, ran, shown) = each start (omega arith) (omega arith) S luma h in
      let (l', ran', shown') =
        for_range-Paints count (start + 1) B body (λ i low high. each i (omega arith) (omega arith))
          (or_region S (B start)) l shown in
      (
        l',
        rw (ran, ran'),
        same-Shows (or_region (or_region S (B start)) (any_region (start + 1) count B))
            (or_region S (any_region start (suc count) B)) l' (first_region start B S count)
            (split_region start B S count) shown',
      )
