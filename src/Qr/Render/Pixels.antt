-- ===== src/Qr/Render/Pixels.antt =====
-- core/src/qr.rs: which pixels `encode_luma` paints, and that it writes inside the buffer.
use native.Mathlib.Nat.{suc-mul, mul-le-mul_right, mod-eq_of_lt, pow-suc}
use rabaska.Prelude.{
  ℕ, zero, suc, ◌≡◌, ◌≢◌, ◌≤◌, ◌<◌, ◌+◌, ◌*◌, ◌-◌, ◌^◌, inl, inr, refl, sym, subst, ap, ◌∙◌, some,
  true, [], ◌∷◌, length, get_or, replicate, length-replicate, ◌==◌, ltb, ltb→lt, lt→ltb,
  ltb-false→le, arith, Bool-cases,
}
use rabaska.Prelude.Bytes.{Bytes}
use rabaska.Error.{ok}
use rabaska.Qr.Encoder.{Ecc, QrCode, QrEncoder}
use rabaska.Qr.Render.{
  for_range, set_at, wrap_usize, white, paint_module, paint_if_dark, paint, encode_luma,
}
use rabaska.Qr.Render.Regions.{
  Region, or_region, any_region, Shows, Paints, same-Paints, if-Paints, for_range-Paints,
}

-- A write inside the buffer goes through and changes one byte.
set_at-ok :
    (i v : ℕ) (luma : Bytes)
    → i < length luma
    → (l : Bytes) × (set_at i v luma ≡ ok l)
      × (length l ≡ length luma)
      × (get_or l i 0 ≡ v)
      × ((k : ℕ) → k ≢ i → get_or l k 0 ≡ get_or luma k 0)
unfolding set_at
set_at-ok i v [] lt = absurd (omega arith)
set_at-ok zero v (b ∷ bs) lt = (v ∷ bs, refl, refl, refl, λ k. rest k)
  where
    rest : (k : ℕ) → k ≢ 0 → get_or (v ∷ bs) k 0 ≡ get_or (b ∷ bs) k 0
    rest zero ne = absurd (ne refl)
    rest (suc k) ne = refl
set_at-ok (suc i) v (b ∷ bs) lt =
    let (l, eq, len, here, rest) = set_at-ok i v bs (omega arith) in
    (b ∷ l, rw eq, ap suc len, here, λ k. other l rest k)
  where
    other :
        (l : Bytes)
        → ((k : ℕ) → k ≢ i → get_or l k 0 ≡ get_or bs k 0)
        → (k : ℕ) → k ≢ suc i
        → get_or (b ∷ l) k 0 ≡ get_or (b ∷ bs) k 0
    other l rest zero ne = refl
    other l rest (suc k) ne = rest k (λ e. ne (ap suc e))

row_lt : (side x y : ℕ) → x < side → y < side → y * side + x < side * side
row_lt side x y hx hy =
    let row : suc y * side ≤ side * side = mul-le-mul_right side (omega arith) in
    omega (arith, row, suc-mul y side)

row_le : (side x i y j : ℕ) → x < side → y < j → y * side + x < j * side + i
row_le side x i y j hx lt =
    let row : suc y * side ≤ j * side = mul-le-mul_right side (omega arith) in
    omega (arith, row, suc-mul y side)

-- A pixel has one index.
row_unique :
    (side x i y j : ℕ) → x < side → i < side → y * side + x ≡ j * side + i → (x ≡ i) × (y ≡ j)
row_unique side x i y j hx hi h = elim (Bool-cases (ltb y j)) [
  | inl below ↦ absurd (omega (arith, row_le side x i y j hx (ltb→lt y j below)))
  | inr above ↦ elim (Bool-cases (ltb j y)) [
    | inl over ↦ absurd (omega (arith, row_le side i x j y hi (ltb→lt j y over)))
    | inr under ↦
        let same : y ≡ j = omega (arith, ltb-false→le y j above, ltb-false→le j y under) in
        (let e = ap (λ r. r * side) same in omega arith, same)
  ]
]

abbrev dot : ℕ → ℕ → Region
dot i j x y = (x ≡ i) × (y ≡ j)

set_at-Paints :
    (side i j : ℕ) → i < side → j < side → Paints side (dot i j) (set_at (j * side + i) 0)
set_at-Paints side i j hi hj S luma (len, px) =
    let (l, eq, len', here, rest) =
      set_at-ok (j * side + i) 0 luma (omega (arith, row_lt side i j hi hj)) in
    (
      l,
      eq,
      (
        len' ∙ len,
        λ x y hx hy. elim (Bool-cases (y * side + x == j * side + i)) [
          | inl same ↦
              let same' : y * side + x ≡ j * side + i = ground arith in
              (
                λ in_region. ap (λ k. get_or l k 0) same' ∙ here,
                λ out. absurd (out (inr (row_unique side x i y j hx hi same'))),
              )
          | inr different ↦
              let ne : y * side + x ≢ j * side + i = ground arith in
              let (dark, light) = px x y hx hy in
              (
                λ in_region. rest (y * side + x) ne ∙ dark (before x y ne in_region),
                λ out. rest (y * side + x) ne ∙ light (λ s. out (inl s)),
              )
        ],
      ),
    )
  where
    before : (x y : ℕ) → y * side + x ≢ j * side + i → or_region S (dot i j) x y → S x y
    before x y ne (inl s) = s
    before x y ne (inr (ex, ey)) = absurd (ne (rw (ex, ey)))

-- The square of `scale` by `scale` pixels at a corner.
abbrev pub square : ℕ → ℕ → ℕ → Region
square scale x0 y0 x y = (x0 ≤ x) × (x < x0 + scale) × (y0 ≤ y) × (y < y0 + scale)

-- A side whose square can be allocated does not wrap, nor does any index inside the square.
abbrev pub IsAllocated : ℕ → ℕ → Type 0
IsAllocated bits side = side * side < 2 ^ (bits - 1)

half_le : (bits : ℕ) → 2 ^ (bits - 1) ≤ 2 ^ bits
half_le zero = omega arith
half_le (suc bits) =
    let same : 2 ^ (suc bits - 1) ≡ 2 ^ bits = ap (λ n. 2 ^ n) (omega arith) in
    omega (arith, same, pow-suc 2 bits)

-- What is not above an allocated side stays as it is.
unwrapped : (bits side n : ℕ) → IsAllocated bits side → n ≤ side → wrap_usize bits n ≡ n
unwrapped bits zero n small le = mod-eq_of_lt (omega (arith, half_le bits, small))
unwrapped bits (suc side) n small le =
    mod-eq_of_lt (omega (arith, half_le bits, small, suc-mul side (suc side)))

unwrapped_index :
    (bits side x y : ℕ)
    → IsAllocated bits side
    → x < side
    → y < side
    → wrap_usize bits (y * side + x) ≡ y * side + x
unwrapped_index bits side x y small hx hy =
    mod-eq_of_lt (omega (arith, half_le bits, small, row_lt side x y hx hy))

unwrapped_range :
    (bits side a scale : ℕ)
    → IsAllocated bits side
    → a + scale ≤ side
    → wrap_usize bits (a + scale) - a ≡ scale
unwrapped_range bits side a scale small le = omega (arith, unwrapped bits side (a + scale) small le)

paint_module-Paints :
    (bits side scale x0 y0 : ℕ)
    → IsAllocated bits side
    → x0 + scale ≤ side
    → y0 + scale ≤ side
    → Paints side (square scale x0 y0) (paint_module bits side scale x0 y0)
unfolding paint_module
paint_module-Paints bits side scale x0 y0 small hx hy =
    rw (unwrapped_range bits side x0 scale small hx, unwrapped_range bits side y0 scale small hy)
      (same-Paints side (any_region y0 scale (λ j. any_region x0 scale (λ i. dot i j)))
        (square scale x0 y0)
        (for_range scale (λ y. for_range scale (λ x. set_at (wrap_usize bits (y * side + x)) 0) x0)
          y0)
        (λ x y p.
          let (j, low, high, inner) = p in
          let (i, low', high', at) = inner in
          let (ex, ey) = at in (omega arith, omega arith, omega arith, omega arith))
        (λ x y p. let (a, b, c, d) = p in (y, c, d, (x, a, b, (refl, refl))))
        (for_range-Paints side scale y0 (λ j. any_region x0 scale (λ i. dot i j))
          (λ y. for_range scale (λ x. set_at (wrap_usize bits (y * side + x)) 0) x0)
          (λ j low high.
            for_range-Paints side scale x0 (λ i. dot i j)
              (λ x. set_at (wrap_usize bits (j * side + x)) 0)
              (λ i low' high'.
                let i_lt : i < side = omega arith in
                let j_lt : j < side = omega arith in
                subst (λ k. Paints side (dot i j) (set_at k 0))
                  (sym (unwrapped_index bits side i j small i_lt j_lt))
                  (set_at-Paints side i j i_lt j_lt)))))

-- The squares of the dark modules, inside the quiet zone.
abbrev pub dark_squares : QrCode → ℕ → ℕ → Region
dark_squares code scale quiet x y =
    (mx : ℕ) × (my : ℕ) × (mx < code.size)
    × (my < code.size)
    × (code.get_module mx my ≡ true)
    × square scale ((mx + quiet) * scale) ((my + quiet) * scale) x y

square_le :
    (size scale quiet m : ℕ) → m < size → (m + quiet) * scale + scale ≤ (size + 2 * quiet) * scale
square_le size scale quiet m lt =
    let le : suc (m + quiet) * scale ≤ (size + 2 * quiet) * scale =
      mul-le-mul_right scale (omega arith) in
    omega (arith, le, suc-mul (m + quiet) scale)

-- The pixels on a side.
abbrev pub side : QrCode → ℕ → ℕ → ℕ
side code scale quiet = (code.size + 2 * quiet) * scale

module _ (bits : ℕ) (code : QrCode) (scale quiet : ℕ)
    (small : IsAllocated bits (side code scale quiet)) where
  abbrev w : ℕ
  w = side code scale quiet

  abbrev module_region : ℕ → ℕ → Region
  module_region my mx x y =
      (code.get_module mx my ≡ true)
      × square scale ((mx + quiet) * scale) ((my + quiet) * scale) x y

  -- One module.
  paint_if_dark-Paints :
      (my mx : ℕ)
      → my < code.size
      → mx < code.size
      → Paints w (module_region my mx) (paint_if_dark bits code w scale quiet my mx)
  unfolding paint_if_dark
  paint_if_dark-Paints my mx hy hx =
      let right = square_le code.size scale quiet mx hx in
      let below = square_le code.size scale quiet my hy in
      let x0 = (mx + quiet) * scale in
      let y0 = (my + quiet) * scale in
      rw (unwrapped bits w x0 small (omega arith), unwrapped bits w y0 small (omega arith))
        (if-Paints w (code.get_module mx my) (square scale x0 y0) (paint_module bits w scale x0 y0)
          (paint_module-Paints bits w scale x0 y0 small right below))

  paint-Paints : Paints w (dark_squares code scale quiet) (paint bits code w scale quiet)
  unfolding paint
  paint-Paints =
      same-Paints w (any_region 0 code.size (λ my. any_region 0 code.size (module_region my)))
        (dark_squares code scale quiet) (paint bits code w scale quiet)
        (λ x y p.
          let (my, low, high, inner) = p in
          let (mx, low', high', lit) = inner in
          let (dark, within) = lit in
          (mx, my, omega (arith, high'), omega (arith, high), dark, within))
        (λ x y p.
          let (mx, my, hx, hy, dark, within) = p in
          (
            my,
            omega arith,
            omega (arith, hy),
            (mx, omega arith, omega (arith, hx), (dark, within)),
          ))
        (for_range-Paints w code.size 0 (λ my. any_region 0 code.size (module_region my))
          (λ my. for_range code.size (paint_if_dark bits code w scale quiet my) 0)
          (λ my low high.
            for_range-Paints w code.size 0 (module_region my)
              (paint_if_dark bits code w scale quiet my)
              (λ mx low' high'.
                paint_if_dark-Paints my mx (omega (arith, high)) (omega (arith, high')))))

get_or-replicate : (n i : ℕ) → i < n → get_or (replicate {A = ℕ} n 255) i 0 ≡ 255
get_or-replicate zero i lt = absurd (omega arith)
get_or-replicate (suc n) zero lt = refl
get_or-replicate (suc n) (suc i) lt = get_or-replicate n i (omega arith)

all_light : (w : ℕ) → Shows w (λ x y. ⊥) (replicate (w * w) 255)
all_light w = (
  length-replicate (w * w) 255,
  λ x y hx hy.
      ((λ no_way. absurd no_way), (λ h. get_or-replicate (w * w) (y * w + x) (row_lt w x y hx hy))),
)

-- What the crate encodes, encode_luma renders without a panic, on a machine whose `usize` has `bits` bits,
-- where the square of the side is less than 2 ^ (bits - 1), the most that can be allocated: the image is the
-- square of the modules with the quiet zone on each side, scale pixels each, and a pixel is 0 in the square of
-- a dark module and 255 anywhere else.
pub encode_luma-Shows :
    ⦃qr : QrEncoder⦄ (bits : ℕ) (bytes : Bytes) (ecc : Ecc) (scale quiet : ℕ) (code : QrCode)
    → qr.encode_binary bytes ecc ≡ some code
    → IsAllocated bits (side code scale quiet)
    → (luma : Bytes) × (encode_luma bits bytes ecc scale quiet
        ≡ ok (record {
          luma = luma;
          width = side code scale quiet;
          height = side code scale quiet;
          modules = code.size;
        }))
      × Shows (side code scale quiet) (dark_squares code scale quiet) luma
unfolding encode_luma white
encode_luma-Shows bits bytes ecc scale quiet code found small =
    let w = side code scale quiet in
    let (l, eq, (len, px)) =
      paint-Paints bits code scale quiet small (λ x y. ⊥) (replicate (w * w) 255) (all_light w) in
    let kept = unwrapped bits w w small (omega arith) in
    let area : wrap_usize bits (w * w) ≡ w * w =
      mod-eq_of_lt (omega (arith, half_le bits, small)) in
    let room : ltb (w * w) (2 ^ (bits - 1)) ≡ true = lt→ltb (w * w) (2 ^ (bits - 1)) small in
    (
      l,
      rw (encode_luma, found, kept, area, room, eq),
      (
        len,
        λ x y hx hy.
            let (dark, light) = px x y hx hy in
            ((λ d. dark (inr d)), (λ nd. light (λ o. nd (only o)))),
      ),
    )
  where
    only :
        {x y : ℕ}
        → or_region (λ x y. ⊥) (dark_squares code scale quiet) x y
        → dark_squares code scale quiet x y
    only (inl no_way) = absurd no_way
    only (inr d) = d
