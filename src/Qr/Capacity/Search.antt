-- ===== src/Qr/Capacity/Search.antt =====
-- core/src/qr.rs: the binary search ends, on the largest length that the encoder takes.
use native.Mathlib.Nat.{pow-suc}
use rabaska.Prelude.{
  ℕ, zero, suc, ◌≡◌, ◌≤◌, ◌<◌, ◌+◌, ◌-◌, ◌^◌, inl, inr, refl, sym, subst, ◌∙◌, Option, none, some,
  true, false, ltb, leb, ◌==◌, arith, Bool-cases, ltb→lt, ltb-false→le, leb→le, le→ltb,
}
use rabaska.Qr.Encoder.{Ecc, QrEncoder}
use rabaska.Qr.Capacity.{mid, search_loop, capacity, find_version, smallest_version}

module _ ⦃qr : QrEncoder⦄ (version : ℕ) (ecc : Ecc) where
  abbrev Fits : ℕ → Type 0
  Fits len = qr.encodes len version ecc ≡ true

  -- The largest length from `lo` to `hi` that fits.
  abbrev pub IsLargest : ℕ → ℕ → ℕ → Type 0
  IsLargest lo hi r =
      (lo ≤ r) × (r ≤ hi) × Fits r × ((k : ℕ) → r < k → k ≤ hi → qr.encodes k version ecc ≡ false)

  -- What does not fit, does not fit with more bytes.
  too_long : (n k : ℕ) → qr.encodes n version ecc ≡ false → n ≤ k → qr.encodes k version ecc ≡ false
  too_long n k h le = elim (Bool-cases (qr.encodes k version ecc)) [
    | inl fits ↦ let fits' = qr.encodes_mono n k version ecc le fits in cc
    | inr no_fit ↦ no_fit
  ]

  loop_closed : (fuel lo hi : ℕ) → ltb lo hi ≡ false → search_loop version ecc fuel lo hi ≡ lo
  unfolding search_loop
  loop_closed zero lo hi closed = refl
  loop_closed (suc fuel) lo hi closed = rw (search_loop, closed)

  loop_upper :
      (fuel lo hi : ℕ)
      → ltb lo hi ≡ true
      → Fits (mid lo hi)
      → search_loop version ecc (suc fuel) lo hi ≡ search_loop version ecc fuel (mid lo hi) hi
  unfolding search_loop
  loop_upper fuel lo hi wide upper = rw (search_loop, wide, upper)

  loop_lower :
      (fuel lo hi : ℕ)
      → ltb lo hi ≡ true
      → qr.encodes (mid lo hi) version ecc ≡ false
      → search_loop version ecc (suc fuel) lo hi ≡ search_loop version ecc fuel lo (mid lo hi - 1)
  unfolding search_loop
  loop_lower fuel lo hi wide lower = rw (search_loop, wide, lower)

  search_loop-IsLargest :
      (fuel lo hi : ℕ)
      → lo ≤ hi
      → hi - lo < 2 ^ fuel
      → Fits lo
      → IsLargest lo hi (search_loop version ecc fuel lo hi)
  search_loop-IsLargest zero lo hi le small fits =
      rw (loop_closed zero lo hi (le→ltb lo hi (omega arith)))
        (omega arith, le, fits, λ k lt h. absurd (omega arith))
  search_loop-IsLargest (suc fuel) lo hi le small fits = elim (Bool-cases (ltb lo hi)) [
    | inr closed ↦
        let same = ltb-false→le lo hi closed in
        rw (loop_closed (suc fuel) lo hi closed)
          (omega arith, le, fits, λ k lt h. absurd (omega arith))
    | inl wide ↦
        let lt = ltb→lt lo hi wide in
        let m = mid lo hi in
        let p = pow-suc 2 fuel in
        elim (Bool-cases (qr.encodes m version ecc)) [
          | inl upper ↦
              let (a, b, c, d) =
                search_loop-IsLargest fuel m hi (omega arith) (omega arith) upper in
              rw (loop_upper fuel lo hi wide upper) (omega arith, b, c, d)
          | inr lower ↦
              let (a, b, c, d) =
                search_loop-IsLargest fuel lo (m - 1) (omega arith) (omega arith) fits in
              rw (loop_lower fuel lo hi wide lower) (
                a,
                omega arith,
                c,
                λ k lt' h. elim (Bool-cases (ltb k m)) [
                  | inl below ↦ let below' = ltb→lt k m below in d k lt' (omega arith)
                  | inr above ↦ too_long m k lower (ltb-false→le k m above)
                ],
              )
        ]
  ]

  -- More rounds change nothing once the range has closed.
  search_loop_rounds :
      (fuel more lo hi : ℕ)
      → fuel ≤ more
      → hi - lo < 2 ^ fuel
      → search_loop version ecc more lo hi ≡ search_loop version ecc fuel lo hi
  search_loop_rounds zero more lo hi le small =
      let closed = le→ltb lo hi (omega arith) in
      loop_closed more lo hi closed ∙ sym (loop_closed zero lo hi closed)
  search_loop_rounds (suc fuel) zero lo hi le small = absurd (omega arith)
  search_loop_rounds (suc fuel) (suc more) lo hi le small = elim (Bool-cases (ltb lo hi)) [
    | inr closed ↦ loop_closed (suc more) lo hi closed ∙ sym (loop_closed (suc fuel) lo hi closed)
    | inl wide ↦
        let lt = ltb→lt lo hi wide in
        let m = mid lo hi in
        let p = pow-suc 2 fuel in
        elim (Bool-cases (qr.encodes m version ecc)) [
          | inl upper ↦
              loop_upper more lo hi wide upper
              ∙ search_loop_rounds fuel more m hi (omega arith) (omega arith)
              ∙ sym (loop_upper fuel lo hi wide upper)
          | inr lower ↦
              loop_lower more lo hi wide lower
              ∙ search_loop_rounds fuel more lo (m - 1) (omega arith) (omega arith)
              ∙ sym (loop_lower fuel lo hi wide lower)
        ]
  ]

  -- The capacity is the largest number of bytes up to 3000 that the encoder takes: it takes that many and none
  -- more; and the search has closed its range after 12 rounds, since any number of further rounds gives the
  -- same.
  pub capacity-IsLargest :
      IsLargest 0 3000 (capacity version ecc)
      × ((more : ℕ) → search_loop version ecc (12 + more) 0 3000 ≡ capacity version ecc)
  unfolding capacity
  capacity-IsLargest = (
    search_loop-IsLargest 12 0 3000 (omega arith) (omega arith) (qr.encodes_empty version ecc),
    λ more. search_loop_rounds 12 (12 + more) 0 3000 (omega arith) (omega arith),
  )

  -- Up to 3000 bytes, a length is within the capacity exactly if the encoder takes it.
  capacity_iff :
      (len : ℕ) → len ≤ 3000 → (leb len (capacity version ecc)) ≡ qr.encodes len version ecc
  capacity_iff len le =
      let ((_, top, fits, above), _) = capacity-IsLargest in
      elim (Bool-cases (leb len (capacity version ecc))) [
        | inl within ↦
            within
            ∙ sym (
                qr.encodes_mono len (capacity version ecc) version ecc
                  (leb→le len (capacity version ecc) within) fits)
        | inr beyond ↦ beyond ∙ sym (above len (ground arith) le)
      ]

module _ ⦃qr : QrEncoder⦄ (len : ℕ) (ecc : Ecc) where
  -- The first of `rounds` versions that takes `len` bytes, if any does.
  abbrev pub IsFirst : ℕ → ℕ → Option ℕ → Type 0
  IsFirst first rounds (some v) =
      (first ≤ v)
      × (v < first + rounds)
      × (qr.encodes len v ecc ≡ true)
      × ((u : ℕ) → first ≤ u → u < v → qr.encodes len u ecc ≡ false)
  IsFirst first rounds none =
      (u : ℕ) → first ≤ u → u < first + rounds → qr.encodes len u ecc ≡ false

  later-IsFirst :
      (first rounds : ℕ) (o : Option ℕ)
      → qr.encodes len first ecc ≡ false
      → IsFirst (first + 1) rounds o
      → IsFirst first (suc rounds) o
  later-IsFirst first rounds none no_fit h = λ u le lt. elim (Bool-cases (u == first)) [
    | inl here ↦ let same : u ≡ first = ground arith in rw same no_fit
    | inr there ↦ h u (ground arith) (omega arith)
  ]
  later-IsFirst first rounds (some v) no_fit (a, b, c, d) = (
    omega arith,
    omega arith,
    c,
    λ u le lt. elim (Bool-cases (u == first)) [
      | inl here ↦ let same : u ≡ first = ground arith in rw same no_fit
      | inr there ↦ d u (ground arith) lt
    ],
  )

  find_here :
      (rounds first : ℕ)
      → leb len (capacity first ecc) ≡ true
      → find_version len ecc (suc rounds) first ≡ some first
  unfolding find_version
  find_here rounds first fits = rw (find_version, fits)

  find_later :
      (rounds first : ℕ)
      → leb len (capacity first ecc) ≡ false
      → find_version len ecc (suc rounds) first ≡ find_version len ecc rounds (first + 1)
  unfolding find_version
  find_later rounds first no_fit = rw (find_version, no_fit)

  find_none : (first : ℕ) → find_version len ecc 0 first ≡ none
  unfolding find_version
  find_none first = refl

  find_version-IsFirst :
      (rounds first : ℕ) → len ≤ 3000 → IsFirst first rounds (find_version len ecc rounds first)
  find_version-IsFirst zero first le =
      subst (IsFirst first 0) (sym (find_none first)) (λ u low high. absurd (omega arith))
  find_version-IsFirst (suc rounds) first le = elim (Bool-cases (leb len (capacity first ecc))) [
    | inl fits ↦ subst (IsFirst first (suc rounds)) (sym (find_here rounds first fits)) (
      omega arith,
      omega arith,
      sym (capacity_iff first ecc len le) ∙ fits,
      λ u low high. absurd (omega arith),
    )
    | inr no_fit ↦ subst (IsFirst first (suc rounds)) (sym (find_later rounds first no_fit)) (
        later-IsFirst first rounds (find_version len ecc rounds (first + 1))
          (sym (capacity_iff first ecc len le) ∙ no_fit)
          (find_version-IsFirst rounds (first + 1) le))
  ]

  -- Up to 3000 bytes, `smallest_version` is the smallest of the versions 1 to 40 at which the encoder takes so
  -- many bytes, and none if it takes them at none.
  smallest_version-IsFirst : len ≤ 3000 → IsFirst 1 40 (smallest_version len ecc)
  unfolding smallest_version
  smallest_version-IsFirst le = find_version-IsFirst 40 1 le
