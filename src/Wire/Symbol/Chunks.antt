-- ===== src/Wire/Symbol/Chunks.antt =====
-- core/src/wire.rs: `chunks_exact`, as `SymbolFrame::decode` uses it.
use rabaska.Prelude.{
  ℕ, zero, suc, ◌≡◌, ◌≤◌, ◌<◌, ◌*◌, refl, ap, subst, ◌↔◌, ◌∙◌, List, [], ◌∷◌, ◌++◌, All, length,
  take, drop, ltb, ◌==◌, if◌then◌else◌, arith, length-append, length-take, length-drop, take-append,
  drop-append, take-append-drop, All-append, All-take, All-drop, lt→ltb, le→ltb,
}
use rabaska.Prelude.Bytes.{Bytes, IsByte, IsArray, flat}
use rabaska.Error.{Result, ok, panic}

-- The chunks of `n` bytes, the remainder left out; there are at most `fuel` of them.
unfoldable pub chunks : ℕ → ℕ → Bytes → List Bytes
chunks zero n bs = []
chunks (suc fuel) n bs =
    let rest = chunks fuel n (drop n bs) in if ltb (length bs) n then [] else take n bs ∷ rest

-- `bs.chunks_exact(n)` panics on 0. Otherwise `length bs` bounds the number of chunks.
unfoldable pub chunks_exact : ℕ → Bytes → Result (List Bytes)
unfolding chunks
chunks_exact n bs = if n == 0 then panic else ok (chunks (length bs) n bs)

pub length-flat_packets :
    (n : ℕ) (ps : List Bytes) → All (IsArray n) ps → length (flat ps) ≡ length ps * n
length-flat_packets n [] h = omega arith
length-flat_packets n (p ∷ ps) h =
    omega (arith, length-append p (flat ps), length-flat_packets n ps h.1)

All-flat_packets : (n : ℕ) (ps : List Bytes) → All (IsArray n) ps → All IsByte (flat ps)
All-flat_packets n [] h = tt
All-flat_packets n (p ∷ ps) h = All-append IsByte p (flat ps) h.0.1 (All-flat_packets n ps h.1)

pub flat_packets-IsArray :
    (n : ℕ) (ps : List Bytes) → All (IsArray n) ps → IsArray (length ps * n) (flat ps)
flat_packets-IsArray n ps h = (length-flat_packets n ps h, All-flat_packets n ps h)

chunks-flat :
    (fuel n : ℕ) (ps : List Bytes)
    → 0 < n
    → All (IsArray n) ps
    → length ps ≤ fuel
    → chunks fuel n (flat ps) ≡ ps
unfolding chunks
chunks-flat zero n [] pos h le = refl
chunks-flat zero n (p ∷ ps) pos h le = absurd (omega arith)
chunks-flat (suc fuel) n [] pos h le = rw (lt→ltb 0 n pos)
chunks-flat (suc fuel) n (p ∷ ps) pos h le =
    rw
      (
        le→ltb (length (p ++ flat ps)) n (omega (arith, length-append p (flat ps))),
        take-append p (flat ps) n h.0.0,
        drop-append p (flat ps) n h.0.0,
      )
      (ap (λ t. p ∷ t) (chunks-flat fuel n ps pos h.1 (omega arith)))

length-le-flat :
    (n : ℕ) (ps : List Bytes) → 0 < n → All (IsArray n) ps → length ps ≤ length (flat ps)
length-le-flat n ps pos h = grind (arith, length-flat_packets n ps h)

pub chunks_exact-flat :
    (n : ℕ) (ps : List Bytes) → 0 < n → All (IsArray n) ps → chunks_exact n (flat ps) ≡ ok ps
unfolding chunks_exact
chunks_exact-flat n ps pos h =
    ground (arith, chunks-flat (length (flat ps)) n ps, length-le-flat n ps)

-- On `count * n` bytes the chunks are `count` packets of `n` bytes, and lose nothing.
chunks_facts :
    (fuel n count : ℕ) (bs : Bytes)
    → 0 < n
    → count ≤ fuel
    → All IsByte bs
    → length bs ≡ count * n
    → (flat (chunks fuel n bs) ≡ bs)
      × (length (chunks fuel n bs) ≡ count)
      × All (IsArray n) (chunks fuel n bs)
unfolding chunks
chunks_facts zero n zero [] pos le hb len = (refl, refl, tt)
chunks_facts zero n zero (b ∷ bs) pos le hb len = absurd (omega arith)
chunks_facts zero n (suc count) bs pos le hb len = absurd (omega arith)
chunks_facts (suc fuel) n zero [] pos le hb len = rw (lt→ltb 0 n pos) (refl, refl, tt)
chunks_facts (suc fuel) n zero (b ∷ bs) pos le hb len = absurd (omega arith)
chunks_facts (suc fuel) n (suc count) bs pos le hb len =
    let (flat_eq, count_eq, widths) =
      chunks_facts fuel n count (drop n bs) pos (omega arith) (All-drop IsByte n bs hb)
        (omega (arith, length-drop n bs)) in
    rw (le→ltb (length bs) n (omega arith)) (
      ap (λ t. take n bs ++ t) flat_eq ∙ take-append-drop n bs,
      ap suc count_eq,
      ((omega (arith, length-take n bs), All-take IsByte n bs hb), widths),
    )

pub chunks_exact_facts :
    (n count : ℕ) (bs : Bytes) (ps : List Bytes)
    → All IsByte bs
    → length bs ≡ count * n
    → chunks_exact n bs ≡ ok ps
    → (0 < n) × (flat ps ≡ bs) × (length ps ≡ count) × All (IsArray n) ps
unfolding chunks_exact
chunks_exact_facts zero count bs ps hb len h = cc
chunks_exact_facts (suc n) count bs ps hb len h =
    subst (λ qs. (0 < suc n) × (flat qs ≡ bs) × (length qs ≡ count) × All (IsArray (suc n)) qs)
      (let e : chunks (length bs) (suc n) bs ≡ ps = ground arith in e)
      (let (flat_eq, count_eq, widths) =
          chunks_facts (length bs) (suc n) count bs (omega arith) (grind arith) hb len in
        (omega arith, flat_eq, count_eq, widths))

pub chunks_exact-eq-panic : (n : ℕ) (bs : Bytes) → (chunks_exact n bs ≡ panic) ↔ (n ≡ 0)
unfolding chunks_exact
chunks_exact-eq-panic n bs = ground arith
