-- ===== src/Payload/Name/Trimming.antt =====
-- core/src/payload.rs: trimming a name that is trimmed.
use rabaska.Prelude.{ℕ, ◌≡◌, inl, inr, refl, ap, ◌∙◌, Bool, false, [], ◌∷◌, Bool-cases}
use rabaska.Payload.Text.{Text, is_whitespace, trim_start, trim_end, keep_unless, trim_matches}
use rabaska.Payload.Label.{is_dot, trimmed}

-- Trimming twice is trimming once.
trim_end-keep_unless :
    (p : ℕ → Bool) (c : ℕ) (s : Text)
    → trim_end p s ≡ s
    → trim_end p (keep_unless p c s) ≡ keep_unless p c s
trim_end-keep_unless p c [] h = elim (Bool-cases (p c)) [
  | inl lost ↦ rw lost refl
  | inr kept ↦ rw (kept, kept) refl
]
trim_end-keep_unless p c (d ∷ ds) h = ap (keep_unless p c) h

trim_start-keep_unless :
    (p : ℕ → Bool) (c : ℕ) (s : Text)
    → p c ≡ false
    → trim_start p (keep_unless p c s) ≡ keep_unless p c s
trim_start-keep_unless p c [] kept = rw (kept, kept) refl
trim_start-keep_unless p c (d ∷ ds) kept = rw kept refl

trim_end_idem : (p : ℕ → Bool) (s : Text) → trim_end p (trim_end p s) ≡ trim_end p s
trim_end_idem p [] = refl
trim_end_idem p (c ∷ cs) = trim_end-keep_unless p c (trim_end p cs) (trim_end_idem p cs)

trim_matches_idem : (p : ℕ → Bool) (s : Text) → trim_matches p (trim_matches p s) ≡ trim_matches p s
unfolding trim_matches
trim_matches_idem p [] = refl
trim_matches_idem p (c ∷ cs) = elim (Bool-cases (p c)) [
  | inl lost ↦ rw lost (trim_matches_idem p cs)
  | inr kept ↦
      rw kept (
        ap (trim_end p) (trim_start-keep_unless p c (trim_end p cs) kept)
        ∙ trim_end_idem p (c ∷ cs))
]

pub trimmed_idem : (s : Text) → trim_matches is_whitespace (trimmed s) ≡ trimmed s
unfolding trimmed
trimmed_idem s =
    trim_matches_idem is_whitespace (trim_matches is_dot (trim_matches is_whitespace s))
