-- ===== src/Payload/Name.antt =====
-- core/src/payload.rs: what `safe_name` lets through.
mod Lengths
mod Trimming
use rabaska.Prelude.{
  ℕ, suc, ◌≡◌, ◌≢◌, ◌≤◌, ◌+◌, ◌-◌, inl, inr, refl, ap, ◌∙◌, subst, Option, none, some, Bool, false,
  not, [], ◌∷◌, length, take, All, leb, ◌==◌, if◌then◌else◌, arith, Bool-cases, All-take,
  All-append, length-append, length-take, leb→le,
}
use rabaska.Payload.Text.{
  Text, is_control, is_whitespace, filter_by, trim_start, trim_end, keep_unless, trim_matches,
  any_of, last_part, rsplit_once,
}
use rabaska.Payload.Label.{
  choose_ext, fit, max_name, is_separator, is_dot, trimmed, non_empty, is_extension, stem_and_ext,
  shorten, safe_name,
}
use rabaska.Payload.Name.Lengths.{length-trimmed, length-shorten}
use rabaska.Payload.Name.Trimming.{trimmed_idem}

module _ {κ} (P : ℕ → Type κ) where
  All-filter_by : (keep : ℕ → Bool) (s : Text) → All P s → All P (filter_by keep s)
  All-filter_by keep [] h = tt
  All-filter_by keep (c ∷ cs) h = elim (Bool-cases (keep c)) [
    | inl kept ↦ rw kept (h.0, All-filter_by keep cs h.1)
    | inr lost ↦ rw lost (All-filter_by keep cs h.1)
  ]

  All-trim_start : (p : ℕ → Bool) (s : Text) → All P s → All P (trim_start p s)
  All-trim_start p [] h = tt
  All-trim_start p (c ∷ cs) h = elim (Bool-cases (p c)) [
    | inl lost ↦ rw lost (All-trim_start p cs h.1)
    | inr kept ↦ rw kept h
  ]

  All-keep_unless : (p : ℕ → Bool) (c : ℕ) (s : Text) → P c → All P s → All P (keep_unless p c s)
  All-keep_unless p c [] hc h = elim (Bool-cases (p c)) [
    | inl lost ↦ rw lost tt
    | inr kept ↦ rw kept (hc, tt)
  ]
  All-keep_unless p c (d ∷ ds) hc h = (hc, h)

  All-trim_end : (p : ℕ → Bool) (s : Text) → All P s → All P (trim_end p s)
  All-trim_end p [] h = tt
  All-trim_end p (c ∷ cs) h = All-keep_unless p c (trim_end p cs) h.0 (All-trim_end p cs h.1)

  pub All-trim_matches : (p : ℕ → Bool) (s : Text) → All P s → All P (trim_matches p s)
  unfolding trim_matches
  All-trim_matches p s h = All-trim_end p (trim_start p s) (All-trim_start p s h)

  All-trimmed : (s : Text) → All P s → All P (trimmed s)
  unfolding trimmed
  All-trimmed s h =
      All-trim_matches is_whitespace _
        (All-trim_matches is_dot _ (All-trim_matches is_whitespace s h))

  All-last_part : (p : ℕ → Bool) (s : Text) → All P s → All P (last_part p s)
  All-last_part p [] h = tt
  All-last_part p (c ∷ cs) h = elim (Bool-cases (any_of p cs)) [
    | inl later ↦ rw later (All-last_part p cs h.1)
    | inr end ↦ elim (Bool-cases (p c)) [
      | inl here ↦ rw (end, here) h.1
      | inr nowhere ↦ rw (end, nowhere) h
    ]
  ]

  -- Of both halves of a split.
  abbrev AllParts : Option (Text × Text) → Type κ
  AllParts none = Unit
  AllParts (some (a, b)) = All P a × All P b

  All-rsplit_once_step :
      (sep c : ℕ) (cs : Text) (o : Option (Text × Text))
      → P c
      → All P cs
      → AllParts o
      → AllParts (elim o [
        | some (a, b) ↦ some (c ∷ a, b)
        | none ↦ if c == sep then some ([], cs) else none
      ])
  All-rsplit_once_step sep c cs none hc h parts = elim (Bool-cases (c == sep)) [
    | inl here ↦ rw here (tt, h)
    | inr nowhere ↦ rw nowhere tt
  ]
  All-rsplit_once_step sep c cs (some (a, b)) hc h parts = ((hc, parts.0), parts.1)

  All-rsplit_once : (sep : ℕ) (s : Text) → All P s → AllParts (rsplit_once sep s)
  unfolding rsplit_once
  All-rsplit_once sep [] h = tt
  All-rsplit_once sep (c ∷ cs) h =
      All-rsplit_once_step sep c cs (rsplit_once sep cs) h.0 h.1 (All-rsplit_once sep cs h.1)

  All-shorten_step :
      (s : Text) (o : Option (Text × Text))
      → P b'.'
      → All P s
      → AllParts o
      → All P (shorten (choose_ext s o))
  unfolding shorten
  All-shorten_step s none dot h parts = All-take P max_name s h
  All-shorten_step s (some (stem, e)) dot h parts = elim (Bool-cases (is_extension e)) [
    | inl kept ↦ rw kept (
        All-append P (take (max_name - (length e + 1)) stem) (b'.' ∷ e) (All-take P _ stem parts.0)
          (dot, parts.1))
    | inr lost ↦ rw lost (All-take P max_name s h)
  ]

  -- `shorten` adds a dot.
  All-shorten : (s : Text) → P b'.' → All P s → All P (shorten (stem_and_ext s))
  unfolding stem_and_ext
  All-shorten s dot h = All-shorten_step s (rsplit_once b'.' s) dot h (All-rsplit_once b'.' s h)

-- Neither a path separator nor a control character.
abbrev pub IsPlain : ℕ → Type 0
IsPlain c = (is_separator c ≡ false) × (is_control c ≡ false)

any_of-All : (p : ℕ → Bool) (s : Text) → any_of p s ≡ false → All (λ c. p c ≡ false) s
any_of-All p [] h = tt
any_of-All p (c ∷ cs) h = (ground arith, any_of-All p cs (ground arith))

last_part-All : (p : ℕ → Bool) (s : Text) → All (λ c. p c ≡ false) (last_part p s)
last_part-All p [] = tt
last_part-All p (c ∷ cs) = elim (Bool-cases (any_of p cs)) [
  | inl later ↦ rw later (last_part-All p cs)
  | inr end ↦ elim (Bool-cases (p c)) [
    | inl here ↦ rw (end, here) (any_of-All p cs end)
    | inr nowhere ↦ rw (end, nowhere) (nowhere, any_of-All p cs end)
  ]
]

cleaned-All :
    (s : Text)
    → All (λ c. is_separator c ≡ false) s
    → All IsPlain (filter_by (λ c. not (is_control c)) s)
cleaned-All [] h = tt
cleaned-All (c ∷ cs) h = elim (Bool-cases (is_control c)) [
  | inl lost ↦ rw lost (cleaned-All cs h.1)
  | inr kept ↦ rw kept ((h.0, kept), cleaned-All cs h.1)
]

-- What holds of every name that `safe_name` returns. Such a name may start with dots, or be dots only.
abbrev pub IsTidy : Text → Type 0
IsTidy n = (n ≢ []) × (length n ≤ max_name) × All IsPlain n × (trim_matches is_whitespace n ≡ n)

dot-IsPlain : IsPlain b'.'
unfolding is_control
dot-IsPlain = (refl, refl)

not_empty_of : (t n : Text) → non_empty t ≡ some n → (t ≡ n) × (n ≢ [])
not_empty_of [] n h = cc
not_empty_of (c ∷ cs) n h = let same : c ∷ cs ≡ n = cc h in (same, λ e. cc (same, e))

non_empty-IsTidy :
    (s n : Text) → length s ≤ max_name → All IsPlain s → non_empty (trimmed s) ≡ some n → IsTidy n
non_empty-IsTidy s n le plain h =
    let (same, some_char) = not_empty_of (trimmed s) n h in
    (
      some_char,
      subst (λ t. length t ≤ max_name) same (omega (arith, length-trimmed s)),
      subst (All IsPlain) same (All-trimmed IsPlain s plain),
      subst (λ t. trim_matches is_whitespace t ≡ t) same (trimmed_idem s),
    )

fit-IsTidy :
    (s n : Text) → All IsPlain s → trim_matches is_whitespace s ≡ s → fit s ≡ some n → IsTidy n
unfolding fit
fit-IsTidy [] n plain idem h = absurd (ground arith)
fit-IsTidy (c ∷ cs) n plain idem h = elim (Bool-cases (leb (length (c ∷ cs)) max_name)) [
  | inl short ↦
      let same : c ∷ cs ≡ n = ground arith in
      (
        λ e. cc (same, e),
        subst (λ t. length t ≤ max_name) same (leb→le (length (c ∷ cs)) max_name short),
        subst (All IsPlain) same plain,
        subst (λ t. trim_matches is_whitespace t ≡ t) same idem,
      )
  | inr long ↦
      let cut = shorten (stem_and_ext (c ∷ cs)) in
      non_empty-IsTidy cut n (length-shorten (c ∷ cs))
        (All-shorten IsPlain (c ∷ cs) dot-IsPlain plain) (ground arith)
]

-- A name that `safe_name` returns is not empty, has at most 96 characters, no path separator and no control
-- character among them, and no white space at either end.
pub safe_name-IsTidy : (raw n : Text) → safe_name raw ≡ some n → IsTidy n
unfolding safe_name
safe_name-IsTidy raw n h =
    let part = last_part is_separator raw in
    let cleaned = filter_by (λ c. not (is_control c)) part in
    let plain = cleaned-All part (last_part-All is_separator raw) in
    fit-IsTidy (trimmed cleaned) n (All-trimmed IsPlain cleaned plain) (trimmed_idem cleaned) h

fit-All {κ} : (P : ℕ → Type κ) (s n : Text) → P b'.' → All P s → fit s ≡ some n → All P n
unfolding fit
fit-All P [] n dot h e = absurd (ground arith)
fit-All P (c ∷ cs) n dot h e = elim (Bool-cases (leb (length (c ∷ cs)) max_name)) [
  | inl short ↦ subst (All P) (let same : c ∷ cs ≡ n = ground arith in same) h
  | inr long ↦
      let cut = shorten (stem_and_ext (c ∷ cs)) in
      let (same, some_char) = not_empty_of (trimmed cut) n (ground arith) in
      subst (All P) same (All-trimmed P cut (All-shorten P (c ∷ cs) dot h))
]

-- Every code point of the result satisfies what those of the input and the dot satisfy.
pub safe_name-All {κ} :
    (P : ℕ → Type κ) (raw n : Text) → P b'.' → All P raw → safe_name raw ≡ some n → All P n
unfolding safe_name
safe_name-All P raw n dot h e =
    fit-All P (trimmed (filter_by (λ c. not (is_control c)) (last_part is_separator raw))) n dot
      (All-trimmed P _ (All-filter_by P _ _ (All-last_part P is_separator raw h))) e
