-- ===== src/Payload/Mime.antt =====
-- core/src/payload.rs: what `safe_mime` lets through.
use rabaska.Prelude.{
  ℕ, ◌≡◌, ◌≢◌, ◌≤◌, ◌<◌, ◌⊎◌, inl, inr, refl, sym, ap, ap₂, ◌∙◌, subst, Option, none, some, Bool,
  true, false, not, ◌||◌, ◌&&◌, [], ◌∷◌, ◌++◌, length, map, All, ltb, ◌==◌, if◌then◌else◌, arith,
  Bool-cases, Option-cases, ltb-false→le, All-append,
}
use rabaska.Prelude.Bytes.{ascii, bytes_eq, bytes_eq_refl}
use rabaska.Payload.Text.{
  Text, is_whitespace, every, trim_end, keep_unless, trim_matches, first_part, split_once, to_lower,
}
use rabaska.Payload.Utf8.{utf8}
use rabaska.Payload.Label.{max_mime, token_char, token_ok, is_listed, split_then, allow, safe_mime}

-- A character of a type that is allowed, in lower case.
abbrev IsTypeChar : ℕ → Type 0
IsTypeChar c = ((token_char c ≡ true) ⊎ (c ≡ b'/')) × (to_lower c ≡ c)

-- Such a character is ASCII, no white space and no semicolon.
type_char_lem :
    (c : ℕ) → IsTypeChar c → (c < 128) × (is_whitespace c ≡ false) × ((c == b';') ≡ false)
unfolding token_char is_whitespace
type_char_lem c h = ground arith

-- A split gives the text back.
split_once-append : (sep : ℕ) (s a b : Text) → split_once sep s ≡ some (a, b) → s ≡ a ++ sep ∷ b
unfolding split_once
split_once-append sep [] a b h = absurd (ground arith)
split_once-append sep (c ∷ cs) a b h = elim (Bool-cases (c == sep)) [
  | inl here ↦
      let ea : a ≡ [] = ground arith in
      let eb : cs ≡ b = ground arith in let ec : c ≡ sep = ground arith in rw ea (ap₂ ◌∷◌ ec eb)
  | inr nowhere ↦ elim (Option-cases (split_once sep cs)) [
    | inl without ↦ absurd (ground arith)
    | inr ((a', b'), later) ↦
        let rest = split_once-append sep cs a' b' later in
        let ea : a ≡ c ∷ a' = ground arith in
        let eb : b' ≡ b = ground arith in
        rw ea (ap (λ t. c ∷ t) (rest ∙ ap (λ t. a' ++ sep ∷ t) eb))
  ]
]

every-All : (p : ℕ → Bool) (s : Text) → every p s ≡ true → All (λ c. p c ≡ true) s
every-All p [] h = tt
every-All p (c ∷ cs) h = (ground arith, every-All p cs (ground arith))

map-to_lower_idem : (s : Text) → map to_lower (map to_lower s) ≡ map to_lower s
map-to_lower_idem [] = refl
map-to_lower_idem (c ∷ cs) = ap₂ ◌∷◌ (ground arith) (map-to_lower_idem cs)

module _ {ℓ} {A : Type ℓ} {m : A} where
  -- A guard that returns early has not, and one that must hold has held.
  passes : (b : Bool) (x : Option A) → (if b then none else x) ≡ some m → (b ≡ false) × (x ≡ some m)
  passes true x h = cc
  passes false x h = (refl, h)

  holds : (b : Bool) (x : Option A) → (if b then x else none) ≡ some m → (b ≡ true) × (x ≡ some m)
  holds true x h = (refl, h)
  holds false x h = cc

or-false : (a b : Bool) → (a || b) ≡ false → (a ≡ false) × (b ≡ false)
or-false a b h = ground arith

not-false : (a : Bool) → not a ≡ false → a ≡ true
not-false a h = ground arith

-- What `allow` has tested when it returns a type.
allow-some :
    (base m : Text)
    → allow base ≡ some m
    → (base ≡ m)
      × (is_listed base ≡ true)
      × (bytes_eq base (ascii "image/svg+xml") ≡ false)
      × (length (utf8 base) ≤ max_mime)
      × ((ty : Text) × (sub : Text) × (base ≡ ty ++ b'/' ∷ sub)
          × (token_ok ty ≡ true)
          × (token_ok sub ≡ true))
unfolding allow split_then
allow-some base m h =
    let (small, rest) = passes _ _ h in
    let le = ltb-false→le max_mime (length (utf8 base)) (or-false (length base == 0) _ small).1 in
    elim (Option-cases (split_once b'/' base)) [
      | inl without ↦
          absurd (let bad = subst (λ o. split_then base o ≡ some m) without rest in cc bad)
      | inr ((ty, sub), parts) ↦
          let (tokens, rest') = passes _ _ (subst (λ o. split_then base o ≡ some m) parts rest) in
          let (svg, rest'') = passes _ _ rest' in
          let (listed, same) = holds _ _ rest'' in
          let both = or-false (not (token_ok ty)) (not (token_ok sub)) tokens in
          (
            cc same,
            listed,
            svg,
            le,
            (
              ty,
              sub,
              split_once-append b'/' base ty sub parts,
              not-false (token_ok ty) both.0,
              not-false (token_ok sub) both.1,
            ),
          )
    ]

-- A text of type characters is its own base.
module _ (p : ℕ → Bool) where
  abbrev Lacks : Text → Type 0
  Lacks = All (λ c. p c ≡ false)

  trim_end-Lacks : (s : Text) → Lacks s → trim_end p s ≡ s
  trim_end-Lacks [] h = refl
  trim_end-Lacks (c ∷ []) h = rw h.0 refl
  trim_end-Lacks (c ∷ d ∷ ds) h = ap (keep_unless p c) (trim_end-Lacks (d ∷ ds) h.1)

  trim_matches-Lacks : (s : Text) → Lacks s → trim_matches p s ≡ s
  unfolding trim_matches
  trim_matches-Lacks [] h = refl
  trim_matches-Lacks (c ∷ cs) h = rw h.0 (trim_end-Lacks (c ∷ cs) h)

  first_part-Lacks : (s : Text) → Lacks s → first_part p s ≡ s
  first_part-Lacks [] h = refl
  first_part-Lacks (c ∷ cs) h = rw h.0 (ap (λ t. c ∷ t) (first_part-Lacks cs h.1))

All-map {ℓ κ} :
    (P : ℕ → Type ℓ) (Q : ℕ → Type κ) (s : Text) → ((c : ℕ) → P c → Q c) → All P s → All Q s
All-map P Q [] f h = tt
All-map P Q (c ∷ cs) f h = (f c h.0, All-map P Q cs f h.1)

and-true : (a b : Bool) → (a && b) ≡ true → (a ≡ true) × (b ≡ true)
and-true a b h = ground arith

token_ok-All : (s : Text) → token_ok s ≡ true → All (λ c. token_char c ≡ true) s
unfolding token_ok
token_ok-All s h = every-All token_char s (and-true (ltb 0 (length s)) (every token_char s) h).1

All-both : (P Q : ℕ → Type 0) (s : Text) → All P s → All Q s → All (λ c. P c × Q c) s
All-both P Q [] p q = tt
All-both P Q (c ∷ cs) p q = ((p.0, q.0), All-both P Q cs p.1 q.1)

lower-All : (s t : Text) → s ≡ map to_lower t → All (λ c. to_lower c ≡ c) s
lower-All [] t h = tt
lower-All (c ∷ cs) [] h = cc
lower-All (c ∷ cs) (d ∷ ds) h =
    let e : c ≡ to_lower d = cc h in
    let es : cs ≡ map to_lower ds = cc h in (ground arith, lower-All cs ds es)

map-fixed : (s : Text) → All (λ c. to_lower c ≡ c) s → map to_lower s ≡ s
map-fixed [] h = refl
map-fixed (c ∷ cs) h = ap₂ ◌∷◌ h.0 (map-fixed cs h.1)

-- A base of type characters that `allow` takes is taken by `safe_mime` as it is.
safe_mime_fixed : (m : Text) → All IsTypeChar m → allow m ≡ some m → safe_mime m ≡ some m
unfolding safe_mime
safe_mime_fixed m chars h =
    let no_semicolon =
      All-map IsTypeChar (λ c. (c == b';') ≡ false) m (λ c t. (type_char_lem c t).2) chars in
    let no_space =
      All-map IsTypeChar (λ c. is_whitespace c ≡ false) m (λ c t. (type_char_lem c t).1) chars in
    let lower = All-map IsTypeChar (λ c. to_lower c ≡ c) m (λ c t. t.1) chars in
    rw
      (
        first_part-Lacks (λ c. c == b';') m no_semicolon,
        trim_matches-Lacks is_whitespace m no_space,
        map-fixed m lower,
      )
      h

-- The characters of a type that `safe_mime` returns.
chars_of : (raw m : Text) → safe_mime raw ≡ some m → All IsTypeChar m × (allow m ≡ some m)
unfolding safe_mime
chars_of raw m h =
    let t = trim_matches is_whitespace (first_part (λ c. c == b';') raw) in
    let (same, _, _, _, (ty, sub, parts, ty_ok, sub_ok)) = allow-some (map to_lower t) m h in
    let tokens : All (λ c. (token_char c ≡ true) ⊎ (c ≡ b'/')) (ty ++ b'/' ∷ sub) =
      All-append (λ c. (token_char c ≡ true) ⊎ (c ≡ b'/')) ty (b'/' ∷ sub)
        (All-map (λ c. token_char c ≡ true) _ ty (λ c k. inl k) (token_ok-All ty ty_ok))
        (
          inr refl,
          All-map (λ c. token_char c ≡ true) _ sub (λ c k. inl k) (token_ok-All sub sub_ok),
        ) in
    let whole = subst (All (λ c. (token_char c ≡ true) ⊎ (c ≡ b'/'))) (sym parts ∙ same) tokens in
    (
      All-both (λ c. (token_char c ≡ true) ⊎ (c ≡ b'/')) (λ c. to_lower c ≡ c) m whole
          (lower-All m t (sym same)),
      subst (λ b. allow b ≡ some m) same h,
    )

-- A type that `safe_mime` returns is on the list, is not `image/svg+xml`, is ASCII, has at most 64 bytes,
-- and is returned as it is when it is checked again.
pub safe_mime-IsSafe :
    (raw m : Text)
    → safe_mime raw ≡ some m
    → (is_listed m ≡ true)
      × (m ≢ ascii "image/svg+xml")
      × All (λ c. c < 128) m
      × (length (utf8 m) ≤ max_mime)
      × (safe_mime m ≡ some m)
safe_mime-IsSafe raw m h =
    let (chars, allowed) = chars_of raw m h in
    let (_, listed, not_svg, short, _) = allow-some m m allowed in
    (
      listed,
      λ e.
          let yes : bytes_eq m (ascii "image/svg+xml") ≡ true = rw e (bytes_eq_refl _) in
          cc (yes, not_svg),
      All-map IsTypeChar (λ c. c < 128) m (λ c t. (type_char_lem c t).0) chars,
      short,
      safe_mime_fixed m chars allowed,
    )
