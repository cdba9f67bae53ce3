-- ===== src/Payload/Name/Lengths.antt =====
-- core/src/payload.rs: what trimming and shortening a name do to its length.
use rabaska.Prelude.{
  ℕ, suc, ◌≤◌, ◌+◌, ◌-◌, inl, inr, Option, none, some, Bool, [], ◌∷◌, length, take, arith,
  Bool-cases, length-append, length-take,
}
use rabaska.Payload.Text.{
  Text, is_whitespace, trim_start, trim_end, keep_unless, trim_matches, rsplit_once,
}
use rabaska.Payload.Label.{
  choose_ext, max_name, is_dot, trimmed, is_extension, stem_and_ext, shorten,
}

length-trim_start : (p : ℕ → Bool) (s : Text) → length (trim_start p s) ≤ length s
length-trim_start p [] = omega arith
length-trim_start p (c ∷ cs) = ground (arith, length-trim_start p cs)

length-keep_unless : (p : ℕ → Bool) (c : ℕ) (s : Text) → length (keep_unless p c s) ≤ suc (length s)
length-keep_unless p c [] = ground arith
length-keep_unless p c (d ∷ ds) = omega arith

length-trim_end : (p : ℕ → Bool) (s : Text) → length (trim_end p s) ≤ length s
length-trim_end p [] = omega arith
length-trim_end p (c ∷ cs) =
    omega (arith, length-keep_unless p c (trim_end p cs), length-trim_end p cs)

length-trim_matches : (p : ℕ → Bool) (s : Text) → length (trim_matches p s) ≤ length s
unfolding trim_matches
length-trim_matches p s = omega (arith, length-trim_end p (trim_start p s), length-trim_start p s)

pub length-trimmed : (s : Text) → length (trimmed s) ≤ length s
unfolding trimmed
length-trimmed s =
    let once = trim_matches is_whitespace s in
    omega (
      arith,
      length-trim_matches is_whitespace s,
      length-trim_matches is_dot once,
      length-trim_matches is_whitespace (trim_matches is_dot once),
    )

length-shorten_step :
    (s : Text) (o : Option (Text × Text)) → length (shorten (choose_ext s o)) ≤ max_name
unfolding shorten
length-shorten_step s none = omega (arith, length-take max_name s)
length-shorten_step s (some (stem, e)) =
    let keep = max_name - (length e + 1) in
    elim (Bool-cases (is_extension e)) [
      | inl kept ↦
          let short : length e ≤ 16 = ground arith in
          rw kept (omega (arith, length-take keep stem, length-append (take keep stem) (b'.' ∷ e)))
      | inr lost ↦ rw lost (omega (arith, length-take max_name s))
    ]

pub length-shorten : (s : Text) → length (shorten (stem_and_ext s)) ≤ max_name
unfolding stem_and_ext
length-shorten s = length-shorten_step s (rsplit_once b'.' s)
