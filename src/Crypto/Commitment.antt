-- ===== src/Crypto/Commitment.antt =====
-- core/src/crypto.rs: `verify_commit` compares in full, whatever its loop leaves to bits.
use rabaska.Prelude.{
  ℕ, zero, suc, ◌≡◌, ◌↔◌, ◌<◌, ◌+◌, refl, ap, ap₂, sym, ◌∙◌, Bool, true, false, ◌&&◌, [], ◌∷◌, ltb,
  ◌==◌, ==_iff, bit_or, bit_xor, arith, if◌then◌else◌,
}
use rabaska.Prelude.Bytes.{Bytes, IsArray, byte_at, slice-IsArray}
use rabaska.Crypto.Primitives.{Primitives}
use rabaska.Crypto.Human.{diff_loop, commit, verify_commit}

holds_below : (ℕ → Bool) → ℕ → Bool
holds_below test zero = true
holds_below test (suc bound) = holds_below test bound && test bound

holds_below_lem :
    (test : ℕ → Bool) (bound i : ℕ) → i < bound → holds_below test bound ≡ true → test i ≡ true
unfolding holds_below
holds_below_lem test zero i lt all = absurd (omega arith)
holds_below_lem test (suc bound) i lt all = ground (arith, holds_below_lem test bound i)

-- On bytes, an exclusive or is 0 on equal bytes alone, and an or on two zeros alone.
bits_ok : ℕ → ℕ → Bool
bits_ok x y =
    let equal = x == y in
    (if bit_xor x y == 0 then equal else if equal then false else true)
    && ltb (bit_xor x y) 256
    && ltb (bit_or x y) 256
    && (if bit_or x y == 0 then x == 0 && y == 0 else true)

bits_table : holds_below (λ x. holds_below (bits_ok x) 256) 256 ≡ true
unfolding holds_below bits_ok
bits_table = refl

bits_facts :
    (x y : ℕ)
    → x < 256
    → y < 256
    → ((bit_xor x y ≡ 0) ↔ (x ≡ y))
      × (bit_xor x y < 256)
      × (bit_or x y < 256)
      × ((bit_or x y ≡ 0) → (x ≡ 0) × (y ≡ 0))
unfolding bits_ok
bits_facts x y hx hy =
    let row = holds_below_lem (λ x. holds_below (bits_ok x) 256) 256 x hx bits_table in
    let cell : bits_ok x y ≡ true = holds_below_lem (bits_ok x) 256 y hy row in ground arith

-- A round later, on the tails.
diff_loop-tail :
    (n i d x y : ℕ) (xs ys : Bytes)
    → diff_loop n (suc i) d (x ∷ xs) (y ∷ ys) ≡ diff_loop n i d xs ys
unfolding diff_loop
diff_loop-tail zero i d x y xs ys = refl
diff_loop-tail (suc n) i d x y xs ys =
    let d' = bit_or d (bit_xor (byte_at xs i) (byte_at ys i)) in
    ap (λ j. diff_loop n j d' (x ∷ xs) (y ∷ ys))
      (let e : suc i + 1 ≡ suc (i + 1) = omega arith in e)
    ∙ diff_loop-tail n (i + 1) d' x y xs ys

diff_loop_zero :
    (n d : ℕ) (xs ys : Bytes)
    → d < 256
    → IsArray n xs
    → IsArray n ys
    → (diff_loop n 0 d xs ys ≡ 0) ↔ ((d ≡ 0) × (xs ≡ ys))
diff_loop_zero zero d [] [] hd hx hy = unfold diff_loop in (λ h. (h, refl), λ h. h.0)
diff_loop_zero (suc n) d (x ∷ xs) (y ∷ ys) hd hx hy =
    let d' = bit_or d (bit_xor x y) in
    let xor = bits_facts x y hx.1.0 hy.1.0 in
    let or = bits_facts d (bit_xor x y) hd xor.1 in
    let ih = diff_loop_zero n d' xs ys or.2 (omega arith, hx.1.1) (omega arith, hy.1.1) in
    let step : diff_loop (suc n) 0 d (x ∷ xs) (y ∷ ys) ≡ diff_loop n 0 d' xs ys =
      unfold diff_loop in diff_loop-tail n 0 d' x y xs ys in
    (
      λ h.
          let (zeros, tails) = ih.0 (sym step ∙ h) in
          let (d_zero, xor_zero) = or.3 zeros in (d_zero, ap₂ ◌∷◌ (xor.0.0 xor_zero) tails),
      λ (d_zero, same).
          let heads : x ≡ y = cc same in
          let tails : xs ≡ ys = cc same in step ∙ ih.1 (ap₂ bit_or d_zero (xor.0.1 heads), tails),
    )
diff_loop_zero _ d _ _ hd hx hy = absurd (omega arith)

module _ ⦃prim : Primitives⦄ where
  pub commit-IsArray :
      (session_id r_eph_pub r_nonce : Bytes) → IsArray 16 (commit session_id r_eph_pub r_nonce)
  unfolding commit
  commit-IsArray session_id r_eph_pub r_nonce =
      let digest = prim.sha256-IsArray _ in
      slice-IsArray 0 16 (prim.sha256 _) digest.1 (omega arith)

  -- `verify_commit` accepts a revealed nonce exactly when the 16 bytes that were claimed are the
  -- commitment to it, under this session and this ephemeral key.
  pub verify_commit_iff :
      (session_id r_eph_pub r_nonce claimed : Bytes)
      → IsArray 16 claimed
      → (verify_commit session_id r_eph_pub r_nonce claimed ≡ true)
        ↔ (claimed ≡ commit session_id r_eph_pub r_nonce)
  verify_commit_iff session_id r_eph_pub r_nonce claimed wf =
      let expect = commit session_id r_eph_pub r_nonce in
      let loop =
        diff_loop_zero 16 0 expect claimed (omega arith)
          (commit-IsArray session_id r_eph_pub r_nonce) wf in
      unfold verify_commit in
      (
        λ h. sym (loop.0 ((==_iff (diff_loop 16 0 0 expect claimed) 0).0 h)).1,
        λ e. (==_iff (diff_loop 16 0 0 expect claimed) 0).1 (loop.1 (refl, sym e)),
      )
