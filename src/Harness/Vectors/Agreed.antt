-- ===== src/Harness/Vectors/Agreed.antt =====
-- harness/src/main.rs: the two ends of `cmd_vectors` agree, so that no assertion fails.
use rabaska.Prelude.{◌≡◌, refl, ap, ◌∙◌, none, some, true}
use rabaska.Prelude.Bytes.{Bytes, bytes_eq, bytes_eq_refl}
use rabaska.Error.{Result, ok, ◌>>◌}
use rabaska.Wire.Beacon.{aad}
use rabaska.Crypto.Primitives.{Primitives}
use rabaska.Crypto.Keys.{
  dh, sender, receiver, derive_pair, derive_session, seal_sender, seal_receiver, encrypt,
}
use rabaska.Harness.Vectors.{
  sid, nonce, test_payload, assert_eq, s_eph, s_id, r_eph, r_id, beacon, Derived, derived,
}

-- An assertion that holds is passed.
asserted : {A : Type 0} {k : Result A} (a b : Bytes) → a ≡ b → (assert_eq a b >> k) ≡ k
unfolding assert_eq
asserted a b same =
    let yes : bytes_eq a b ≡ true = ap (λ c. bytes_eq c b) same ∙ bytes_eq_refl b in rw yes refl

module _ ⦃prim : Primitives⦄ where
  pub pair_agrees :
      derive_pair sender s_eph r_eph.public sid ≡ derive_pair receiver r_eph s_eph.public sid
  unfolding derive_pair dh
  pair_agrees = cc (prim.diffie_hellman_comm s_eph.secret r_eph.secret)

  pub session_agrees :
      derive_session sender s_eph s_id r_eph.public r_id.public sid
      ≡ derive_session receiver r_eph r_id s_eph.public s_id.public sid
  unfolding derive_session dh
  session_agrees = cc (
    prim.diffie_hellman_comm s_eph.secret r_eph.secret,
    prim.diffie_hellman_comm s_eph.secret r_id.secret,
    prim.diffie_hellman_comm s_id.secret r_eph.secret,
  )

  pub seal_agrees : seal_sender s_eph none r_id.public ≡ seal_receiver r_id s_eph.public none
  unfolding seal_sender seal_receiver dh
  seal_agrees = cc (prim.diffie_hellman_comm s_eph.secret r_id.secret)

  pub seal_auth_agrees :
      seal_sender s_eph (some s_id) r_id.public ≡ seal_receiver r_id s_eph.public (some s_id.public)
  unfolding seal_sender seal_receiver dh
  seal_auth_agrees = cc (
    prim.diffie_hellman_comm s_eph.secret r_id.secret,
    prim.diffie_hellman_comm s_id.secret r_id.secret,
  )

  -- What the first half of `cmd_vectors` ends with.
  abbrev pub agreed : Derived
  agreed = record {
    k_pair = derive_pair sender s_eph r_eph.public sid;
    k_sess = derive_session sender s_eph s_id r_eph.public r_id.public sid;
    k_seal = seal_sender s_eph none r_id.public;
    k_seal_auth = seal_sender s_eph (some s_id) r_id.public;
    ct =
        encrypt (derive_session sender s_eph s_id r_eph.public r_id.public sid) nonce (aad beacon)
          test_payload;
  }

  pub derived_lem : derived ≡ ok agreed
  unfolding derived
  derived_lem =
      asserted (derive_pair sender s_eph r_eph.public sid)
        (derive_pair receiver r_eph s_eph.public sid) pair_agrees
      ∙ asserted agreed.k_sess (derive_session receiver r_eph r_id s_eph.public s_id.public sid)
          session_agrees
      ∙ asserted agreed.k_seal (seal_receiver r_id s_eph.public none) seal_agrees
      ∙ asserted agreed.k_seal_auth (seal_receiver r_id s_eph.public (some s_id.public))
          seal_auth_agrees
