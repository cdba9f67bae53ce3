-- ===== src/Harness/Vectors/Sound.antt =====
-- harness/src/main.rs: the vectors are printed, and what is printed is read back.
use Prim.Native.String.{String}
use rabaska.Prelude.{◌≡◌, refl, ap, ◌∙◌, none, some, true, List, All, arith, replicate}
use rabaska.Prelude.Bytes.{Bytes, IsByte, IsArray, ascii, slice, slice-IsArray, array}
use rabaska.Error.{ok}
use rabaska.Wire.Frame.{Crc}
use rabaska.Wire.Beacon
use rabaska.Wire.Beacon.{aad}
use rabaska.Wire.Beacon.Binding.{aad-IsByte}
use rabaska.Wire.Beacon.RoundTrip as BeaconTrip
use rabaska.Wire.PairReq
use rabaska.Wire.Complete
use rabaska.Crypto.Primitives.{Primitives}
use rabaska.Crypto.Keys.{
  receiver, derive_pair, derive_session, seal_sender, seal_receiver, encrypt, decrypt,
  decrypt-encrypt,
}
use rabaska.Crypto.Human.{commit, verify_commit, id_hint, complete_hash}
use rabaska.Crypto.Commitment.{verify_commit_iff, commit-IsArray}
use rabaska.Harness.Vectors.{
  sid, nonce, sas_nonce, test_payload, s_eph, s_id, r_eph, r_id, beacon, sample_pair_req, complete,
  lines, cmd_vectors,
}
use rabaska.Harness.Vectors.Reading.{field, unhex_quote, unhex_comma, read_hex}
use rabaska.Harness.Vectors.Agreed.{
  agreed, pair_agrees, session_agrees, seal_agrees, seal_auth_agrees, derived_lem,
}

-- The types of the crates: a derived key is made of bytes, and so is the ciphertext of bytes.
pub record GivesBytes ⦃prim : Primitives⦄ : Type 0 where
  pub hkdf : (ikm salt info : Bytes) → All IsByte (prim.hkdf ikm salt info)
  pub aead_encrypt :
      (key nonce aad m : Bytes) → All IsByte m → All IsByte (prim.aead_encrypt key nonce aad m)

-- The bytes that are printed under a label.
abbrev pub Prints : List Bytes → String → Bytes → Type 0
Prints out label bs = field (ascii label) out ≡ some bs

module _ ⦃prim : Primitives⦄ where
  -- The printed keys are those of the receiver.
  abbrev pub PrintsKeys : List Bytes → Type 0
  PrintsKeys out =
      Prints out "pair" (derive_pair receiver r_eph s_eph.public sid)
      × Prints out "session" (derive_session receiver r_eph r_id s_eph.public s_id.public sid)
      × Prints out "seal" (seal_receiver r_id s_eph.public none)
      × Prints out "seal_auth" (seal_receiver r_id s_eph.public (some s_id.public))

  -- The printed ciphertext opens to the printed plaintext.
  abbrev pub PrintsSealed : List Bytes → Type 0
  PrintsSealed out =
      (k : Bytes) × (n : Bytes) × (a : Bytes) × (c : Bytes) × (p : Bytes) × Prints out "session" k
      × Prints out "nonce" n
      × Prints out "aad" a
      × Prints out "ciphertext" c
      × Prints out "plaintext" p
      × (decrypt k n a c ≡ ok p)

  -- The printed nonce opens the printed commitment, for the printed session and key.
  abbrev pub PrintsCommitted : List Bytes → Type 0
  PrintsCommitted out =
      (s : Bytes) × (r : Bytes) × (n : Bytes) × (c : Bytes) × Prints out "session_id" s
      × Prints out "r_eph_pub" r
      × Prints out "sas_nonce" n
      × Prints out "commit" c
      × (verify_commit s r n c ≡ true)

module _ ⦃crc : Crc⦄ ⦃prim : Primitives⦄ where
  -- The three printed frames are read back.
  abbrev pub PrintsFrames : List Bytes → Type 0
  PrintsFrames out =
      ((f : Bytes) × Prints out "pair_req" f × (PairReq.decode f ≡ ok sample_pair_req))
      × ((f : Bytes) × Prints out "beacon" f × (Beacon.decode f ≡ ok beacon))
      × ((f : Bytes) × Prints out "complete" f × (Complete.decode f ≡ ok complete))

  keys_printed : GivesBytes → PrintsKeys (lines agreed)
  unfolding lines derive_pair derive_session seal_sender seal_receiver
  keys_printed given = (
    read_hex (ascii "pair") (lines agreed) agreed.k_pair (ascii "\",") refl (given.hkdf _ _ _)
          unhex_comma
        ∙ ap some pair_agrees,
    read_hex (ascii "session") (lines agreed) agreed.k_sess (ascii "\",") refl (given.hkdf _ _ _)
          unhex_comma
        ∙ ap some session_agrees,
    read_hex (ascii "seal") (lines agreed) agreed.k_seal (ascii "\",") refl (given.hkdf _ _ _)
          unhex_comma
        ∙ ap some seal_agrees,
    read_hex (ascii "seal_auth") (lines agreed) agreed.k_seal_auth (ascii "\"") refl
          (given.hkdf _ _ _) unhex_quote
        ∙ ap some seal_auth_agrees,
  )

  beacon-IsWellFormed : IsArray 32 s_eph.public → Beacon.IsWellFormed beacon
  beacon-IsWellFormed hs = record {
    flags = omega arith;
    session_id = array 8 sid refl;
    s_eph_pub = hs;
    nonce = array 24 nonce refl;
    plaintext_len = omega arith;
    oti = array 12 (replicate 12 0x66) refl;
    symbol_size = omega arith;
    palette = omega arith;
    tile_px = omega arith;
    build_hash = array 8 (replicate 8 0x77) refl;
  }

  pair_req-IsWellFormed : IsArray 32 r_eph.public → PairReq.IsWellFormed sample_pair_req
  unfolding id_hint
  pair_req-IsWellFormed hr =
      let hint = prim.sha256-IsArray _ in
      record {
        flags = omega arith;
        session_id = array 8 sid refl;
        r_eph_pub = hr;
        id_hint = slice-IsArray 0 4 (prim.sha256 _) hint.1 (omega arith);
        r_commit = commit-IsArray sid r_eph.public sas_nonce;
      }

  complete-IsWellFormed : Complete.IsWellFormed complete
  unfolding complete_hash
  complete-IsWellFormed =
      let digest = prim.sha256-IsArray _ in
      record {
        sid4 = array 4 (slice 0 4 sid) refl;
        hash8 = slice-IsArray 0 8 (prim.sha256 _) digest.1 (omega arith);
      }

  frames_printed : IsArray 32 s_eph.public → IsArray 32 r_eph.public → PrintsFrames (lines agreed)
  unfolding lines
  frames_printed hs hr =
      let wb = beacon-IsWellFormed hs in
      let wp = pair_req-IsWellFormed hr in
      let wc = complete-IsWellFormed in
      let fp = PairReq.encode sample_pair_req in
      let fb = Beacon.encode beacon in
      let fc = Complete.encode complete in
      (
        (
          fp,
          read_hex (ascii "pair_req") (lines agreed) fp (ascii "\",") refl
              (PairReq.encode-IsArray sample_pair_req wp).1 unhex_comma,
          PairReq.decode-encode sample_pair_req wp,
        ),
        (
          fb,
          read_hex (ascii "beacon") (lines agreed) fb (ascii "\",") refl
              (BeaconTrip.encode-IsArray beacon wb).1 unhex_comma,
          BeaconTrip.decode-encode beacon wb,
        ),
        (
          fc,
          read_hex (ascii "complete") (lines agreed) fc (ascii "\"") refl
              (Complete.encode-IsArray complete wc).1 unhex_quote,
          Complete.decode-encode complete wc,
        ),
      )

  sealed_printed : GivesBytes → IsArray 32 s_eph.public → PrintsSealed (lines agreed)
  unfolding lines derive_session encrypt
  sealed_printed given hs =
      let plain = array 20 test_payload refl in
      (
        agreed.k_sess,
        nonce,
        aad beacon,
        agreed.ct,
        test_payload,
        read_hex (ascii "session") (lines agreed) agreed.k_sess (ascii "\",") refl
            (given.hkdf _ _ _) unhex_comma,
        read_hex (ascii "nonce") (lines agreed) nonce (ascii "\"") refl (array 24 nonce refl).1
            unhex_quote,
        read_hex (ascii "aad") (lines agreed) (aad beacon) (ascii "\",") refl
            (aad-IsByte beacon (beacon-IsWellFormed hs)) unhex_comma,
        read_hex (ascii "ciphertext") (lines agreed) agreed.ct (ascii "\"") refl
            (given.aead_encrypt _ _ _ _ plain.1) unhex_quote,
        read_hex (ascii "plaintext") (lines agreed) test_payload (ascii "\",") refl plain.1
            unhex_comma,
        decrypt-encrypt agreed.k_sess nonce (aad beacon) test_payload,
      )

  committed_printed : IsArray 32 r_eph.public → PrintsCommitted (lines agreed)
  unfolding lines
  committed_printed hr =
      let committed = commit-IsArray sid r_eph.public sas_nonce in
      let claim = commit sid r_eph.public sas_nonce in
      (
        sid,
        r_eph.public,
        sas_nonce,
        claim,
        read_hex (ascii "session_id") (lines agreed) sid (ascii "\",") refl (array 8 sid refl).1
            unhex_comma,
        read_hex (ascii "r_eph_pub") (lines agreed) r_eph.public (ascii "\",") refl hr.1
            unhex_comma,
        read_hex (ascii "sas_nonce") (lines agreed) sas_nonce (ascii "\",") refl
            (array 16 sas_nonce refl).1 unhex_comma,
        read_hex (ascii "commit") (lines agreed) claim (ascii "\",") refl committed.1 unhex_comma,
        (verify_commit_iff sid r_eph.public sas_nonce claim committed).1 refl,
      )

  -- Where the crates give bytes, and the public keys of the two ephemeral secrets are 32 of them, cmd_vectors
  -- prints its vectors and panics at no assertion. In the printed lines, under their labels and in hex, stand:
  -- the four keys as the receiver derives them; a ciphertext that opens under the session key, the nonce and
  -- the associated data that are printed to the plaintext that is printed; the frames, which decode to the
  -- values they were made of; and a commitment that the printed nonce opens for the printed session and key.
  pub cmd_vectors_read_back :
      GivesBytes
      → IsArray 32 s_eph.public
      → IsArray 32 r_eph.public
      → (out : List Bytes) × (cmd_vectors ≡ ok out)
        × PrintsKeys out
        × PrintsSealed out
        × PrintsFrames out
        × PrintsCommitted out
  unfolding cmd_vectors
  cmd_vectors_read_back given hs hr = (
    lines agreed,
    rw derived_lem refl,
    keys_printed given,
    sealed_printed given hs,
    frames_printed hs hr,
    committed_printed hr,
  )
