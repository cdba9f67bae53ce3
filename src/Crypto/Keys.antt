-- ===== src/Crypto/Keys.antt =====
-- core/src/crypto.rs: key pairs, the key agreement of each mode, and the AEAD.
use rabaska.Prelude.{◌≡◌, Option, none, some, [], ◌∷◌, ◌++◌}
use rabaska.Prelude.Bytes.{Bytes, ascii, flat}
use rabaska.Error.{Result, ok, err, ◌>>=◌, missing_identity, auth_failed}
use rabaska.Wire.Types.{Mode, pair, session, seal, open_room}
use rabaska.Crypto.Primitives.{Primitives}

abbrev info_pair : Bytes
info_pair = ascii "rabaska/v2/pair"

abbrev info_session : Bytes
info_session = ascii "rabaska/v2/session"

abbrev info_seal : Bytes
info_seal = ascii "rabaska/v2/seal"

abbrev info_seal_auth : Bytes
info_seal_auth = ascii "rabaska/v2/seal-auth"

abbrev info_open : Bytes
info_open = ascii "rabaska/v2/open"

pub record KeyPair : Type 0 where
  pub secret : Bytes
  pub public : Bytes

pub data Role : Type 0 where
  sender receiver : Role

-- `Peer` of crypto.rs
pub record Peer : Type 0 where
  pub eph_pub : Bytes
  pub id_pub : Option Bytes

-- `match role { Role::Sender => s, Role::Receiver => r }`
abbrev pub by_role {ℓ} : {A : Type ℓ} → Role → A → A → A
by_role sender s r = s
by_role receiver s r = r

-- `o.ok_or(e)?`
abbrev pub ok_or_missing {ℓ} : {A : Type ℓ} → Option A → Result A
ok_or_missing none = err missing_identity
ok_or_missing (some a) = ok a

module _ ⦃prim : Primitives⦄ where
  -- `KeyPair::from_bytes`; `generate` is this on 32 random bytes.
  abbrev pub key_pair : Bytes → KeyPair
  key_pair secret = record { secret = secret; public = prim.public_key secret }

  unfoldable pub dh : KeyPair → Bytes → Bytes
  dh own peer = prim.diffie_hellman own.secret peer

  unfoldable pub derive_pair : Role → KeyPair → Bytes → Bytes → Bytes
  unfolding dh
  derive_pair role own peer_eph_pub session_id =
      let shared = dh own peer_eph_pub in
      let r_eph = by_role role peer_eph_pub own.public in
      let s_eph = by_role role own.public peer_eph_pub in
      prim.hkdf shared (flat (session_id ∷ r_eph ∷ s_eph ∷ [])) info_pair

  unfoldable pub derive_session : Role → KeyPair → KeyPair → Bytes → Bytes → Bytes → Bytes
  unfolding dh
  derive_session role own_eph own_id peer_eph_pub peer_id_pub session_id =
      let dh1 = by_role role (dh own_eph peer_id_pub) (dh own_id peer_eph_pub) in
      let dh2 = by_role role (dh own_id peer_eph_pub) (dh own_eph peer_id_pub) in
      let dh3 = dh own_eph peer_eph_pub in
      let r_eph = by_role role peer_eph_pub own_eph.public in
      let s_eph = by_role role own_eph.public peer_eph_pub in
      let r_id = by_role role peer_id_pub own_id.public in
      let s_id = by_role role own_id.public peer_id_pub in
      prim.hkdf (flat (dh1 ∷ dh2 ∷ dh3 ∷ [])) (flat (session_id ∷ r_eph ∷ s_eph ∷ r_id ∷ s_id ∷ []))
        info_session

  unfoldable pub seal_sender : KeyPair → Option KeyPair → Bytes → Bytes
  unfolding dh
  seal_sender s_eph s_id r_id_pub =
      let salt = s_eph.public ++ r_id_pub in
      let ikm = dh s_eph r_id_pub in
      elim s_id [
        | some id ↦ prim.hkdf (ikm ++ dh id r_id_pub) salt info_seal_auth
        | none ↦ prim.hkdf ikm salt info_seal
      ]

  unfoldable pub seal_receiver : KeyPair → Bytes → Option Bytes → Bytes
  unfolding dh
  seal_receiver r_id s_eph_pub s_id_pub =
      let salt = s_eph_pub ++ r_id.public in
      let ikm = dh r_id s_eph_pub in
      elim s_id_pub [
        | some p ↦ prim.hkdf (ikm ++ dh r_id p) salt info_seal_auth
        | none ↦ prim.hkdf ikm salt info_seal
      ]

  unfoldable pub derive_open : Bytes → Bytes → Bytes
  derive_open session_id s_eph_pub =
      prim.hkdf (ascii "rabaska/v2/open/no-confidentiality") (session_id ++ s_eph_pub) info_open

  unfoldable pub derive_for_mode :
      Mode → Role → KeyPair → Option KeyPair → Peer → Bytes → Result Bytes
  unfolding derive_pair derive_session seal_sender seal_receiver derive_open
  derive_for_mode pair role own_eph own_id peer session_id =
      ok (derive_pair role own_eph peer.eph_pub session_id)
  derive_for_mode session role own_eph own_id peer session_id = do
    id ← ok_or_missing own_id
    peer_id ← ok_or_missing peer.id_pub
    ok (derive_session role own_eph id peer.eph_pub peer_id session_id)
  derive_for_mode seal sender own_eph own_id peer session_id = do
    r_id ← ok_or_missing peer.id_pub
    ok (seal_sender own_eph own_id r_id)
  derive_for_mode seal receiver own_eph own_id peer session_id =
      ok (seal_receiver own_eph peer.eph_pub peer.id_pub)
  derive_for_mode open_room role own_eph own_id peer session_id =
      ok (derive_open session_id (by_role role own_eph.public peer.eph_pub))

  unfoldable pub encrypt : Bytes → Bytes → Bytes → Bytes → Bytes
  encrypt key nonce aad plaintext = prim.aead_encrypt key nonce aad plaintext

  unfoldable pub decrypt : Bytes → Bytes → Bytes → Bytes → Result Bytes
  decrypt key nonce aad ct = elim (prim.aead_decrypt key nonce aad ct) [
    | some m ↦ ok m
    | none ↦ err auth_failed
  ]

  pub decrypt-encrypt :
      (key nonce aad m : Bytes) → decrypt key nonce aad (encrypt key nonce aad m) ≡ ok m
  unfolding decrypt encrypt
  decrypt-encrypt key nonce aad m = rw (decrypt, prim.decrypt-encrypt key nonce aad m)
