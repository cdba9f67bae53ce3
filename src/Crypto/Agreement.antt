-- ===== src/Crypto/Agreement.antt =====
-- core/src/crypto.rs: both ends of a transfer derive the same key, in every mode.
use rabaska.Prelude.{◌≡◌, refl, Option, none, some}
use rabaska.Prelude.Bytes.{Bytes}
use rabaska.Error.{Result, ok, err, ◌>>=◌, missing_identity}
use rabaska.Wire.Types.{Mode, pair, session, seal, open_room}
use rabaska.Crypto.Primitives.{Primitives}
use rabaska.Crypto.Keys.{KeyPair, key_pair, dh, sender, receiver, Peer, derive_for_mode}

-- The secrets of one end: an ephemeral one, and an identity or none.
pub record Secrets : Type 0 where
  pub eph : Bytes
  pub id : Option Bytes

module _ ⦃prim : Primitives⦄ where
  abbrev pub eph_pair : Secrets → KeyPair
  eph_pair s = key_pair s.eph

  abbrev pub id_pair : Secrets → Option KeyPair
  id_pair s = elim s.id [ none ↦ none | some k ↦ some (key_pair k) ]

  -- What the other end sees.
  abbrev pub as_peer : Secrets → Peer
  as_peer s = record {
    eph_pub = prim.public_key s.eph;
    id_pub = elim s.id [ none ↦ none | some k ↦ some (prim.public_key k) ];
  }

  -- The key pair that the receiver hands to `derive_for_mode` as its ephemeral one: in SEAL mode
  -- that is its identity.
  abbrev pub receiver_key : Mode → Secrets → Result KeyPair
  receiver_key seal s = elim s.id [ none ↦ err missing_identity | some k ↦ ok (key_pair k) ]
  receiver_key _ s = ok (eph_pair s)

  agree :
      (mode : Mode) (s_eph r_eph : Bytes) (s_id r_id : Option Bytes) (session_id : Bytes)
      → let s : Secrets = record { eph = s_eph; id = s_id } in
        let r : Secrets = record { eph = r_eph; id = r_id } in
        derive_for_mode mode sender (eph_pair s) (id_pair s) (as_peer r) session_id ≡ (
          receiver_key mode r >>= λ own.
          derive_for_mode mode receiver own (id_pair r) (as_peer s) session_id)
  unfolding derive_for_mode dh
  agree pair se re si ri sid = cc (prim.diffie_hellman_comm se re)
  agree session se re none none sid = refl
  agree session se re none (some ri) sid = refl
  agree session se re (some si) none sid = refl
  agree session se re (some si) (some ri) sid = cc (
    prim.diffie_hellman_comm se re,
    prim.diffie_hellman_comm se ri,
    prim.diffie_hellman_comm si re,
  )
  agree seal se re none none sid = refl
  agree seal se re none (some ri) sid = cc (prim.diffie_hellman_comm se ri)
  agree seal se re (some si) none sid = refl
  agree seal se re (some si) (some ri) sid =
      cc (prim.diffie_hellman_comm se ri, prim.diffie_hellman_comm si ri)
  agree open_room se re si ri sid = refl

  -- In each mode the sender and the receiver, each given the other's public keys, have the same
  -- outcome: the same key, or `missing_identity` on both sides, which the receiver meets in SEAL mode
  -- where it looks its identity up.
  pub derive_for_mode_agree :
      (mode : Mode) (s r : Secrets) (session_id : Bytes)
      → derive_for_mode mode sender (eph_pair s) (id_pair s) (as_peer r) session_id ≡ (
          receiver_key mode r >>= λ own.
          derive_for_mode mode receiver own (id_pair r) (as_peer s) session_id)
  derive_for_mode_agree mode s r session_id = agree mode s.eph r.eph s.id r.id session_id
