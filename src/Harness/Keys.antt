-- ===== src/Harness/Keys.antt =====
-- harness/src/main.rs: the two keys of `keys_for`, which are also those that `cmd_vectors` asserts equal.
use rabaska.Prelude.{◌≡◌, refl}
use rabaska.Prelude.Bytes.{Bytes}
use rabaska.Wire.Types.{Mode, pair, session, seal, open_room}
use rabaska.Crypto.Primitives.{Primitives}
use rabaska.Crypto.Keys.{dh}
use rabaska.Harness.{peers_from, keys_for}

-- In every mode, the sender's key and the receiver's are the same.
pub keys_for_agree :
    ⦃prim : Primitives⦄ (mode : Mode) (s_eph s_id r_eph r_id sid : Bytes)
    → (keys_for mode (peers_from s_eph s_id r_eph r_id sid)).0
      ≡ (keys_for mode (peers_from s_eph s_id r_eph r_id sid)).1
unfolding keys_for peers_from dh
keys_for_agree ⦃prim⦄ pair se si re ri sid = cc (prim.diffie_hellman_comm se re)
keys_for_agree ⦃prim⦄ session se si re ri sid =
    cc (
      prim.diffie_hellman_comm se re,
      prim.diffie_hellman_comm se ri,
      prim.diffie_hellman_comm si re,
    )
keys_for_agree ⦃prim⦄ seal se si re ri sid =
    cc (prim.diffie_hellman_comm se ri, prim.diffie_hellman_comm si ri)
keys_for_agree ⦃prim⦄ open_room se si re ri sid = refl
