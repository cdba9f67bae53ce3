-- ===== src/Handshake/Digits.antt =====
-- core/src/wasm.rs: the digits on the two screens.
use rabaska.Prelude.{◌≡◌, refl, some, true, arith}
use rabaska.Prelude.Bytes.{Bytes, IsArray, slice, bytes_eq, bytes_eq_refl, slice-IsArray}
use rabaska.Error.{ok}
use rabaska.Wire.Frame.{Crc}
use rabaska.Wire.Reveal
use rabaska.Crypto.Primitives.{Primitives}
use rabaska.Crypto.Human.{commit, sas}
use rabaska.Crypto.Commitment.{verify_commit_iff, commit-IsArray}
use rabaska.Handshake.{Session, Send, PendingSas, returns, reveal, session_sas, accept_reveal}

-- The Rust types of the fields.
pub record IsWellFormed (s : Session) : Type 0 where
  pub session_id : IsArray 8 s.session_id
  pub public : IsArray 32 s.eph.public
  pub r_nonce : IsArray 16 s.r_nonce

-- What the sender remembers of the session's request, if nobody changed it on the way.
abbrev pub honest : ⦃prim : Primitives⦄ → Session → Bytes → PendingSas
honest s s_eph_pub = record {
  session_id = s.session_id;
  r_eph_pub = s.eph.public;
  s_eph_pub = s_eph_pub;
  r_commit = commit s.session_id s.eph.public s.r_nonce;
}

module _ ⦃crc : Crc⦄ ⦃prim : Primitives⦄ where
  -- A sender that remembers the session's own request accepts the session's reveal, and the digits that it
  -- shows are those that the session shows for the sender's key.
  pub accept_reveal_agrees :
      (session : Session) (s_eph_pub : Bytes) (send : Send)
      → IsWellFormed session
      → IsArray 32 s_eph_pub
      → send.pending ≡ some (honest session s_eph_pub)
      → (digits : Bytes) × ((accept_reveal send (reveal session)).1 ≡ returns digits)
        × (session_sas session s_eph_pub ≡ returns digits)
        × ((accept_reveal send (reveal session)).0.sas ≡ some digits)
  unfolding accept_reveal reveal session_sas
  accept_reveal_agrees session s_eph_pub send w key known =
      let sid4 = slice 0 4 session.session_id in
      let r : Reveal.Reveal = record { sid4 = sid4; r_nonce = session.r_nonce } in
      let read : Reveal.decode (Reveal.encode r) ≡ ok r = Reveal.decode-encode r (record {
        sid4 = slice-IsArray 0 4 session.session_id w.session_id.1 (omega arith);
        r_nonce = w.r_nonce;
      }) in
      let same : bytes_eq sid4 sid4 ≡ true = bytes_eq_refl sid4 in
      let opens =
        (verify_commit_iff session.session_id session.eph.public session.r_nonce
            (commit session.session_id session.eph.public session.r_nonce)
            (commit-IsArray session.session_id session.eph.public session.r_nonce)).1
          refl in
      (
        sas session.session_id session.eph.public s_eph_pub session.r_nonce,
        ground arith,
        ground arith,
        ground arith,
      )
