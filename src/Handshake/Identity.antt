-- ===== src/Handshake/Identity.antt =====
-- core/src/wasm.rs: `Identity`, and `Session` as it is made.
use rabaska.Prelude.{Option, none, some, ◌==◌, length, if◌then◌else◌}
use rabaska.Prelude.Bytes.{Bytes}
use rabaska.Crypto.Primitives.{Primitives}
use rabaska.Crypto.Keys.{KeyPair, key_pair}
use rabaska.Crypto.Human.{id_hint}
use rabaska.Handshake.{Session, JsResult, returns, throws, bad_identity_secret}
use rabaska.Handshake.TypedKey.{base32_groups}

pub record Identity : Type 0 where
  pub inner : KeyPair

-- `identity.map(|i| i.inner)`
abbrev pub inner_of : Option Identity → Option KeyPair
inner_of none = none
inner_of (some i) = some i.inner

module _ ⦃prim : Primitives⦄ where
  -- `Identity::new`, from the secret that it draws.
  unfoldable pub generated : Bytes → Identity
  generated secret = record { inner = key_pair secret }

  unfoldable pub from_secret : Bytes → JsResult Identity
  from_secret bytes =
      if length bytes == 32
      then returns (record { inner = key_pair bytes })
      else throws bad_identity_secret

  unfoldable pub hint : Identity → Bytes
  hint i = id_hint i.inner.public

  unfoldable pub public_key_typed : Identity → Bytes
  unfolding base32_groups
  public_key_typed i = base32_groups i.inner.public

  -- `Session::new`, with the secret, the session and the nonce that it draws.
  unfoldable pub new_session : Option Identity → Bytes → Bytes → Bytes → Session
  new_session identity secret session_id r_nonce = record {
    eph = key_pair secret;
    session_id = session_id;
    identity = inner_of identity;
    r_nonce = r_nonce;
  }

-- `public_key`, `export_secret` and `eph_public`
abbrev pub public_key : Identity → Bytes
public_key i = i.inner.public

abbrev pub export_secret : Identity → Bytes
export_secret i = i.inner.secret

abbrev eph_public : Session → Bytes
eph_public s = s.eph.public
