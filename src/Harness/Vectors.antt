-- ===== src/Harness/Vectors.antt =====
-- harness/src/main.rs: `hex` and `cmd_vectors`, which prints the frozen vectors.
pub mod Agreed
pub mod Reading
pub mod Sound
use rabaska.Prelude.{ℕ, ◌/◌, ◌%◌, none, some, not, List, [], ◌∷◌, ◌++◌, replicate, if◌then◌else◌}
use rabaska.Prelude.Bytes.{Bytes, ascii, bytes_eq, slice}
use rabaska.Error.{Result, ok, panic, ◌>>=◌, ◌>>◌}
use rabaska.Wire.Types as Types
use rabaska.Wire.Types.{default_codec, compressed_flag, has_id_hint_flag}
use rabaska.Wire.Frame.{Crc}
use rabaska.Wire.Beacon
use rabaska.Wire.Beacon.{Beacon, aad}
use rabaska.Wire.PairReq
use rabaska.Wire.PairReq.{PairReq}
use rabaska.Wire.Complete
use rabaska.Wire.Complete.{Complete}
use rabaska.Crypto.Primitives.{Primitives}
use rabaska.Crypto.Keys.{
  KeyPair, key_pair, sender, receiver, derive_pair, derive_session, seal_sender, seal_receiver,
  encrypt,
}
use rabaska.Crypto.Human.{commit, sas, id_hint, complete_hash}
use rabaska.Handshake.Prefix.{hex_digit}

unfoldable pub hex : Bytes → Bytes
hex [] = []
hex (x ∷ b) = hex_digit (x / 16) ∷ hex_digit (x % 16) ∷ hex b

-- The fixed inputs.
abbrev pub sid : Bytes
sid = 0xA0 ∷ 0xA1 ∷ 0xA2 ∷ 0xA3 ∷ 0xA4 ∷ 0xA5 ∷ 0xA6 ∷ 0xA7 ∷ []

abbrev pub nonce : Bytes
nonce = replicate 24 0x5A

abbrev pub sas_nonce : Bytes
sas_nonce = replicate 16 0x3C

abbrev pub test_payload : Bytes
test_payload = ascii "rabaska test payload"

-- `assert_eq!`
unfoldable pub assert_eq : Bytes → Bytes → Result (Unit {0})
unfolding bytes_eq
assert_eq a b = if bytes_eq a b then ok tt else panic

module _ ⦃prim : Primitives⦄ where
  abbrev pub s_eph : KeyPair
  s_eph = key_pair (replicate 32 0x11)

  abbrev pub s_id : KeyPair
  s_id = key_pair (replicate 32 0x22)

  abbrev pub r_eph : KeyPair
  r_eph = key_pair (replicate 32 0x33)

  abbrev pub r_id : KeyPair
  r_id = key_pair (replicate 32 0x44)

  abbrev pub beacon : Beacon
  beacon = record {
    mode = Types.session;
    flags = compressed_flag;
    session_id = sid;
    s_eph_pub = s_eph.public;
    nonce = nonce;
    plaintext_len = 4096;
    oti = replicate 12 0x66;
    codec = record default_codec { palette = 4 };
    build_hash = replicate 8 0x77;
  }

  abbrev pub sample_pair_req : PairReq
  sample_pair_req = record {
    flags = has_id_hint_flag;
    session_id = sid;
    r_eph_pub = r_eph.public;
    id_hint = id_hint r_id.public;
    r_commit = commit sid r_eph.public sas_nonce;
  }

  abbrev pub complete : Complete
  complete = record {
    sid4 = slice 0 4 sid;
    status = Types.done;
    hash8 = complete_hash sid test_payload;
  }

  -- The four keys and the ciphertext.
  pub record Derived : Type 0 where
    pub k_pair : Bytes
    pub k_sess : Bytes
    pub k_seal : Bytes
    pub k_seal_auth : Bytes
    pub ct : Bytes

  -- Up to the first `println!`: each key is derived at both ends.
  unfoldable pub derived : Result Derived
  unfolding assert_eq derive_pair derive_session seal_sender seal_receiver
  derived =
      let k_pair = derive_pair sender s_eph r_eph.public sid in
      let k_pair_r = derive_pair receiver r_eph s_eph.public sid in
      let k_sess = derive_session sender s_eph s_id r_eph.public r_id.public sid in
      let k_sess_r = derive_session receiver r_eph r_id s_eph.public s_id.public sid in
      let k_seal = seal_sender s_eph none r_id.public in
      let k_seal_r = seal_receiver r_id s_eph.public none in
      let k_seal_auth = seal_sender s_eph (some s_id) r_id.public in
      let k_seal_auth_r = seal_receiver r_id s_eph.public (some s_id.public) in
      do
        assert_eq k_pair k_pair_r
        assert_eq k_sess k_sess_r
        assert_eq k_seal k_seal_r
        assert_eq k_seal_auth k_seal_auth_r
        ok (record {
          k_pair = k_pair;
          k_sess = k_sess;
          k_seal = k_seal;
          k_seal_auth = k_seal_auth;
          ct = encrypt k_sess nonce (aad beacon) test_payload;
        })

module _ ⦃crc : Crc⦄ ⦃prim : Primitives⦄ where
  -- The printed lines.
  unfoldable pub lines : Derived → List Bytes
  unfolding hex
  lines d =
      ascii "{"
      ∷ ascii "  \"protocol\": \"rabaska/v2\","
      ∷ ascii "  \"note\": \"FROZEN. A diff here means a breaking protocol change.\","
      ∷ ascii "  \"inputs\": {"
      ∷ (ascii "    \"s_eph_priv\": \"" ++ hex (replicate 32 0x11) ++ ascii "\",")
      ∷ (ascii "    \"s_id_priv\":  \"" ++ hex (replicate 32 0x22) ++ ascii "\",")
      ∷ (ascii "    \"r_eph_priv\": \"" ++ hex (replicate 32 0x33) ++ ascii "\",")
      ∷ (ascii "    \"r_id_priv\":  \"" ++ hex (replicate 32 0x44) ++ ascii "\",")
      ∷ (ascii "    \"session_id\": \"" ++ hex sid ++ ascii "\",")
      ∷ (ascii "    \"nonce\":      \"" ++ hex nonce ++ ascii "\"")
      ∷ ascii "  },"
      ∷ ascii "  \"public_keys\": {"
      ∷ (ascii "    \"s_eph_pub\": \"" ++ hex s_eph.public ++ ascii "\",")
      ∷ (ascii "    \"s_id_pub\":  \"" ++ hex s_id.public ++ ascii "\",")
      ∷ (ascii "    \"r_eph_pub\": \"" ++ hex r_eph.public ++ ascii "\",")
      ∷ (ascii "    \"r_id_pub\":  \"" ++ hex r_id.public ++ ascii "\"")
      ∷ ascii "  },"
      ∷ ascii "  \"derived_keys\": {"
      ∷ (ascii "    \"pair\":      \"" ++ hex d.k_pair ++ ascii "\",")
      ∷ (ascii "    \"session\":   \"" ++ hex d.k_sess ++ ascii "\",")
      ∷ (ascii "    \"seal\":      \"" ++ hex d.k_seal ++ ascii "\",")
      ∷ (ascii "    \"seal_auth\": \"" ++ hex d.k_seal_auth ++ ascii "\"")
      ∷ ascii "  },"
      ∷ ascii "  \"human_values\": {"
      ∷ (ascii "    \"sas\":           \""
          ++ sas sid r_eph.public s_eph.public sas_nonce
          ++ ascii "\",")
      ∷ (ascii "    \"sas_nonce\":     \"" ++ hex sas_nonce ++ ascii "\",")
      ∷ (ascii "    \"commit\":        \""
          ++ hex (commit sid r_eph.public sas_nonce)
          ++ ascii "\",")
      ∷ (ascii "    \"id_hint_r\":     \"" ++ hex (id_hint r_id.public) ++ ascii "\",")
      ∷ (ascii "    \"complete_hash\": \"" ++ hex complete.hash8 ++ ascii "\"")
      ∷ ascii "  },"
      ∷ ascii "  \"frames\": {"
      ∷ (ascii "    \"pair_req\": \"" ++ hex (PairReq.encode sample_pair_req) ++ ascii "\",")
      ∷ (ascii "    \"beacon\":   \"" ++ hex (Beacon.encode beacon) ++ ascii "\",")
      ∷ (ascii "    \"complete\": \"" ++ hex (Complete.encode complete) ++ ascii "\"")
      ∷ ascii "  },"
      ∷ ascii "  \"aead\": {"
      ∷ (ascii "    \"aad\":        \"" ++ hex (aad beacon) ++ ascii "\",")
      ∷ (ascii "    \"plaintext\":  \"" ++ hex test_payload ++ ascii "\",")
      ∷ (ascii "    \"ciphertext\": \"" ++ hex d.ct ++ ascii "\"")
      ∷ ascii "  }"
      ∷ ascii "}"
      ∷ []

  unfoldable pub cmd_vectors : Result (List Bytes)
  unfolding derived lines
  cmd_vectors = do d ← derived; ok (lines d)
