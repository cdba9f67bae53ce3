-- ===== src/Handshake/Request.antt =====
-- core/src/wasm.rs: the request of a session is read back, and a sender's configuration is usable.
use rabaska.Prelude.{
  ℕ, ◌≡◌, refl, Option, none, some, take, replicate, length, zero, suc, Bool, length-append,
  length-take, length-replicate, All-take, ◌-◌, All, All-append, arith,
}
use rabaska.Prelude.Bytes.{Bytes, IsByte, IsArray, slice-IsArray, array}
use rabaska.Error.{ok}
use rabaska.Wire.Types.{Mode}
use rabaska.Wire.Frame.{Crc}
use rabaska.Wire.PairReq
use rabaska.Wire.PairReq.{PairReq}
use rabaska.Crypto.Primitives.{Primitives}
use rabaska.Crypto.Keys.{KeyPair}
use rabaska.Crypto.Human.{commit, id_hint}
use rabaska.Crypto.Commitment.{commit-IsArray}
use rabaska.Pipeline.Transmitter.Start.{IsUsable}
use rabaska.Handshake.{Session, hinted, pair_req, cfg}
use rabaska.Handshake.Digits.{IsWellFormed}

module _ ⦃crc : Crc⦄ ⦃prim : Primitives⦄ where
  -- The request as it is read back.
  abbrev pub request_of : Session → PairReq
  request_of s = record {
    flags = (hinted s.identity).0;
    session_id = s.session_id;
    r_eph_pub = s.eph.public;
    id_hint = (hinted s.identity).1;
    r_commit = commit s.session_id s.eph.public s.r_nonce;
  }

  hinted-IsArray : (id : Option KeyPair) → IsByte (hinted id).0 × IsArray 4 (hinted id).1
  unfolding id_hint
  hinted-IsArray none = (omega arith, array 4 (replicate 4 0) refl)
  hinted-IsArray (some id) =
      let digest = prim.sha256-IsArray _ in
      (omega arith, slice-IsArray 0 4 (prim.sha256 _) digest.1 (omega arith))

  pub request_read :
      (s : Session) → IsWellFormed s → PairReq.decode (pair_req s) ≡ ok (request_of s)
  unfolding pair_req
  request_read s w = PairReq.decode-encode (request_of s) (record {
    flags = (hinted-IsArray s.identity).0;
    session_id = w.session_id;
    r_eph_pub = w.public;
    id_hint = (hinted-IsArray s.identity).1;
    r_commit = commit-IsArray s.session_id s.eph.public s.r_nonce;
  })

All-zeros : (n : ℕ) → All IsByte (replicate n 0)
All-zeros zero = tt
All-zeros (suc n) = (omega arith, All-zeros n)

pub cfg-IsUsable :
    (mode : Mode) (session_id s_eph_pub build_hash : Bytes) (capacity : ℕ) (auth : Bool)
    → IsArray 8 session_id
    → IsArray 32 s_eph_pub
    → All IsByte build_hash
    → IsUsable (cfg mode session_id s_eph_pub build_hash capacity auth)
unfolding cfg
cfg-IsUsable mode session_id s_eph_pub build_hash capacity auth hs hp hb = record {
  session_id = hs;
  s_eph_pub = hp;
  build_hash = (
    omega (
      arith,
      length-append (take 8 build_hash) (replicate (8 - length build_hash) 0),
      length-take 8 build_hash,
      length-replicate {A = ℕ} (8 - length build_hash) 0,
    ),
    All-append IsByte (take 8 build_hash) (replicate (8 - length build_hash) 0)
        (All-take IsByte 8 build_hash hb) (All-zeros (8 - length build_hash)),
  );
  symbol_size_min = omega arith;
  symbol_size_max = omega arith;
  palette = omega arith;
  tile_px = omega arith;
}
