-- ===== src/Handshake.antt =====
-- core/src/wasm.rs: the two ends of the handshake, `Session` and `Send`.
pub mod Gate
pub mod Digits
pub mod Receive
pub mod Prefix
pub mod TypedKey
pub mod Identity
pub mod Getters
pub mod Request
pub mod Meeting
pub mod Exchange
pub mod Delivery
pub mod Watching
pub mod Arrival
use rabaska.Prelude.{
  ℕ, ◌≡◌, ◌≢◌, Option, none, some, Bool, true, false, not, ◌&&◌, List, [], ◌∷◌, ◌++◌, length,
  replicate, take, ◌-◌, ◌==◌, if◌then◌else◌,
}
use rabaska.Prelude.Bytes.{Bytes, slice, bytes_eq}
use rabaska.Error.{Error, Result, ok, err, panic, ◌>>=◌}
use rabaska.Wire.Types.{
  Mode, pair, session, seal, open_room, Status, done, default_codec, has_id_hint_flag,
}
use rabaska.Wire.Frame.{Crc}
use rabaska.Wire.PairReq
use rabaska.Wire.PairReq.{PairReq}
use rabaska.Wire.Reveal
use rabaska.Wire.Reveal.{Reveal}
use rabaska.Wire.Complete
use rabaska.Wire.Complete.{Complete}
use rabaska.Crypto.Primitives.{Primitives}
use rabaska.Crypto.Keys.{KeyPair, key_pair, sender, Peer, derive_for_mode, derive_open, seal_sender}
use rabaska.Crypto.Human.{commit, verify_commit, sas, id_hint}
use rabaska.Pipeline.Services.{Deflate, Fountain}
use rabaska.Pipeline.Transmitter as Tx
use rabaska.Pipeline.Transmitter.{Transmitter, TransmitConfig, beacon_frame, symbol_frame}

-- The `JsError`s that are made here, and the ones that print an `Error`.
pub data JsError : Type 0 where
  from_error : Error → JsError
  bad_key no_sas another_session commitment_mismatch unconfirmed bad_session_id : JsError
  bad_identity_secret : JsError

pub data JsResult (A : Type 0) : Type 0 where
  returns : A → JsResult A
  throws : JsError → JsResult A
  panics : JsResult A

-- `map_err(|e| JsError::new(&e.to_string()))?`
infix 1 try◌then◌
abbrev pub try◌then◌ : {A B : Type 0} → Result A → (A → JsResult B) → JsResult B
try ok x then k = k x
try err e then k = throws (from_error e)
try panic then k = panics

pub record Session : Type 0 where
  pub eph : KeyPair
  pub session_id : Bytes
  pub identity : Option KeyPair
  pub r_nonce : Bytes

pub record PendingSas : Type 0 where
  pub session_id : Bytes
  pub r_eph_pub : Bytes
  pub s_eph_pub : Bytes
  pub r_commit : Bytes

pub record Send : Type 0 where
  pub tx : Transmitter
  pub sas : Option Bytes
  pub pending : Option PendingSas

pub record FrameOut : Type 0 where
  pub robust : Bool
  pub bytes : Bytes

-- `try_into()` to `[u8; 32]`, and none stays none.
unfoldable pub key_or_none : Option Bytes → JsResult (Option Bytes)
key_or_none none = returns none
key_or_none (some k) = if length k == 32 then returns (some k) else throws bad_key

unfoldable pub cfg : Mode → Bytes → Bytes → Bytes → ℕ → Bool → TransmitConfig
cfg mode session_id s_eph_pub build_hash frame_capacity sender_auth = record {
  mode = mode;
  session_id = session_id;
  s_eph_pub = s_eph_pub;
  codec = default_codec;
  build_hash = take 8 build_hash ++ replicate (8 - length build_hash) 0;
  frame_capacity = frame_capacity;
  sender_auth = sender_auth;
}

-- `id.is_some()`
unfoldable pub is_some {ℓ} : {A : Type ℓ} → Option A → Bool
is_some none = false
is_some (some a) = true

-- `match (&id, &peer_id)` of `Send::reply`
unfoldable pub reply_mode : Option KeyPair → Option Bytes → Mode
reply_mode none peer_id = pair
reply_mode (some id) none = pair
reply_mode (some id) (some peer) = session

module _ ⦃crc : Crc⦄ ⦃prim : Primitives⦄ where
  -- `match &self.identity`
  abbrev pub hinted : Option KeyPair → ℕ × Bytes
  hinted none = (0, replicate 4 0)
  hinted (some id) = (has_id_hint_flag, id_hint id.public)

  -- `Session::pair_req`
  unfoldable pub pair_req : Session → Bytes
  pair_req s =
      let (flags, hint) = hinted s.identity in
      PairReq.encode (record {
        flags = flags;
        session_id = s.session_id;
        r_eph_pub = s.eph.public;
        id_hint = hint;
        r_commit = commit s.session_id s.eph.public s.r_nonce;
      })

  -- `Session::reveal`
  unfoldable pub reveal : Session → Bytes
  reveal s = Reveal.encode (record { sid4 = slice 0 4 s.session_id; r_nonce = s.r_nonce })

  -- `Session::sas`
  unfoldable pub session_sas : Session → Bytes → JsResult Bytes
  session_sas s s_eph_pub =
      if length s_eph_pub == 32
      then returns (sas s.session_id s.eph.public s_eph_pub s.r_nonce) else throws bad_key

  -- `Send::accept_reveal`
  unfoldable pub accept_reveal : Send → Bytes → Send × JsResult Bytes
  accept_reveal s frame = elim s.pending [
    | none ↦ (s, throws no_sas)
    | some p ↦ elim (Reveal.decode frame) [
      | err e ↦ (s, throws (from_error e))
      | panic ↦ (s, panics)
      | ok rv ↦
          if not (bytes_eq rv.sid4 (slice 0 4 p.session_id))
          then (s, throws another_session) else
              if not (verify_commit p.session_id p.r_eph_pub rv.r_nonce p.r_commit)
          then (s, throws commitment_mismatch) else
              let digits = sas p.session_id p.r_eph_pub p.s_eph_pub rv.r_nonce in
                (record s { sas = some digits }, returns digits)
    ]
  ]

  -- `Send::release`
  unfoldable pub release : Send → Send × JsResult (Unit {0})
  unfolding is_some
  release s =
      if is_some s.pending && not (is_some s.sas)
      then (s, throws unconfirmed) else (record s { tx = Tx.release s.tx }, returns tt)

  -- The `match` of `Send::next_frame`.
  abbrev pub shown : Tx.OpticalFrame → FrameOut
  shown (beacon_frame b) = record { robust = true; bytes = b }
  shown (symbol_frame b) = record { robust = false; bytes = b }

  -- `Send::next_frame`
  unfoldable pub next_frame : Send → ℕ → Result (Send × FrameOut)
  next_frame s capacity = do
    (tx, frame) ← Tx.next_frame_at s.tx capacity
    ok (record s { tx = tx }, shown frame)

  -- `c.status == Status::Ok`
  abbrev pub is_done : Status → Bool
  is_done done = true
  is_done _ = false

  -- `Send::verify_complete`
  unfoldable pub verify_complete : Send → Bytes → JsResult Bool
  verify_complete s frame = try Complete.decode frame then λ c.
      returns (is_done c.status && bytes_eq c.hash8 s.tx.plaintext_hash)

module _ ⦃crc : Crc⦄ ⦃prim : Primitives⦄ ⦃deflate : Deflate⦄ ⦃fountain : Fountain⦄ where
  -- `Send::reply` from the decoded request on; `secret` and `nonce` are its random draws.
  unfoldable pub reply_to :
      PairReq → Bytes → Bytes → Bytes → Option KeyPair → Option Bytes → Bytes → ℕ → JsResult Send
  unfolding cfg is_some reply_mode
  reply_to req secret nonce payload id peer_id build_hash frame_capacity =
      let eph = key_pair secret in
      let mode = reply_mode id peer_id in
      try derive_for_mode mode sender eph id (record { eph_pub = req.r_eph_pub; id_pub = peer_id })
        req.session_id
      then λ key.
          let tx =
            Tx.new key nonce
              (cfg mode req.session_id eph.public build_hash frame_capacity (is_some id)) payload in
          elim mode [
            | pair ↦ returns (record {
              tx = Tx.hold tx;
              sas = none;
              pending = some (record {
                session_id = req.session_id;
                r_eph_pub = req.r_eph_pub;
                s_eph_pub = eph.public;
                r_commit = req.r_commit;
              });
            })
            | _ ↦ returns (record { tx = tx; sas = none; pending = none })
          ]

  unfoldable pub reply :
      Bytes → Bytes → Bytes → Bytes → Option Bytes → Option Bytes → Bytes → ℕ → JsResult Send
  reply request secret nonce payload identity peer_identity build_hash frame_capacity =
      try PairReq.decode request then λ req. elim (key_or_none peer_identity) [
        | throws e ↦ throws e
        | panics ↦ panics
        | returns peer_id ↦
            reply_to req secret nonce payload
              (elim identity [ none ↦ none | some k ↦ some (key_pair k) ]) peer_id build_hash
              frame_capacity
      ]

  -- `Send::seal`, with its random secret, nonce and session.
  unfoldable pub seal_to :
      Bytes → Bytes → Bytes → Bytes → Bytes → Option KeyPair → Bytes → ℕ → JsResult Send
  unfolding cfg is_some
  seal_to receiver_public_key secret nonce sid payload id build_hash frame_capacity =
      let eph = key_pair secret in
      let key = seal_sender eph id receiver_public_key in
      if length receiver_public_key == 32
      then returns
          (record {
            tx =
                Tx.new key nonce (cfg seal sid eph.public build_hash frame_capacity (is_some id))
                  payload;
            sas = none;
            pending = none;
          })
          else throws bad_key

  -- `Send::open`
  unfoldable pub open_to : Bytes → Bytes → Bytes → Bytes → Bytes → ℕ → Send
  unfolding cfg
  open_to secret nonce sid payload build_hash frame_capacity =
      let eph = key_pair secret in
      let key = derive_open sid eph.public in
      record {
        tx =
            Tx.new key nonce (cfg open_room sid eph.public build_hash frame_capacity false) payload;
        sas = none;
        pending = none;
      }
