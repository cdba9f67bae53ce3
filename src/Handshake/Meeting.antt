-- ===== src/Handshake/Meeting.antt =====
-- core/src/wasm.rs: a first meeting, from the request on the receiver's screen to the digits on both.
use rabaska.Prelude.{ℕ, ◌≡◌, refl, ap, ◌∙◌, Option, none, some, true, false, max, All, arith}
use rabaska.Prelude.Bytes.{Bytes, IsByte, IsArray}
use rabaska.Error.{Result, ok, err, panic}
use rabaska.Wire.Types.{pair}
use rabaska.Wire.Frame.{Crc}
use rabaska.Wire.Beacon
use rabaska.Wire.Beacon.{Beacon}
use rabaska.Wire.Beacon.RoundTrip as BeaconTrip
use rabaska.Wire.Symbol.{packets_per_frame}
use rabaska.Crypto.Primitives.{Primitives}
use rabaska.Crypto.Keys.{key_pair, dh, sender, receiver, derive_pair, derive_for_mode}
use rabaska.Crypto.Human.{sas}
use rabaska.Pipeline.Services.{Deflate, Fountain}
use rabaska.Pipeline.Transmitter as Tx
use rabaska.Pipeline.Transmitter.{Transmitter, TransmitConfig, beacon_frame, unsent_beacon}
use rabaska.Pipeline.Transmitter.Validity.{IsValid, wrap, beacon_step, hold-IsValid}
use rabaska.Pipeline.Transmitter.Start.{sender_new-IsValid}
use rabaska.Pipeline.Receiver as Rx
use rabaska.Pipeline.Transfer.Frames.{started, ingest_first_beacon}
use rabaska.Handshake.{
  Session, Send, returns, throws, unconfirmed, pair_req, reveal, session_sas, cfg, reply, reply_to,
  next_frame, accept_reveal, release, is_some, key_or_none,
}
use rabaska.Handshake.Digits.{IsWellFormed, honest, accept_reveal_agrees}
use rabaska.Handshake.Identity.{Identity, new_session}
use rabaska.Handshake.Request.{request_read, cfg-IsUsable}
use rabaska.Handshake.Receive as Receive
use rabaska.Handshake.Receive.{
  Receive, IngestResult, Kind, beacon, gives, derive_from, derive_and_set, acquired, reported,
}

module _ ⦃crc : Crc⦄ ⦃prim : Primitives⦄ ⦃deflate : Deflate⦄ ⦃fountain : Fountain⦄ (s : Session)
    (secret nonce payload build_hash : Bytes) (capacity : ℕ) where
  abbrev pub sender_key : Bytes
  sender_key = derive_pair sender (key_pair secret) s.eph.public s.session_id

  -- The transmitter of the reply.
  abbrev pub fresh_tx : Transmitter
  fresh_tx =
      Tx.new sender_key nonce
        (cfg pair s.session_id (prim.public_key secret) build_hash capacity false) payload

  abbrev pub replied : Send
  replied = record {
    tx = Tx.hold fresh_tx;
    sas = none;
    pending = some (honest s (prim.public_key secret));
  }

  pub reply_lem :
      IsWellFormed s
      → reply (pair_req s) secret nonce payload none none build_hash capacity ≡ returns replied
  unfolding reply reply_to key_or_none derive_for_mode
  reply_lem w = rw (request_read s w) refl

  abbrev beaconed : Send
  beaconed = record replied { tx = wrap replied.tx }

  next_frame_lem :
      IsValid fresh_tx
      → next_frame replied capacity
        ≡ ok (beaconed, record { robust = true; bytes = fresh_tx.beacon_bytes })
  unfolding next_frame Tx.next_frame_at Tx.hold
  next_frame_lem v =
      let step =
        beacon_step replied.tx (max (packets_per_frame capacity replied.tx.packet_len) 1)
          (hold-IsValid fresh_tx v) refl in
      rw step refl

  abbrev met : Receive
  met = record (Receive.new s) {
    rx = record (started fresh_tx.beacon) {
      key = some (derive_pair receiver s.eph (prim.public_key secret) s.session_id);
    };
    keyed = true;
  }

  abbrev met_result : IngestResult
  met_result = record {
    kind = beacon;
    received = 0;
    needed = (started fresh_tx.beacon).needed;
    payload = none;
    sas = some (sas s.session_id s.eph.public (prim.public_key secret) s.r_nonce);
  }

  -- What the receiver makes of the beacon.
  meets :
      IsValid fresh_tx → Receive.ingest (Receive.new s) fresh_tx.beacon_bytes ≡ (met, ok met_result)
  unfolding Receive.ingest Receive.err_result Receive.new reported acquired derive_and_set
      derive_from Receive.own_key Receive.digits_for derive_for_mode Rx.set_key Tx.new unsent_beacon
      cfg
  meets v =
      let b = fresh_tx.beacon in
      let read : Beacon.decode fresh_tx.beacon_bytes ≡ ok b =
        ap Beacon.decode v.beacon_bytes ∙ BeaconTrip.decode-encode b v.beacon in
      let heard = ingest_first_beacon b fresh_tx.beacon_bytes read in
      let handled : Rx.Receiver × Result Rx.Ingest → Receive × Result IngestResult = λ p. elim p.1 [
        | ok what ↦ reported (record (Receive.new s) { rx = p.0 }) what
        | err e ↦
            (record (Receive.new s) { rx = p.0 }, ok (Receive.err_result (Receive.from_error e)))
        | panic ↦ (record (Receive.new s) { rx = p.0 }, panic)
      ] in
      ap handled heard

module _ ⦃crc : Crc⦄ ⦃prim : Primitives⦄ where
  digits_shown :
      (s : Session) (s_eph_pub digits : Bytes)
      → IsArray 32 s_eph_pub
      → session_sas s s_eph_pub ≡ returns digits
      → some (sas s.session_id s.eph.public s_eph_pub s.r_nonce) ≡ some digits
  unfolding session_sas
  digits_shown s s_eph_pub digits h shown = let len = h.0 in ground arith

  pub same_key :
      (r_secret secret session_id : Bytes)
      → derive_pair receiver (key_pair r_secret) (prim.public_key secret) session_id
        ≡ derive_pair sender (key_pair secret) (prim.public_key r_secret) session_id
  unfolding derive_pair dh
  same_key r_secret secret session_id = cc (prim.diffie_hellman_comm r_secret secret)

  released_lem :
      (send : Send) (digits : Bytes)
      → send.sas ≡ some digits
      → ((release send).1 ≡ returns tt) × ((release send).0.tx.held ≡ false)
  unfolding release is_some Tx.release
  released_lem send digits kept = (ground arith, ground arith)

module _ ⦃crc : Crc⦄ ⦃prim : Primitives⦄ ⦃deflate : Deflate⦄ ⦃fountain : Fountain⦄ where
  -- In a first meeting, a sender without an identity that replies to the request of a new session shows its beacon
  -- first; from it the receiver derives the sender's key and shows digits; on the receiver's reveal the sender shows
  -- the same digits; and it refuses to be released before that and is released after it. The session, the nonces and
  -- the public keys have their lengths, and the build hash is made of bytes.
  pub first_meeting :
      (identity : Option Identity)
      (r_secret session_id r_nonce secret nonce payload build_hash : Bytes) (capacity : ℕ)
      → let s = new_session identity r_secret session_id r_nonce in
        IsArray 8 session_id
        → IsArray 16 r_nonce
        → IsArray 32 (prim.public_key r_secret)
        → IsArray 32 (prim.public_key secret)
        → IsArray 24 nonce
        → All IsByte build_hash
        → (send : Send) × (send' : Send) × (frame : Bytes) × (digits : Bytes) × (r : Receive)
          × (result : IngestResult) × (reply
                (pair_req s)
                secret
                nonce
                payload
                none
                none
                build_hash
                capacity
              ≡ returns send)
          × (next_frame send capacity ≡ ok (send', record { robust = true; bytes = frame }))
          × (Receive.ingest (Receive.new s) frame ≡ (r, ok result))
          × (result.kind ≡ beacon)
          × (result.sas ≡ some digits)
          × (r.rx.key ≡ some (derive_pair sender (key_pair secret) s.eph.public session_id))
          × ((accept_reveal send' (reveal s)).1 ≡ returns digits)
          × ((release send').1 ≡ throws unconfirmed)
          × ((release (accept_reveal send' (reveal s)).0).1 ≡ returns tt)
          × ((release (accept_reveal send' (reveal s)).0).0.tx.held ≡ false)
  unfolding new_session release is_some
  first_meeting identity r_secret session_id r_nonce secret nonce payload build_hash capacity hs hr
        hrp hsp hn hb =
      let s = new_session identity r_secret session_id r_nonce in
      let w : IsWellFormed s = record { session_id = hs; public = hrp; r_nonce = hr } in
      let config = cfg pair session_id (prim.public_key secret) build_hash capacity false in
      let usable =
        cfg-IsUsable pair session_id (prim.public_key secret) build_hash capacity false hs hsp hb in
      let v =
        sender_new-IsValid (sender_key s secret nonce payload build_hash capacity) nonce config
          payload usable hn in
      let send' = beaconed s secret nonce payload build_hash capacity in
      let (digits, accepted, shown, kept) =
        accept_reveal_agrees s (prim.public_key secret) send' w hsp refl in
      let released = released_lem (accept_reveal send' (reveal s)).0 digits kept in
      (
        replied s secret nonce payload build_hash capacity,
        send',
        (fresh_tx s secret nonce payload build_hash capacity).beacon_bytes,
        digits,
        met s secret nonce payload build_hash capacity,
        met_result s secret nonce payload build_hash capacity,
        reply_lem s secret nonce payload build_hash capacity w,
        next_frame_lem s secret nonce payload build_hash capacity v,
        meets s secret nonce payload build_hash capacity v,
        refl,
        digits_shown s (prim.public_key secret) digits hsp shown,
        ap some (same_key r_secret secret session_id),
        accepted,
        refl,
        released.0,
        released.1,
      )
