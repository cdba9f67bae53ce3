-- ===== src/Handshake/Delivery.antt =====
-- core/src/wasm.rs: after a reply, whatever is called and whatever is lost, the receiver gets the payload or waits.
use rabaska.Prelude.{
  ℕ, ◌≡◌, ◌≤◌, ◌<◌, ◌^◌, ◌⊎◌, inl, refl, sym, subst, ◌∙◌, Option, none, false, length, List, All,
}
use rabaska.Prelude.Bytes.{Bytes, IsByte, IsArray}
use rabaska.Error.{ok}
use rabaska.Wire.Types.{pair}
use rabaska.Wire.Frame.{Crc}
use rabaska.Wire.Beacon.{Beacon}
use rabaska.Crypto.Primitives.{Primitives}
use rabaska.Crypto.Keys.{key_pair, receiver, derive_pair, derive_for_mode}
use rabaska.Pipeline.Services.{Deflate, Fountain}
use rabaska.Pipeline.Compress.{maybe_compress, inflate_limit}
use rabaska.Pipeline.Transmitter as Tx
use rabaska.Pipeline.Transmitter.{Transmitter, TransmitConfig, unsent_beacon}
use rabaska.Pipeline.Transmitter.Validity.{hold-IsValid}
use rabaska.Pipeline.Receiver as Rx
use rabaska.Pipeline.Receiver.{open_object}
use rabaska.Pipeline.Transfer.{Recovers, Offers}
use rabaska.Pipeline.Transfer.Frames.{new-Tracks}
use rabaska.Pipeline.Transfer.Sending.{sent_object, new-Sends, new_opens}
use rabaska.Handshake.{Send, FrameOut, returns, cfg, pair_req, reply, next_frame}
use rabaska.Handshake.Digits.{IsWellFormed}
use rabaska.Handshake.Identity.{Identity, new_session}
use rabaska.Handshake.Request.{cfg-IsUsable}
use rabaska.Handshake.Meeting.{sender_key, fresh_tx, replied, reply_lem, same_key}
use rabaska.Handshake.Receive as Receive
use rabaska.Handshake.Receive.{Receive, IngestResult}
use rabaska.Handshake.Exchange.{IsFine, Exchange, Streams, Shares}
use rabaska.Handshake.Exchange.Keeps.{IsExchange, exchange_lem}

module _ ⦃crc : Crc⦄ ⦃prim : Primitives⦄ ⦃deflate : Deflate⦄ ⦃fountain : Fountain⦄ where
  hold-Streams :
      (b : Beacon) (pool : List Bytes) (payload : Bytes) (t : Transmitter)
      → Streams b pool payload t
      → Streams b pool payload (Tx.hold t)
  unfolding Tx.hold
  hold-Streams b pool payload t s = record {
    sends = record {
      valid = hold-IsValid t s.sends.valid;
      beacon = s.sends.beacon;
      packets = s.sends.packets;
      plaintext_hash = s.sends.plaintext_hash;
    };
    interval = s.interval;
  }

  returned : {A : Type 0} {x y : A} → returns x ≡ returns y → x ≡ y
  returned h = cc

  -- What the sender of a first meeting encrypts, the receiver's key opens.
  pub meeting_opens :
      (identity : Option Identity)
      (r_secret session_id r_nonce secret nonce payload build_hash : Bytes) (capacity : ℕ)
      → let s = new_session identity r_secret session_id r_nonce in
        let key = sender_key s secret nonce payload build_hash capacity in
        let config = cfg pair session_id (prim.public_key secret) build_hash capacity false in
        let tx = fresh_tx s secret nonce payload build_hash capacity in
        length payload < 256 ^ 4
        → (length payload ≤ inflate_limit) ⊎ ((maybe_compress payload).1 ≡ false)
        → open_object tx.beacon
            (derive_pair receiver s.eph (prim.public_key secret) session_id)
            (sent_object key nonce config payload)
          ≡ ok payload
  unfolding new_session Tx.new unsent_beacon cfg
  meeting_opens identity r_secret session_id r_nonce secret nonce payload build_hash capacity lt
        fits =
      let s = new_session identity r_secret session_id r_nonce in
      let ks = sender_key s secret nonce payload build_hash capacity in
      let config = cfg pair session_id (prim.public_key secret) build_hash capacity false in
      let tx = fresh_tx s secret nonce payload build_hash capacity in
      subst (λ k. open_object tx.beacon k (sent_object ks nonce config payload) ≡ ok payload)
        (sym (same_key r_secret secret session_id)) (new_opens ks nonce config payload lt fits)

  -- The receiver of a first meeting derives its key in PAIR mode.
  pub meeting-Shares :
      (identity : Option Identity)
      (r_secret session_id r_nonce secret nonce payload build_hash : Bytes) (capacity : ℕ)
      → let s = new_session identity r_secret session_id r_nonce in
        let tx = fresh_tx s secret nonce payload build_hash capacity in
        Shares s none tx.beacon (derive_pair receiver s.eph (prim.public_key secret) session_id)
  unfolding new_session Tx.new unsent_beacon cfg derive_for_mode Receive.own_key
  meeting-Shares identity r_secret session_id r_nonce secret nonce payload build_hash capacity =
      record { own = key_pair r_secret; own_key = refl; derives = refl }

  -- The sender after its reply.
  pub replied-Streams :
      (identity : Option Identity)
      (r_secret session_id r_nonce secret nonce payload build_hash : Bytes) (capacity : ℕ)
      (send₀ : Send)
      → let s = new_session identity r_secret session_id r_nonce in
        let tx = fresh_tx s secret nonce payload build_hash capacity in
        IsArray 8 session_id
        → IsArray 16 r_nonce
        → IsArray 32 (prim.public_key r_secret)
        → IsArray 32 (prim.public_key secret)
        → IsArray 24 nonce
        → All IsByte build_hash
        → reply (pair_req s) secret nonce payload none none build_hash capacity ≡ returns send₀
        → Streams tx.beacon tx.packets payload send₀.tx
  unfolding new_session Tx.new cfg
  replied-Streams identity r_secret session_id r_nonce secret nonce payload build_hash capacity
        send₀ hs hr hrp hsp hn hb replies =
      let s = new_session identity r_secret session_id r_nonce in
      let ks = sender_key s secret nonce payload build_hash capacity in
      let config = cfg pair session_id (prim.public_key secret) build_hash capacity false in
      let tx = fresh_tx s secret nonce payload build_hash capacity in
      let w : IsWellFormed s = record { session_id = hs; public = hrp; r_nonce = hr } in
      let usable =
        cfg-IsUsable pair session_id (prim.public_key secret) build_hash capacity false hs hsp hb in
      let same : replied s secret nonce payload build_hash capacity ≡ send₀ =
        returned (sym (reply_lem s secret nonce payload build_hash capacity w) ∙ replies) in
      subst (λ t. Streams tx.beacon tx.packets payload t.tx) same
        (hold-Streams tx.beacon tx.packets payload tx
          (record { sends = new-Sends ks nonce config payload usable hn; interval = refl }))

  -- After a sender without an identity has replied to the request of a new session, whatever frames it shows, whichever
  -- of them are lost, whatever is scanned as a reveal and whenever its release is asked for: it shows a frame next, and
  -- the receiver takes that frame without an error or a panic, and hands out no payload but the one that was sent, where
  -- the session, the nonces and the public keys have their lengths, the build hash is made of bytes, the payload is
  -- shorter than 4 GiB and, if maybe_compress shortens it, not longer than the inflate limit, and the decoder of the
  -- fountain code, fed with the packets of this object, gives the object or nothing.
  pub first_meeting_delivers :
      (identity : Option Identity)
      (r_secret session_id r_nonce secret nonce payload build_hash : Bytes) (capacity next : ℕ)
      (send₀ send : Send) (r : Receive)
      → let s = new_session identity r_secret session_id r_nonce in
        let key = sender_key s secret nonce payload build_hash capacity in
        let config = cfg pair session_id (prim.public_key secret) build_hash capacity false in
        let tx = fresh_tx s secret nonce payload build_hash capacity in
        IsArray 8 session_id
        → IsArray 16 r_nonce
        → IsArray 32 (prim.public_key r_secret)
        → IsArray 32 (prim.public_key secret)
        → IsArray 24 nonce
        → All IsByte build_hash
        → length payload < 256 ^ 4
        → (length payload ≤ inflate_limit) ⊎ ((maybe_compress payload).1 ≡ false)
        → Recovers tx.beacon.oti (sent_object key nonce config payload) tx.packets
        → reply (pair_req s) secret nonce payload none none build_hash capacity ≡ returns send₀
        → Exchange send₀ (Receive.new s) send r
        → (send' : Send) × (f : FrameOut) × (result : IngestResult) × (next_frame send next
            ≡ ok (send', f))
          × ((Receive.ingest r f.bytes).1 ≡ ok result)
          × IsFine payload result.kind result.payload
  unfolding new_session Receive.new Rx.new Tx.new unsent_beacon cfg
  first_meeting_delivers identity r_secret session_id r_nonce secret nonce payload build_hash
        capacity next send₀ send r hs hr hrp hsp hn hb lt fits law replies steps =
      let s = new_session identity r_secret session_id r_nonce in
      let kr = derive_pair receiver s.eph (prim.public_key secret) session_id in
      let tx = fresh_tx s secret nonce payload build_hash capacity in
      let ks = sender_key s secret nonce payload build_hash capacity in
      let config = cfg pair session_id (prim.public_key secret) build_hash capacity false in
      let offer : Offers tx.beacon tx.packets kr payload = record {
        object = sent_object ks nonce config payload;
        opens =
            meeting_opens identity r_secret session_id r_nonce secret nonce payload build_hash
              capacity lt fits;
        recovers = law;
      } in
      let begins : IsExchange s none tx.beacon tx.packets kr payload send₀ (Receive.new s) =
        record {
          tx =
              replied-Streams identity r_secret session_id r_nonce secret nonce payload build_hash
                capacity send₀ hs hr hrp hsp hn hb replies;
          rx = new-Tracks tx.beacon tx.packets kr payload;
          own = (refl, refl);
          stage = inl (refl, refl);
        } in
      exchange_lem s none tx.beacon tx.packets kr payload
        (meeting-Shares identity r_secret session_id r_nonce secret nonce payload build_hash
          capacity)
        offer send₀ (Receive.new s) send r next begins steps
