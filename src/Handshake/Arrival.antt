-- ===== src/Handshake/Arrival.antt =====
-- core/src/wasm.rs: after a first meeting, a released sender whose frames are all read gets its payload across.
pub mod OneWay
pub mod Known
use rabaska.Prelude.{
  ℕ, ◌≡◌, ◌≤◌, ◌<◌, ◌^◌, ◌⊎◌, inl, refl, subst, Option, none, some, true, false, ◌+◌, ◌*◌, length,
  List, All,
}
use rabaska.Prelude.Bytes.{Bytes, IsByte, IsArray}
use rabaska.Wire.Types.{pair}
use rabaska.Wire.Frame.{Crc}
use rabaska.Crypto.Primitives.{Primitives}
use rabaska.Crypto.Keys.{receiver, derive_pair}
use rabaska.Pipeline.Services.{Deflate, Fountain}
use rabaska.Pipeline.Compress.{maybe_compress, inflate_limit}
use rabaska.Pipeline.Transmitter as Tx
use rabaska.Pipeline.Transmitter.{Transmitter, TransmitConfig, unsent_beacon}
use rabaska.Pipeline.Receiver as Rx
use rabaska.Pipeline.Receiver.{open_object}
use rabaska.Pipeline.Transfer.{Recovers, Offers}
use rabaska.Pipeline.Transfer.Sending.{sent_object, new_opens}
use rabaska.Handshake.{Session, Send, returns, cfg, pair_req, reply}
use rabaska.Handshake.Identity.{Identity, new_session}
use rabaska.Handshake.Meeting.{sender_key, fresh_tx, same_key}
use rabaska.Handshake.Receive as Receive
use rabaska.Handshake.Receive.{Receive, IngestResult}
use rabaska.Handshake.Exchange.{Shares, Streams, Exchange}
use rabaska.Handshake.Exchange.Underway.{IsUnderway, exchange-IsUnderway}
use rabaska.Handshake.Watching.{watch}
use rabaska.Handshake.Watching.Early.{underway-watch}
use rabaska.Handshake.Delivery.{meeting-Shares, replied-Streams}
use rabaska.Pipeline.Transfer.Completing.{Completes}

module _ ⦃crc : Crc⦄ ⦃prim : Primitives⦄ ⦃deflate : Deflate⦄ ⦃fountain : Fountain⦄ where
  -- A receiver as it starts, told of the sender's identity or of none.
  abbrev pub told_of : Session → Option Bytes → Receive
  told_of s peer = record (Receive.new s) { peer_identity = peer }

  -- A sender that has begun with a new transmitter, and a receiver that shares its key.
  pub begun-watch :
      (s : Session) (peer : Option Bytes) (key nonce : Bytes) (config : TransmitConfig)
      (payload : Bytes) (capacities : List ℕ) (send₀ send : Send) (r : Receive)
      → let tx = Tx.new key nonce config payload in
        Shares s peer tx.beacon key
        → Streams tx.beacon tx.packets payload send₀.tx
        → length payload < 256 ^ 4
        → (length payload ≤ inflate_limit) ⊎ ((maybe_compress payload).1 ≡ false)
        → Recovers tx.beacon.oti (sent_object key nonce config payload) tx.packets
        → Completes tx.beacon.oti (sent_object key nonce config payload) tx.packets
        → Exchange send₀ (told_of s peer) send r
        → send.tx.held ≡ false
        → 3 * length tx.packets + 17 ≤ length capacities
        → (r.rx.done ≡ true) ⊎ (watch capacities send r ≡ some payload)
  unfolding Receive.new Rx.new
  begun-watch s peer key nonce config payload capacities send₀ send r shares streams lt fits law all
        steps free enough =
      let tx = Tx.new key nonce config payload in
      let offer : Offers tx.beacon tx.packets key payload = record {
        object = sent_object key nonce config payload;
        opens = new_opens key nonce config payload lt fits;
        recovers = law;
      } in
      let begins : IsUnderway s peer tx.beacon tx.packets key payload shares offer all send₀
          (told_of s peer) =
        record {
          tx = streams;
          stage = inl (record {
            waits = record {
              beacon = refl;
              seen = refl;
              ids = refl;
              pending = tt;
              not_done = refl;
            };
            keyed = refl;
            own = (refl, refl);
          });
        } in
      underway-watch s peer tx.beacon tx.packets key payload shares offer all send r capacities
        (exchange-IsUnderway s peer tx.beacon tx.packets key payload shares offer all send₀
          (told_of s peer) send r begins steps)
        free enough

  pub new_free :
      (key nonce : Bytes) (config : TransmitConfig) (payload : Bytes)
      → (Tx.new key nonce config payload).held ≡ false
  unfolding Tx.new
  new_free key nonce config payload = refl

  -- After a sender without an identity has replied to the request of a new session, wherever the two ends got,
  -- with whatever frames shown and lost, reveals scanned and releases asked for: if the sender is released, and
  -- the receiver reads each of as many frames as 17 and three times the packets, whatever their capacities, then
  -- it hands out the payload that was sent, if it had not handed it out before. The session, the nonces and the
  -- public keys have their lengths, the build hash is made of bytes, the payload is shorter than 4 GiB and, if
  -- maybe_compress shortens it, not longer than the inflate limit, the decoder of the fountain code, fed with
  -- the packets of this object, gives the object or nothing, and gives it when it has had all of them, and these
  -- have identifiers of four bytes that tell them apart.
  pub first_meeting_arrives :
      (identity : Option Identity)
      (r_secret session_id r_nonce secret nonce payload build_hash : Bytes) (capacity : ℕ)
      (capacities : List ℕ) (send₀ send : Send) (r : Receive)
      → let s = new_session identity r_secret session_id r_nonce in
        let key = sender_key s secret nonce payload build_hash capacity in
        let config = cfg pair session_id (prim.public_key secret) build_hash capacity false in
        let tx = fresh_tx s secret nonce payload build_hash capacity in
        IsArray 8 session_id
        → IsArray 16 r_nonce
        → IsArray 32 (prim.public_key r_secret)
        → IsArray 32 (prim.public_key secret)
        → IsArray 24 nonce
        → All IsByte build_hash
        → length payload < 256 ^ 4
        → (length payload ≤ inflate_limit) ⊎ ((maybe_compress payload).1 ≡ false)
        → Recovers tx.beacon.oti (sent_object key nonce config payload) tx.packets
        → Completes tx.beacon.oti (sent_object key nonce config payload) tx.packets
        → reply (pair_req s) secret nonce payload none none build_hash capacity ≡ returns send₀
        → Exchange send₀ (Receive.new s) send r
        → send.tx.held ≡ false
        → 3 * length tx.packets + 17 ≤ length capacities
        → (r.rx.done ≡ true) ⊎ (watch capacities send r ≡ some payload)
  unfolding new_session Receive.new Rx.new Tx.new unsent_beacon cfg
  first_meeting_arrives identity r_secret session_id r_nonce secret nonce payload build_hash
        capacity capacities send₀ send r hs hr hrp hsp hn hb lt fits law all replies steps free
        enough =
      let s = new_session identity r_secret session_id r_nonce in
      let ks = sender_key s secret nonce payload build_hash capacity in
      let config = cfg pair session_id (prim.public_key secret) build_hash capacity false in
      let tx = fresh_tx s secret nonce payload build_hash capacity in
      let shares : Shares s none tx.beacon ks =
        subst (Shares s none tx.beacon) (same_key r_secret secret session_id) (
          meeting-Shares identity r_secret session_id r_nonce secret nonce payload build_hash
            capacity) in
      begun-watch s none ks nonce config payload capacities send₀ send r shares
        (replied-Streams identity r_secret session_id r_nonce secret nonce payload build_hash
          capacity send₀ hs hr hrp hsp hn hb replies)
        lt fits law all steps free enough
