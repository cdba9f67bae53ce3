-- ===== src/Handshake/Arrival/Known.antt =====
-- core/src/wasm.rs: a reply to a receiver that is known, who knows the sender.
use rabaska.Prelude.{
  ℕ, ◌≡◌, ◌≤◌, ◌<◌, ◌^◌, ◌⊎◌, arith, refl, ap, subst, none, some, true, false, ◌+◌, ◌*◌, length,
  List, All,
}
use rabaska.Prelude.Bytes.{Bytes, IsByte, IsArray}
use rabaska.Wire.Types.{session}
use rabaska.Wire.Frame.{Crc}
use rabaska.Crypto.Primitives.{Primitives}
use rabaska.Crypto.Keys.{dh, key_pair, sender, derive_session, derive_for_mode, receiver}
use rabaska.Pipeline.Services.{Deflate, Fountain}
use rabaska.Pipeline.Compress.{maybe_compress, inflate_limit}
use rabaska.Pipeline.Transmitter as Tx
use rabaska.Pipeline.Transmitter.{Transmitter, TransmitConfig, unsent_beacon}
use rabaska.Pipeline.Transfer.{Recovers}
use rabaska.Pipeline.Transfer.Sending.{sent_object}
use rabaska.Handshake.{Session, Send, returns, cfg, pair_req, reply, reply_to, key_or_none}
use rabaska.Handshake.Request.{cfg-IsUsable, request_read}
use rabaska.Handshake.Digits.{IsWellFormed}
use rabaska.Handshake.Identity.{new_session}
use rabaska.Handshake.Receive as Receive
use rabaska.Handshake.Receive.{Receive, IngestResult}
use rabaska.Handshake.Exchange.{Shares, Streams, Exchange, new-Streams, exchange_held}
use rabaska.Handshake.Watching.{watch}
use rabaska.Pipeline.Transfer.Completing.{Completes}
use rabaska.Handshake.Arrival.{told_of, begun-watch, new_free}
use rabaska.Error.{ok}

module _ ⦃crc : Crc⦄ ⦃prim : Primitives⦄ ⦃deflate : Deflate⦄ ⦃fountain : Fountain⦄ where
  -- The key of a sender and a receiver that know one another.
  abbrev pub known_key : (secret id r_secret r_id session_id : Bytes) → Bytes
  known_key secret id r_secret r_id session_id =
      derive_session sender (key_pair secret) (key_pair id) (prim.public_key r_secret)
        (prim.public_key r_id) session_id

  session_agrees :
      (secret id r_secret r_id session_id : Bytes)
      → derive_session receiver
          (key_pair r_secret)
          (key_pair r_id)
          (prim.public_key secret)
          (prim.public_key id)
          session_id
        ≡ known_key secret id r_secret r_id session_id
  unfolding derive_session dh
  session_agrees secret id r_secret r_id session_id = cc (
    prim.diffie_hellman_comm r_secret secret,
    prim.diffie_hellman_comm r_secret id,
    prim.diffie_hellman_comm r_id secret,
  )

  session-Shares :
      (secret id r_secret r_id session_id r_nonce nonce payload build_hash : Bytes) (capacity : ℕ)
      → let s = new_session (some (record { inner = key_pair r_id })) r_secret session_id r_nonce in
        let key = known_key secret id r_secret r_id session_id in
        let config = cfg session session_id (prim.public_key secret) build_hash capacity true in
        Shares s (some (prim.public_key id)) (Tx.new key nonce config payload).beacon key
  unfolding new_session Tx.new unsent_beacon cfg derive_for_mode Receive.own_key
  session-Shares secret id r_secret r_id session_id r_nonce nonce payload build_hash capacity =
      record {
        own = key_pair r_secret;
        own_key = refl;
        derives = ap ok (session_agrees secret id r_secret r_id session_id);
      }

  known_reply :
      (s : Session) (secret id r_id nonce payload build_hash : Bytes) (capacity : ℕ) (send₀ : Send)
      → let key =
          derive_session sender
            (key_pair secret)
            (key_pair id)
            s.eph.public
            (prim.public_key r_id)
            s.session_id in
        let config = cfg session s.session_id (prim.public_key secret) build_hash capacity true in
        IsWellFormed s
        → IsArray 32 (prim.public_key r_id)
        → reply
            (pair_req s)
            secret
            nonce
            payload
            (some id)
            (some (prim.public_key r_id))
            build_hash
            capacity
          ≡ returns send₀
        → record { tx = Tx.new key nonce config payload; sas = none; pending = none } ≡ send₀
  unfolding reply reply_to key_or_none derive_for_mode
  known_reply s secret id r_id nonce payload build_hash capacity send₀ w long replies =
      let read = request_read s w in let len = long.0 in ground arith

  -- Between two ends that know one another's identities a payload arrives without digits to compare: after the
  -- sender has replied to the request of the receiver's new session, a receiver told of the sender's identity
  -- that reads each of as many frames as 17 and three times the packets, whatever their capacities, hands out
  -- the payload that was sent, if it had not handed it out before; and so it is wherever the two ends got
  -- before, with whatever frames shown and lost, reveals scanned and releases asked for. The session id, the
  -- nonces and the public keys have their lengths, the build hash is made of bytes, the payload is shorter than
  -- 4 GiB and, if maybe_compress shortens it, not longer than the inflate limit, the decoder of the fountain
  -- code, fed with the packets of this object, gives the object or nothing, and gives it when it has had all of
  -- them, and these have identifiers of four bytes that tell them apart.
  pub known_arrives :
      (secret id r_secret r_id session_id r_nonce nonce payload build_hash : Bytes) (capacity : ℕ)
      (capacities : List ℕ) (send₀ send : Send) (r : Receive)
      → let s = new_session (some (record { inner = key_pair r_id })) r_secret session_id r_nonce in
        let key = known_key secret id r_secret r_id session_id in
        let config = cfg session session_id (prim.public_key secret) build_hash capacity true in
        let tx = Tx.new key nonce config payload in
        IsArray 8 session_id
        → IsArray 16 r_nonce
        → IsArray 32 (prim.public_key r_secret)
        → IsArray 32 (prim.public_key r_id)
        → IsArray 32 (prim.public_key secret)
        → IsArray 24 nonce
        → All IsByte build_hash
        → length payload < 256 ^ 4
        → (length payload ≤ inflate_limit) ⊎ ((maybe_compress payload).1 ≡ false)
        → Recovers tx.beacon.oti (sent_object key nonce config payload) tx.packets
        → Completes tx.beacon.oti (sent_object key nonce config payload) tx.packets
        → reply
            (pair_req s)
            secret
            nonce
            payload
            (some id)
            (some (prim.public_key r_id))
            build_hash
            capacity
          ≡ returns send₀
        → Exchange send₀ (told_of s (some (prim.public_key id))) send r
        → 3 * length tx.packets + 17 ≤ length capacities
        → (r.rx.done ≡ true) ⊎ (watch capacities send r ≡ some payload)
  unfolding new_session
  known_arrives secret id r_secret r_id session_id r_nonce nonce payload build_hash capacity
        capacities send₀ send r hs hr hrp hrip hsp hn hb lt fits law all replies steps enough =
      let s = new_session (some (record { inner = key_pair r_id })) r_secret session_id r_nonce in
      let peer = some (prim.public_key id) in
      let key = known_key secret id r_secret r_id session_id in
      let config = cfg session session_id (prim.public_key secret) build_hash capacity true in
      let tx = Tx.new key nonce config payload in
      let w : IsWellFormed s = record { session_id = hs; public = hrp; r_nonce = hr } in
      let usable =
        cfg-IsUsable session session_id (prim.public_key secret) build_hash capacity true hs hsp
          hb in
      let same =
        known_reply s secret id r_id nonce payload build_hash capacity send₀ w hrip replies in
      begun-watch s peer key nonce config payload capacities send₀ send r
        (session-Shares secret id r_secret r_id session_id r_nonce nonce payload build_hash
          capacity)
        (subst (λ t. Streams tx.beacon tx.packets payload t.tx) same
          (new-Streams key nonce config payload usable hn))
        lt fits law all steps
        (exchange_held send₀ (told_of s peer) send r
          (subst (λ t. t.tx.held ≡ false) same (new_free key nonce config payload)) steps)
        enough
