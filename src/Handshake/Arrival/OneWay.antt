-- ===== src/Handshake/Arrival/OneWay.antt =====
-- core/src/wasm.rs: transfers for which nothing is scanned first, sealed to a known receiver or open to everyone.
use rabaska.Prelude.{
  ℕ, ◌≡◌, ◌≤◌, ◌<◌, ◌^◌, ◌⊎◌, arith, refl, ap, subst, Option, none, some, true, false, ◌+◌, ◌*◌,
  length, List, All,
}
use rabaska.Prelude.Bytes.{Bytes, IsByte, IsArray}
use rabaska.Wire.Types.{seal, open_room}
use rabaska.Wire.Frame.{Crc}
use rabaska.Crypto.Primitives.{Primitives}
use rabaska.Crypto.Keys.{
  dh, key_pair, KeyPair, seal_sender, seal_receiver, derive_open, derive_for_mode,
}
use rabaska.Pipeline.Services.{Deflate, Fountain}
use rabaska.Pipeline.Compress.{maybe_compress, inflate_limit}
use rabaska.Pipeline.Transmitter as Tx
use rabaska.Pipeline.Transmitter.{Transmitter, TransmitConfig, unsent_beacon}
use rabaska.Pipeline.Transfer.{Recovers}
use rabaska.Pipeline.Transfer.Sending.{sent_object}
use rabaska.Handshake.{Session, Send, returns, cfg, seal_to, open_to, is_some}
use rabaska.Handshake.Request.{cfg-IsUsable}
use rabaska.Handshake.Receive as Receive
use rabaska.Handshake.Receive.{Receive, IngestResult}
use rabaska.Handshake.Exchange.{Shares, Streams, Exchange, new-Streams, exchange_held}
use rabaska.Handshake.Watching.{watch}
use rabaska.Pipeline.Transfer.Completing.{Completes}
use rabaska.Handshake.Arrival.{told_of, begun-watch, new_free}
use rabaska.Error.{ok}

module _ ⦃crc : Crc⦄ ⦃prim : Primitives⦄ ⦃deflate : Deflate⦄ ⦃fountain : Fountain⦄ where
  -- The identity of a sender, from its secret or none.
  abbrev pub pair_of : Option Bytes → Option KeyPair
  pair_of none = none
  pair_of (some k) = some (key_pair k)

  abbrev pub public_of : Option Bytes → Option Bytes
  public_of none = none
  public_of (some k) = some (prim.public_key k)

  seal_agrees :
      (secret r_secret : Bytes) (id : Option Bytes)
      → seal_receiver (key_pair r_secret) (prim.public_key secret) (public_of id)
        ≡ seal_sender (key_pair secret) (pair_of id) (prim.public_key r_secret)
  unfolding seal_receiver seal_sender dh
  seal_agrees secret r_secret none = cc (prim.diffie_hellman_comm r_secret secret)
  seal_agrees secret r_secret (some k) =
      cc (prim.diffie_hellman_comm r_secret secret, prim.diffie_hellman_comm r_secret k)

  seal-Shares :
      (s : Session) (secret r_secret sid nonce payload build_hash : Bytes) (id : Option Bytes)
      (capacity : ℕ)
      → let key = seal_sender (key_pair secret) (pair_of id) (prim.public_key r_secret) in
        let config =
          cfg seal sid (prim.public_key secret) build_hash capacity (is_some (pair_of id)) in
        s.identity ≡ some (key_pair r_secret)
        → Shares s (public_of id) (Tx.new key nonce config payload).beacon key
  unfolding Tx.new unsent_beacon cfg derive_for_mode Receive.own_key
  seal-Shares s secret r_secret sid nonce payload build_hash id capacity mine = record {
    own = key_pair r_secret;
    own_key = rw mine refl;
    derives = ap ok (seal_agrees secret r_secret id);
  }

  seal_lem :
      (secret r_secret sid nonce payload build_hash : Bytes) (id : Option Bytes) (capacity : ℕ)
      (send₀ : Send)
      → let key = seal_sender (key_pair secret) (pair_of id) (prim.public_key r_secret) in
        let config =
          cfg seal sid (prim.public_key secret) build_hash capacity (is_some (pair_of id)) in
        seal_to (prim.public_key r_secret) secret nonce sid payload (pair_of id) build_hash capacity
          ≡ returns send₀
        → record { tx = Tx.new key nonce config payload; sas = none; pending = none } ≡ send₀
  unfolding seal_to
  seal_lem secret r_secret sid nonce payload build_hash id capacity send₀ made = ground arith

  -- A payload that is sealed to a receiver's public key, by a sender with an identity or none, arrives: a
  -- receiver with the session's device identity, told of the sender's identity if there is one, that reads each
  -- of as many frames as 17 and three times the packets, whatever their capacities, hands out the payload that
  -- was sealed, if it had not handed it out before; and so it is wherever the two ends got before, with whatever
  -- frames shown and lost, reveals scanned and releases asked for. The session id, the sender's public key and
  -- the nonce have their lengths, the build hash is made of bytes, the payload is shorter than 4 GiB and, if
  -- maybe_compress shortens it, not longer than the inflate limit, the decoder of the fountain code, fed with
  -- the packets of this object, gives the object or nothing, and gives it when it has had all of them, and these
  -- have identifiers of four bytes that tell them apart.
  pub sealed_arrives :
      (s : Session) (secret r_secret sid nonce payload build_hash : Bytes) (id : Option Bytes)
      (capacity : ℕ) (capacities : List ℕ) (send₀ send : Send) (r : Receive)
      → let key = seal_sender (key_pair secret) (pair_of id) (prim.public_key r_secret) in
        let config =
          cfg seal sid (prim.public_key secret) build_hash capacity (is_some (pair_of id)) in
        let tx = Tx.new key nonce config payload in
        s.identity ≡ some (key_pair r_secret)
        → IsArray 8 sid
        → IsArray 32 (prim.public_key secret)
        → IsArray 24 nonce
        → All IsByte build_hash
        → length payload < 256 ^ 4
        → (length payload ≤ inflate_limit) ⊎ ((maybe_compress payload).1 ≡ false)
        → Recovers tx.beacon.oti (sent_object key nonce config payload) tx.packets
        → Completes tx.beacon.oti (sent_object key nonce config payload) tx.packets
        → seal_to
            (prim.public_key r_secret)
            secret
            nonce
            sid
            payload
            (pair_of id)
            build_hash
            capacity
          ≡ returns send₀
        → Exchange send₀ (told_of s (public_of id)) send r
        → 3 * length tx.packets + 17 ≤ length capacities
        → (r.rx.done ≡ true) ⊎ (watch capacities send r ≡ some payload)
  sealed_arrives s secret r_secret sid nonce payload build_hash id capacity capacities send₀ send r
        mine hs hp hn hb lt fits law all made steps enough =
      let key = seal_sender (key_pair secret) (pair_of id) (prim.public_key r_secret) in
      let auth = is_some (pair_of id) in
      let config = cfg seal sid (prim.public_key secret) build_hash capacity auth in
      let tx = Tx.new key nonce config payload in
      let usable =
        cfg-IsUsable seal sid (prim.public_key secret) build_hash capacity auth hs hp hb in
      let same = seal_lem secret r_secret sid nonce payload build_hash id capacity send₀ made in
      begun-watch s (public_of id) key nonce config payload capacities send₀ send r
        (seal-Shares s secret r_secret sid nonce payload build_hash id capacity mine)
        (subst (λ t. Streams tx.beacon tx.packets payload t.tx) same
          (new-Streams key nonce config payload usable hn))
        lt fits law all steps
        (exchange_held send₀ (told_of s (public_of id)) send r
          (subst (λ t. t.tx.held ≡ false) same (new_free key nonce config payload)) steps)
        enough

  open-Shares :
      (s : Session) (peer : Option Bytes) (secret sid nonce payload build_hash : Bytes)
      (capacity : ℕ)
      → let key = derive_open sid (prim.public_key secret) in
        let config = cfg open_room sid (prim.public_key secret) build_hash capacity false in
        Shares s peer (Tx.new key nonce config payload).beacon key
  unfolding Tx.new unsent_beacon cfg derive_for_mode Receive.own_key
  open-Shares s peer secret sid nonce payload build_hash capacity = record {
    own = s.eph;
    own_key = refl;
    derives = refl;
  }

  -- An open transfer arrives in the same way, at whoever sees the screen, under the same conditions.
  opened_arrives :
      (s : Session) (peer : Option Bytes) (secret sid nonce payload build_hash : Bytes)
      (capacity : ℕ) (capacities : List ℕ) (send : Send) (r : Receive)
      → let key = derive_open sid (prim.public_key secret) in
        let config = cfg open_room sid (prim.public_key secret) build_hash capacity false in
        let tx = Tx.new key nonce config payload in
        IsArray 8 sid
        → IsArray 32 (prim.public_key secret)
        → IsArray 24 nonce
        → All IsByte build_hash
        → length payload < 256 ^ 4
        → (length payload ≤ inflate_limit) ⊎ ((maybe_compress payload).1 ≡ false)
        → Recovers tx.beacon.oti (sent_object key nonce config payload) tx.packets
        → Completes tx.beacon.oti (sent_object key nonce config payload) tx.packets
        → Exchange (open_to secret nonce sid payload build_hash capacity) (told_of s peer) send r
        → 3 * length tx.packets + 17 ≤ length capacities
        → (r.rx.done ≡ true) ⊎ (watch capacities send r ≡ some payload)
  unfolding open_to
  opened_arrives s peer secret sid nonce payload build_hash capacity capacities send r hs hp hn hb
        lt fits law all steps enough =
      let key = derive_open sid (prim.public_key secret) in
      let config = cfg open_room sid (prim.public_key secret) build_hash capacity false in
      let usable =
        cfg-IsUsable open_room sid (prim.public_key secret) build_hash capacity false hs hp hb in
      let send₀ = open_to secret nonce sid payload build_hash capacity in
      begun-watch s peer key nonce config payload capacities send₀ send r
        (open-Shares s peer secret sid nonce payload build_hash capacity)
        (new-Streams key nonce config payload usable hn) lt fits law all steps
        (exchange_held send₀ (told_of s peer) send r (new_free key nonce config payload) steps)
        enough
