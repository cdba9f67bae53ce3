-- ===== src/Handshake/Exchange.antt =====
-- core/src/wasm.rs: a sender and a receiver from the reply on, with any calls and any frames lost between them.
pub mod Keeps
pub mod Underway
use rabaska.Prelude.{
  ℕ, ◌≡◌, ◌⊎◌, inl, inr, refl, sym, ap, subst, ◌∙◌, Option, none, some, true, false, List, arith,
}
use rabaska.Prelude.Bytes.{Bytes, IsArray}
use rabaska.Error.{Result, ok, err, panic, ok_injective}
use rabaska.Wire.Types.{pair}
use rabaska.Wire.Frame.{Crc}
use rabaska.Wire.Beacon.{Beacon}
use rabaska.Crypto.Primitives.{Primitives}
use rabaska.Crypto.Keys.{KeyPair, receiver, derive_for_mode}
use rabaska.Pipeline.Services.{Deflate, Fountain}
use rabaska.Pipeline.Transmitter as Tx
use rabaska.Pipeline.Transmitter.{
  Transmitter, OpticalFrame, beacon_frame, symbol_frame, frame_bytes, TransmitConfig,
  next_frame_packed,
}
use rabaska.Pipeline.Receiver as Rx
use rabaska.Pipeline.Receiver.{Receiver}
use rabaska.Pipeline.Transmitter.Validity.{release-IsValid}
use rabaska.Pipeline.Transmitter.Start.{IsUsable}
use rabaska.Pipeline.Transfer.{Offers, Tracks, IsGood, IsFrameOf}
use rabaska.Pipeline.Transfer.Frames.{set_key-Tracks, ingest-Continues}
use rabaska.Pipeline.Transfer.Sending.{Sends, new-Sends, next_frame_at-Sends}
use rabaska.Handshake.{Session, Send, FrameOut, shown, next_frame, accept_reveal, release}
use rabaska.Handshake.Receive as Receive
use rabaska.Handshake.Receive.{
  Receive, IngestResult, Kind, ignored, beacon, progress, finished, error, gives, derive_from,
  derive_and_set, acquired, reported,
}

-- No error, and no payload but this one.
abbrev pub IsFine : Bytes → Kind → Option Bytes → Type 0
IsFine payload ignored p = Unit {0}
IsFine payload beacon p = Unit {0}
IsFine payload progress p = Unit {0}
IsFine payload finished p = p ≡ some payload
IsFine payload (error e) p = ⊥

module _ ⦃crc : Crc⦄ ⦃prim : Primitives⦄ ⦃deflate : Deflate⦄ ⦃fountain : Fountain⦄ where
  -- The states that two ends can reach: a frame is shown, and lost or seen; a reveal is scanned, of whatever
  -- bytes; the sender is asked to be released.
  pub data Exchange (send₀ : Send) (r₀ : Receive) : Send → Receive → Type 0 where
    start : Exchange send₀ r₀ send₀ r₀
    lost :
        {send send' : Send} {r : Receive} {f : FrameOut} (capacity : ℕ)
        → Exchange send₀ r₀ send r
        → next_frame send capacity ≡ ok (send', f)
        → Exchange send₀ r₀ send' r
    seen :
        {send send' : Send} {r : Receive} {f : FrameOut} (capacity : ℕ)
        → Exchange send₀ r₀ send r
        → next_frame send capacity ≡ ok (send', f)
        → Exchange send₀ r₀ send' (Receive.ingest r f.bytes).0
    revealing :
        {send : Send} {r : Receive} (frame : Bytes)
        → Exchange send₀ r₀ send r
        → Exchange send₀ r₀ (accept_reveal send frame).0 r
    releasing :
        {send : Send} {r : Receive}
        → Exchange send₀ r₀ send r
        → Exchange send₀ r₀ (release send).0 r

  -- The receiver's side of the key: with its session and the sender's identity, if it was told one, it derives the
  -- key from the beacon.
  pub record Shares (s : Session) (peer : Option Bytes) (b : Beacon) (key : Bytes) : Type 0 where
    pub own : KeyPair
    pub own_key : Receive.own_key b.mode s ≡ gives own
    pub derives :
        derive_for_mode b.mode receiver own s.identity
          (record { eph_pub = b.s_eph_pub; id_pub = peer })
          b.session_id
        ≡ ok key

  -- A receiver of the session, told of the peer.
  abbrev pub IsOf : Session → Option Bytes → Receive → Type 0
  IsOf s peer r = (r.session ≡ s) × (r.peer_identity ≡ peer)

  shown-bytes : (frame : OpticalFrame) → (shown frame).bytes ≡ frame_bytes frame
  unfolding frame_bytes
  shown-bytes (beacon_frame b) = refl
  shown-bytes (symbol_frame b) = refl

  module _ (b : Beacon) (pool : List Bytes) (payload : Bytes) where
    -- The sender at work on the payload, with the interval of a new transmitter.
    pub record Streams (t : Transmitter) : Type 0 where
      pub sends : Sends b pool payload t
      pub interval : t.beacon_interval ≡ 15

    release-Streams : (t : Transmitter) → Streams t → Streams (Tx.release t)
    unfolding Tx.release
    release-Streams t streams = record {
      sends = record {
        valid = release-IsValid t streams.sends.valid;
        beacon = streams.sends.beacon;
        packets = streams.sends.packets;
        plaintext_hash = streams.sends.plaintext_hash;
      };
      interval = streams.interval;
    }

    -- The calls that leave the sender's stream as it is.
    pub accept_reveal_keeps :
        (send : Send) (frame : Bytes) → Streams send.tx → Streams (accept_reveal send frame).0.tx
    unfolding accept_reveal
    accept_reveal_keeps send frame streams =
        let same : (accept_reveal send frame).0.tx ≡ send.tx = ground arith in
        subst Streams (sym same) streams

    pub release_keeps : (send : Send) → Streams send.tx → Streams (release send).0.tx
    unfolding release
    release_keeps send streams = ground (arith, release-Streams send.tx streams)

    -- The frame that the sender shows next.
    pub next_frame_shows :
        (send : Send) (capacity : ℕ)
        → Streams send.tx
        → (send' : Send) × (f : FrameOut) × (next_frame send capacity ≡ ok (send', f))
          × Streams send'.tx
          × IsFrameOf b pool f.bytes
    unfolding next_frame
    next_frame_shows send capacity streams =
        let (p, run, sends, which, same) =
          next_frame_at-Sends b pool payload send.tx capacity streams.sends in
        (
          record send { tx = p.0 },
          shown p.1,
          rw run refl,
          record { sends = sends; interval = same ∙ streams.interval },
          subst (IsFrameOf b pool) (sym (shown-bytes p.1)) which,
        )

    pub shown_by :
        (send send' : Send) (f : FrameOut) (capacity : ℕ)
        → Streams send.tx
        → next_frame send capacity ≡ ok (send', f)
        → Streams send'.tx × IsFrameOf b pool f.bytes
    shown_by send send' f capacity streams shows =
        let (t, g, run, streams', which) = next_frame_shows send capacity streams in
        let same : (t, g) ≡ (send', f) = ok_injective (sym run ∙ shows) in
        (
          subst (λ p. Streams p.0.tx) same streams',
          subst (λ p. IsFrameOf b pool p.1.bytes) same which,
        )

module _ ⦃crc : Crc⦄ ⦃prim : Primitives⦄ ⦃deflate : Deflate⦄ ⦃fountain : Fountain⦄ where
  -- A new transmitter.
  pub new-Streams :
      (key nonce : Bytes) (config : TransmitConfig) (payload : Bytes)
      → let tx = Tx.new key nonce config payload in
        IsUsable config → IsArray 24 nonce → Streams tx.beacon tx.packets payload tx
  unfolding Tx.new
  new-Streams key nonce config payload usable hn = record {
    sends = new-Sends key nonce config payload usable hn;
    interval = refl;
  }

  shown_held :
      (send send' : Send) (f : FrameOut) (capacity : ℕ)
      → next_frame send capacity ≡ ok (send', f)
      → send.tx.held ≡ false
      → send'.tx.held ≡ false
  unfolding next_frame Tx.next_frame_at next_frame_packed
  shown_held send send' f capacity shows free = ground arith

  -- A sender that does not hold its payload back, never does.
  pub exchange_held :
      (send₀ : Send) (r₀ : Receive) (send : Send) (r : Receive)
      → send₀.tx.held ≡ false
      → Exchange send₀ r₀ send r
      → send.tx.held ≡ false
  unfolding accept_reveal release Tx.release
  exchange_held send₀ r₀ _ _ free start = free
  exchange_held send₀ r₀ _ r free
        (lost {send = send} {send' = send'} {f = f} capacity before shows) =
      shown_held send send' f capacity shows (exchange_held send₀ r₀ send r free before)
  exchange_held send₀ r₀ _ _ free
        (seen {send = send} {send' = send'} {r = r} {f = f} capacity before shows) =
      shown_held send send' f capacity shows (exchange_held send₀ r₀ send r free before)
  exchange_held send₀ r₀ _ _ free (revealing {send = send} {r = r} frame before) =
      let held = exchange_held send₀ r₀ send r free before in ground arith
  exchange_held send₀ r₀ _ _ free (releasing {send = send} {r = r} before) =
      let held = exchange_held send₀ r₀ send r free before in ground arith
