-- ===== src/Tests/Meeting.antt =====
-- The handshake's theorems at a first meeting.
use rabaska.Prelude.{arith, ◌≡◌, refl, [], ◌∷◌, replicate, none, some, true, false}
use rabaska.Prelude.Bytes.{Bytes, ascii, bytes_eq}
use rabaska.Error.{Result, ok}
use rabaska.Wire.Frame.{open_frame, check_len}
use rabaska.Wire.Symbol.{packets_per_frame}
use rabaska.Wire.Reveal
use rabaska.Wire.PairReq.{PairReq}
use rabaska.Wire.Types.{pair, default_codec}
use rabaska.Crypto.Keys.{key_pair, sender, derive_pair, derive_for_mode}
use rabaska.Crypto.Human.{verify_commit}
use rabaska.Pipeline.Transmitter as Tx
use rabaska.Handshake.{
  Session, Send, FrameOut, returns, throws, unconfirmed, pair_req, reply, reveal, accept_reveal,
  release, next_frame, reply_to,
}
use rabaska.Handshake.Gate.{
  Confirmed, remembered, sent_or, start, showing, revealing, releasing,
  no_symbol_before_confirmation,
}
use rabaska.Handshake.Receive
use rabaska.Pipeline.Transmitter.Validity.{IsValid}
use rabaska.Pipeline.Transmitter.Start.{IsUsable, sender_new-IsValid}
use rabaska.Handshake.Identity.{new_session}
use rabaska.Handshake.Meeting.{first_meeting}
use rabaska.Tests.Toys.{toy_crc, toy_primitives, toy_deflate, toy_fountain, array}

abbrev phone : Session
phone = record {
  eph = key_pair (replicate 32 7);
  session_id = 1 ∷ 2 ∷ 3 ∷ 4 ∷ 5 ∷ 6 ∷ 7 ∷ 8 ∷ [];
  identity = none;
  r_nonce = replicate 16 5;
}

abbrev request : PairReq
request = record {
  flags = 0;
  session_id = 1 ∷ 2 ∷ 3 ∷ 4 ∷ 5 ∷ 6 ∷ 7 ∷ 8 ∷ [];
  r_eph_pub = replicate 32 7;
  id_hint = replicate 4 0;
  r_commit = ascii "rabaska/v2/commi";
}

-- The laptop as it starts, for want of a reply.
abbrev idle : Send
idle = record {
  tx =
      Tx.new (replicate 32 1) (replicate 24 3)
        (record {
          mode = pair;
          session_id = replicate 8 0;
          s_eph_pub = replicate 32 0;
          codec = default_codec;
          build_hash = replicate 8 0;
          frame_capacity = 0;
          sender_auth = false;
        })
        [];
  sas = none;
  pending = none;
}

abbrev laptop : Send
laptop =
    sent_or idle
      (reply_to request (replicate 32 9) (replicate 24 3) (10 ∷ 20 ∷ []) none none [] 1200)

abbrev showed : Result (Send × FrameOut) → Send × FrameOut
showed (ok p) = p
showed _ = (idle, record { robust = true; bytes = [] })

-- A beacon, then the reveal, then the release.
abbrev after_beacon : Send
after_beacon = (showed (next_frame laptop 1200)).0

abbrev confirmed : Send
confirmed = (release (accept_reveal after_beacon (reveal phone)).0).0

no_symbol_before_confirmation_example :
    Confirmed (remembered request (replicate 32 9)) confirmed.sas
unfolding reply_to next_frame accept_reveal release reveal derive_for_mode Tx.next_frame_at Tx.hold
    Tx.new Reveal.decode open_frame check_len Reveal.encode bytes_eq verify_commit Tx.release
    Tx.next_packets packets_per_frame
no_symbol_before_confirmation_example =
    no_symbol_before_confirmation request (replicate 32 9) (replicate 24 3) (10 ∷ 20 ∷ []) none []
      1200 laptop confirmed (showed (next_frame confirmed 1200)).0 1200
      (showed (next_frame confirmed 1200)).1 refl
      (releasing (revealing (reveal phone) (showing 1200 (start laptop) refl))) refl refl

abbrev a_session : Session
a_session = new_session none (replicate 32 7) (1 ∷ 2 ∷ 3 ∷ 4 ∷ 5 ∷ 6 ∷ 7 ∷ 8 ∷ []) (replicate 16 5)

first_meeting_example :
    (send : Send) × (send' : Send) × (frame : Bytes) × (digits : Bytes) × (r : Receive.Receive)
    × (result : Receive.IngestResult) × (reply
          (pair_req a_session)
          (replicate 32 9)
          (replicate 24 3)
          (10 ∷ 20 ∷ [])
          none
          none
          (replicate 8 1)
          1200
        ≡ returns send)
    × (next_frame send 1200 ≡ ok (send', record { robust = true; bytes = frame }))
    × (Receive.ingest (Receive.new a_session) frame ≡ (r, ok result))
    × (result.kind ≡ Receive.beacon)
    × (result.sas ≡ some digits)
    × (r.rx.key
        ≡ some (
            derive_pair sender
              (key_pair (replicate 32 9))
              a_session.eph.public
              (1 ∷ 2 ∷ 3 ∷ 4 ∷ 5 ∷ 6 ∷ 7 ∷ 8 ∷ [])))
    × ((accept_reveal send' (reveal a_session)).1 ≡ returns digits)
    × ((release send').1 ≡ throws unconfirmed)
    × ((release (accept_reveal send' (reveal a_session)).0).1 ≡ returns tt)
    × ((release (accept_reveal send' (reveal a_session)).0).0.tx.held ≡ false)
first_meeting_example =
    first_meeting none (replicate 32 7) (1 ∷ 2 ∷ 3 ∷ 4 ∷ 5 ∷ 6 ∷ 7 ∷ 8 ∷ []) (replicate 16 5)
      (replicate 32 9) (replicate 24 3) (10 ∷ 20 ∷ []) (replicate 8 1) 1200
      (array 8 (1 ∷ 2 ∷ 3 ∷ 4 ∷ 5 ∷ 6 ∷ 7 ∷ 8 ∷ []) refl) (array 16 (replicate 16 5) refl)
      (array 32 (replicate 32 7) refl) (array 32 (replicate 32 9) refl)
      (array 24 (replicate 24 3) refl) (array 8 (replicate 8 1) refl).1

abbrev a_config : Tx.TransmitConfig
a_config = record {
  mode = pair;
  session_id = phone.session_id;
  s_eph_pub = replicate 32 9;
  codec = default_codec;
  build_hash = replicate 8 0;
  frame_capacity = 1200;
  sender_auth = true;
}

a_config-IsUsable : IsUsable a_config
a_config-IsUsable = record {
  session_id = array 8 (1 ∷ 2 ∷ 3 ∷ 4 ∷ 5 ∷ 6 ∷ 7 ∷ 8 ∷ []) refl;
  s_eph_pub = array 32 (replicate 32 9) refl;
  build_hash = array 8 (replicate 8 0) refl;
  symbol_size_min = omega arith;
  symbol_size_max = omega arith;
  palette = omega arith;
  tile_px = omega arith;
}

sender_new-IsValid_example :
    IsValid (Tx.new (replicate 32 1) (replicate 24 3) a_config (10 ∷ 20 ∷ []))
sender_new-IsValid_example =
    sender_new-IsValid (replicate 32 1) (replicate 24 3) a_config (10 ∷ 20 ∷ []) a_config-IsUsable
      (array 24 (replicate 24 3) refl)
