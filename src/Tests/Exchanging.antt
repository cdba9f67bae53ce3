-- ===== src/Tests/Exchanging.antt =====
-- The theorem on the exchange after a first meeting, at three bytes.
use rabaska.Prelude.{
  ℕ, get_or, length, ◌⊎◌, some, ◌≡◌, ap, refl, inl, arith, true, false, [], replicate, none,
}
use rabaska.Prelude.Bytes.{Bytes, bytes_eq}
use rabaska.Error.{Result, ok}
use rabaska.Wire.Types.{pair}
use rabaska.Crypto.Keys.{encrypt}
use rabaska.Pipeline.Compress.{maybe_compress}
use rabaska.Pipeline.Transmitter as Tx
use rabaska.Pipeline.Transmitter.{Transmitter, unsent_beacon}
use rabaska.Pipeline.Transfer.{Recovers}
use rabaska.Pipeline.Transfer.Sending.{sent_object}
use rabaska.Handshake.{
  Session, Send, FrameOut, returns, cfg, pair_req, reply, next_frame, reveal, accept_reveal,
  release,
}
use rabaska.Handshake.Identity.{new_session}
use rabaska.Handshake.Meeting.{sender_key, fresh_tx, replied, reply_lem}
use rabaska.Handshake.Receive as Receive
use rabaska.Handshake.Receive.{Receive, IngestResult}
use rabaska.Handshake.Exchange.{IsFine, start, lost, seen, revealing, releasing}
use rabaska.Handshake.Delivery.{first_meeting_delivers}
use rabaska.Tests.Toys.{toy_crc, toy_primitives, toy_deflate, toy_fountain, array}
use rabaska.Tests.Fountains.{letters, an_id, toy-Recovers, toy-Completes}
use rabaska.Handshake.Watching.{watch}
use rabaska.Handshake.Arrival.{first_meeting_arrives}
use rabaska.Pipeline.Transfer.Completing.{Completes}
use rabaska.Pipeline.Receiver.{id_of}
use rabaska.Wire.Reveal
use rabaska.Wire.Frame.{open_frame, check_len}
use rabaska.Crypto.Human.{verify_commit}

abbrev reader : Session
reader = new_session none (replicate 32 7) an_id (replicate 16 5)

abbrev writer : Send
writer = replied reader (replicate 32 9) (replicate 24 3) letters (replicate 8 1) 1200

abbrev writer_tx : Transmitter
writer_tx = fresh_tx reader (replicate 32 9) (replicate 24 3) letters (replicate 8 1) 1200

abbrev writer_object : Bytes
writer_object =
    sent_object (sender_key reader (replicate 32 9) (replicate 24 3) letters (replicate 8 1) 1200)
      (replicate 24 3) (cfg pair an_id (replicate 32 9) (replicate 8 1) 1200 false) letters

writer-Recovers : Recovers writer_tx.beacon.oti writer_object writer_tx.packets
unfolding Tx.new cfg unsent_beacon encrypt maybe_compress
writer-Recovers =
    toy-Recovers writer_tx.beacon.oti writer_object (get_or writer_tx.packets 0 [])
      (get_or writer_tx.packets 1 []) refl refl

writer-Completes : Completes writer_tx.beacon.oti writer_object writer_tx.packets
unfolding Tx.new cfg unsent_beacon encrypt maybe_compress
writer-Completes =
    toy-Completes writer_tx.beacon.oti writer_object (get_or writer_tx.packets 0 [])
      (get_or writer_tx.packets 1 []) refl refl (omega arith) (omega arith) (λ e. apart e)
  where
    apart : id_of (get_or writer_tx.packets 0 []) ≡ id_of (get_or writer_tx.packets 1 []) → ⊥
    apart e = let zero_one : ◌≡◌ {A = ℕ} 0 1 = ap (λ l. get_or l 0 0) e in absurd (omega arith)

writer_replies :
    reply (pair_req reader) (replicate 32 9) (replicate 24 3) letters none none (replicate 8 1) 1200
    ≡ returns writer
unfolding new_session
writer_replies =
    reply_lem reader (replicate 32 9) (replicate 24 3) letters (replicate 8 1) 1200 (record {
      session_id = array 8 an_id refl;
      public = array 32 (replicate 32 7) refl;
      r_nonce = array 16 (replicate 16 5) refl;
    })

abbrev shown_or : Send → Result (Send × FrameOut) → Send × FrameOut
shown_or send (ok p) = p
shown_or send _ = (send, record { robust = true; bytes = [] })

-- The first frame is seen, the reveal is scanned, and the release asked for.
abbrev after_one : Send
after_one = (shown_or writer (next_frame writer 1200)).0

abbrev released : Send
released = (release (accept_reveal after_one (reveal reader)).0).0

abbrev met : Receive
met = (Receive.ingest (Receive.new reader) (shown_or writer (next_frame writer 1200)).1.bytes).0

writer_shows : next_frame writer 1200 ≡ ok (shown_or writer (next_frame writer 1200))
unfolding next_frame Tx.next_frame_at Tx.hold Tx.new
writer_shows = refl

first_meeting_delivers_example :
    (send' : Send) × (f : FrameOut) × (result : IngestResult) × (next_frame released 1200
      ≡ ok (send', f))
    × ((Receive.ingest met f.bytes).1 ≡ ok result)
    × IsFine letters result.kind result.payload
first_meeting_delivers_example =
    first_meeting_delivers none (replicate 32 7) an_id (replicate 16 5) (replicate 32 9)
      (replicate 24 3) letters (replicate 8 1) 1200 1200 writer released met (array 8 an_id refl)
      (array 16 (replicate 16 5) refl) (array 32 (replicate 32 7) refl)
      (array 32 (replicate 32 9) refl) (array 24 (replicate 24 3) refl)
      (array 8 (replicate 8 1) refl).1 (omega arith) (inl (omega arith)) writer-Recovers
      writer_replies (releasing (revealing (reveal reader) (seen 1200 start writer_shows)))

released_free : released.tx.held ≡ false
unfolding next_frame Tx.next_frame_at Tx.hold Tx.new accept_reveal release reveal Tx.release
    bytes_eq Reveal.decode Reveal.encode open_frame check_len verify_commit new_session
released_free = refl

two_packets : length writer_tx.packets ≡ 2
unfolding Tx.new
two_packets = refl

-- The first frame is lost: the receiver puts packets aside until the beacon's turn comes.
first_meeting_arrives_example :
    ((Receive.new reader).rx.done ≡ true)
    ⊎ (watch (replicate 23 1200) released (Receive.new reader) ≡ some letters)
first_meeting_arrives_example =
    first_meeting_arrives none (replicate 32 7) an_id (replicate 16 5) (replicate 32 9)
      (replicate 24 3) letters (replicate 8 1) 1200 (replicate 23 1200) writer released
      (Receive.new reader) (array 8 an_id refl) (array 16 (replicate 16 5) refl)
      (array 32 (replicate 32 7) refl) (array 32 (replicate 32 9) refl)
      (array 24 (replicate 24 3) refl) (array 8 (replicate 8 1) refl).1 (omega arith)
      (inl (omega arith)) writer-Recovers writer-Completes writer_replies
      (releasing (revealing (reveal reader) (lost 1200 start writer_shows))) released_free
      (omega (arith, two_packets))
