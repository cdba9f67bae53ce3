-- ===== src/Tests/Modes.antt =====
-- The theorems on the other modes, at three bytes.
use rabaska.Prelude.{
  ℕ, get_or, length, ◌⊎◌, some, none, ◌≡◌, ap, refl, inl, arith, true, [], replicate,
}
use rabaska.Prelude.Bytes.{Bytes, bytes_eq}
use rabaska.Wire.Types.{session, seal}
use rabaska.Wire.PairReq
use rabaska.Wire.Frame.{open_frame, check_len}
use rabaska.Crypto.Human.{id_hint, commit}
use rabaska.Crypto.Keys.{key_pair, seal_sender, encrypt, derive_for_mode}
use rabaska.Pipeline.Compress.{maybe_compress}
use rabaska.Pipeline.Transmitter as Tx
use rabaska.Pipeline.Transmitter.{Transmitter, TransmitConfig, unsent_beacon}
use rabaska.Pipeline.Receiver.{id_of}
use rabaska.Pipeline.Transfer.{Recovers}
use rabaska.Pipeline.Transfer.Completing.{Completes}
use rabaska.Pipeline.Transfer.Sending.{sent_object}
use rabaska.Handshake.{
  Session, Send, returns, cfg, pair_req, reply, reply_to, seal_to, is_some, key_or_none,
}
use rabaska.Handshake.Identity.{new_session}
use rabaska.Handshake.Exchange.{start}
use rabaska.Handshake.Watching.{watch}
use rabaska.Handshake.Arrival.{told_of}
use rabaska.Handshake.Arrival.OneWay.{sealed_arrives}
use rabaska.Handshake.Arrival.Known.{known_key, known_arrives}
use rabaska.Tests.Toys.{toy_crc, toy_primitives, toy_deflate, toy_fountain, array}
use rabaska.Tests.Fountains.{letters, an_id, toy-Recovers, toy-Completes}

-- A receiver with an identity.
abbrev at_home : Session
at_home =
    new_session (some (record { inner = key_pair (replicate 32 8) })) (replicate 32 7) an_id
      (replicate 16 5)

abbrev sealed_key : Bytes
sealed_key =
    seal_sender (key_pair (replicate 32 9)) (some (key_pair (replicate 32 6)))
      (toy_primitives.public_key (replicate 32 8))

abbrev sealed_config : TransmitConfig
sealed_config =
    cfg seal an_id (toy_primitives.public_key (replicate 32 9)) (replicate 8 1) 1200 true

abbrev sealed_tx : Transmitter
sealed_tx = Tx.new sealed_key (replicate 24 3) sealed_config letters

abbrev sealed_object : Bytes
sealed_object = sent_object sealed_key (replicate 24 3) sealed_config letters

sealed-Recovers : Recovers sealed_tx.beacon.oti sealed_object sealed_tx.packets
unfolding Tx.new cfg unsent_beacon encrypt maybe_compress
sealed-Recovers =
    toy-Recovers sealed_tx.beacon.oti sealed_object (get_or sealed_tx.packets 0 [])
      (get_or sealed_tx.packets 1 []) refl refl

sealed-Completes : Completes sealed_tx.beacon.oti sealed_object sealed_tx.packets
unfolding Tx.new cfg unsent_beacon encrypt maybe_compress
sealed-Completes =
    toy-Completes sealed_tx.beacon.oti sealed_object (get_or sealed_tx.packets 0 [])
      (get_or sealed_tx.packets 1 []) refl refl (omega arith) (omega arith) (λ e. apart e)
  where
    apart : id_of (get_or sealed_tx.packets 0 []) ≡ id_of (get_or sealed_tx.packets 1 []) → ⊥
    apart e = let zero_one : ◌≡◌ {A = ℕ} 0 1 = ap (λ l. get_or l 0 0) e in absurd (omega arith)

sealed_packets : length sealed_tx.packets ≡ 2
unfolding Tx.new
sealed_packets = refl

abbrev sealed_send : Send
sealed_send = record { tx = sealed_tx; sas = none; pending = none }

sealed_made :
    seal_to
      (toy_primitives.public_key (replicate 32 8))
      (replicate 32 9)
      (replicate 24 3)
      an_id
      letters
      (some (key_pair (replicate 32 6)))
      (replicate 8 1)
      1200
    ≡ returns sealed_send
unfolding seal_to
sealed_made = refl

sealed_arrives_example :
    ((told_of at_home (some (replicate 32 6))).rx.done ≡ true)
    ⊎ (watch (replicate 23 1200) sealed_send (told_of at_home (some (replicate 32 6)))
        ≡ some letters)
unfolding new_session is_some
sealed_arrives_example =
    sealed_arrives at_home (replicate 32 9) (replicate 32 8) an_id (replicate 24 3) letters
      (replicate 8 1) (some (replicate 32 6)) 1200 (replicate 23 1200) sealed_send sealed_send
      (told_of at_home (some (replicate 32 6))) refl (array 8 an_id refl)
      (array 32 (replicate 32 9) refl) (array 24 (replicate 24 3) refl)
      (array 8 (replicate 8 1) refl).1 (omega arith) (inl (omega arith)) sealed-Recovers
      sealed-Completes sealed_made start (omega (arith, sealed_packets))

abbrev friend_key : Bytes
friend_key = known_key (replicate 32 9) (replicate 32 6) (replicate 32 7) (replicate 32 8) an_id

abbrev friend_config : TransmitConfig
friend_config =
    cfg session an_id (toy_primitives.public_key (replicate 32 9)) (replicate 8 1) 1200 true

abbrev friend_tx : Transmitter
friend_tx = Tx.new friend_key (replicate 24 3) friend_config letters

abbrev friend_object : Bytes
friend_object = sent_object friend_key (replicate 24 3) friend_config letters

friend-Recovers : Recovers friend_tx.beacon.oti friend_object friend_tx.packets
unfolding Tx.new cfg unsent_beacon encrypt maybe_compress
friend-Recovers =
    toy-Recovers friend_tx.beacon.oti friend_object (get_or friend_tx.packets 0 [])
      (get_or friend_tx.packets 1 []) refl refl

friend-Completes : Completes friend_tx.beacon.oti friend_object friend_tx.packets
unfolding Tx.new cfg unsent_beacon encrypt maybe_compress
friend-Completes =
    toy-Completes friend_tx.beacon.oti friend_object (get_or friend_tx.packets 0 [])
      (get_or friend_tx.packets 1 []) refl refl (omega arith) (omega arith) (λ e. apart e)
  where
    apart : id_of (get_or friend_tx.packets 0 []) ≡ id_of (get_or friend_tx.packets 1 []) → ⊥
    apart e = let zero_one : ◌≡◌ {A = ℕ} 0 1 = ap (λ l. get_or l 0 0) e in absurd (omega arith)

friend_packets : length friend_tx.packets ≡ 2
unfolding Tx.new
friend_packets = refl

abbrev friend_send : Send
friend_send = record { tx = friend_tx; sas = none; pending = none }

friend_replies :
    reply
      (pair_req at_home)
      (replicate 32 9)
      (replicate 24 3)
      letters
      (some (replicate 32 6))
      (some (toy_primitives.public_key (replicate 32 8)))
      (replicate 8 1)
      1200
    ≡ returns friend_send
unfolding new_session reply PairReq.decode open_frame check_len pair_req PairReq.encode id_hint
    commit bytes_eq key_or_none reply_to derive_for_mode
friend_replies = refl

known_arrives_example :
    ((told_of at_home (some (replicate 32 6))).rx.done ≡ true)
    ⊎ (watch (replicate 23 1200) friend_send (told_of at_home (some (replicate 32 6)))
        ≡ some letters)
known_arrives_example =
    known_arrives (replicate 32 9) (replicate 32 6) (replicate 32 7) (replicate 32 8) an_id
      (replicate 16 5) (replicate 24 3) letters (replicate 8 1) 1200 (replicate 23 1200) friend_send
      friend_send (told_of at_home (some (replicate 32 6))) (array 8 an_id refl)
      (array 16 (replicate 16 5) refl) (array 32 (replicate 32 7) refl)
      (array 32 (replicate 32 8) refl) (array 32 (replicate 32 9) refl)
      (array 24 (replicate 24 3) refl) (array 8 (replicate 8 1) refl).1 (omega arith)
      (inl (omega arith)) friend-Recovers friend-Completes friend_replies start
      (omega (arith, friend_packets))
