-- ===== src/Handshake/Exchange/Keeps.antt =====
-- core/src/wasm.rs: along an exchange, the receiver follows the sender and fails nowhere.
use rabaska.Prelude.{
  Option, ℕ, ◌≡◌, ◌⊎◌, inl, inr, refl, sym, ap, subst, ◌∙◌, none, some, true, false, List, arith,
}
use rabaska.Prelude.Bytes.{Bytes}
use rabaska.Error.{Result, ok, err, panic}
use rabaska.Wire.Frame.{Crc}
use rabaska.Wire.Beacon.{Beacon}
use rabaska.Crypto.Primitives.{Primitives}
use rabaska.Crypto.Keys.{receiver, derive_for_mode}
use rabaska.Pipeline.Services.{Deflate, Fountain}
use rabaska.Pipeline.Receiver as Rx
use rabaska.Pipeline.Receiver.{Receiver}
use rabaska.Pipeline.Transfer.{Offers, Tracks, IsGood, IsFrameOf}
use rabaska.Pipeline.Transfer.Frames.{set_key-Tracks, ingest-Continues}
use rabaska.Handshake.{Session, Send, FrameOut, next_frame}
use rabaska.Handshake.Receive as Receive
use rabaska.Handshake.Receive.{
  Receive, IngestResult, Kind, ignored, beacon, progress, finished, error, gives, derive_from,
  derive_and_set, acquired, reported,
}
use rabaska.Handshake.Exchange.{
  Shares, IsOf, IsFine, Exchange, start, lost, seen, revealing, releasing, Streams,
  accept_reveal_keeps, release_keeps, next_frame_shows, shown_by,
}

module _ ⦃crc : Crc⦄ ⦃prim : Primitives⦄ ⦃deflate : Deflate⦄ ⦃fountain : Fountain⦄ where
  module _ (s : Session) (peer : Option Bytes) (b : Beacon) (pool : List Bytes)
      (key payload : Bytes) where
    -- The sender at work on the payload, and the receiver that has seen nothing of another sender.
    pub record IsExchange (send : Send) (r : Receive) : Type 0 where
      pub tx : Streams b pool payload send.tx
      pub rx : Tracks b pool key r.rx
      pub own : IsOf s peer r
      pub stage : ((r.keyed ≡ false) × (r.rx.beacon ≡ none)) ⊎ (r.rx.beacon ≡ some b)

    module _ (shares : Shares s peer b key) (offer : Offers b pool key payload) where
      -- What a frame of the sender does to the receiver.
      abbrev Hears : Receive × Result IngestResult → Type 0
      Hears x =
          ((result : IngestResult) × (x.1 ≡ ok result) × IsFine payload result.kind result.payload)
          × Tracks b pool key x.0.rx
          × IsOf s peer x.0
          × (((x.0.keyed ≡ false) × (x.0.rx.beacon ≡ none)) ⊎ (x.0.rx.beacon ≡ some b))

      -- The receiver that has derived the key, and what it tells.
      abbrev pub keyed_at : Receive → Receive
      keyed_at r = record r { rx = Rx.set_key r.rx key; keyed = true }

      abbrev pub told : Receive → IngestResult
      told r = record {
        kind = beacon;
        received = r.rx.received;
        needed = r.rx.needed;
        payload = none;
        sas = Receive.digits_for b r.session;
      }

      pub keyed_step :
          (r : Receive)
          → IsOf s peer r
          → r.keyed ≡ false
          → r.rx.beacon ≡ some b
          → acquired (derive_and_set r) ≡ (keyed_at r, ok (told r))
      unfolding derive_and_set derive_from acquired Rx.set_key
      keyed_step r own fresh present =
          let mine : Receive.own_key b.mode r.session ≡ gives shares.own =
            ap (Receive.own_key b.mode) own.0 ∙ shares.own_key in
          let shared : derive_for_mode b.mode receiver shares.own r.session.identity
                (record { eph_pub = b.s_eph_pub; id_pub = r.peer_identity }) b.session_id
              ≡ ok key =
            (λ i.
              derive_for_mode b.mode receiver shares.own (own.0 i).identity
                (record { eph_pub = b.s_eph_pub; id_pub = own.1 i }) b.session_id)
            ∙ shares.derives in
          let derived : derive_from r b ≡ (keyed_at r, gives (Receive.digits_for b r.session)) =
            rw (derive_from, mine, shared) refl in
          let step : derive_and_set r ≡ derive_from r b = ground arith in
          ap acquired (step ∙ derived)

      keyed_lem :
          (r : Receive)
          → IsOf s peer r
          → r.keyed ≡ false
          → r.rx.beacon ≡ some b
          → Tracks b pool key r.rx
          → Hears (acquired (derive_and_set r))
      unfolding Rx.set_key
      keyed_lem r own fresh present tracks =
          subst Hears (sym (keyed_step r own fresh present))
            ((told r, refl, tt), set_key-Tracks b pool key payload r.rx tracks, own, inr present)

      reported_lem :
          (r : Receive) (rx : Receiver) (what : Rx.Ingest)
          → IsOf s peer r
          → ((r.keyed ≡ false) × (r.rx.beacon ≡ none)) ⊎ (r.rx.beacon ≡ some b)
          → Tracks b pool key rx
          → IsGood b payload r.rx rx (ok what)
          → Hears (reported (record r { rx = rx }) what)
      unfolding reported
      reported_lem r rx Rx.beacon_acquired own stage tracks (new, present) = elim stage [
        | inl (fresh, _) ↦ keyed_lem (record r { rx = rx }) own fresh present tracks
        | inr old ↦ absurd (ground arith)
      ]
      reported_lem r rx (Rx.progress n m) own stage tracks same = (
        (
          record { kind = progress; received = n; needed = m; payload = none; sas = none },
          refl,
          tt,
        ),
        tracks,
        own,
        subst (λ o. ((r.keyed ≡ false) × (o ≡ none)) ⊎ (o ≡ some b)) (sym same) stage,
      )
      reported_lem r rx Rx.ignored own stage tracks same = (
        (record { kind = ignored; received = 0; needed = 0; payload = none; sas = none }, refl, tt),
        tracks,
        own,
        subst (λ o. ((r.keyed ≡ false) × (o ≡ none)) ⊎ (o ≡ some b)) (sym same) stage,
      )
      reported_lem r rx (Rx.done plaintext) own stage tracks (same, present) = (
        (
          record {
            kind = finished;
            received = rx.received;
            needed = rx.needed;
            payload = some plaintext;
            sas = none;
          },
          refl,
          ap some same,
        ),
        tracks,
        own,
        inr present,
      )

      ingest_lem :
          (r : Receive) (frame : Bytes)
          → IsOf s peer r
          → ((r.keyed ≡ false) × (r.rx.beacon ≡ none)) ⊎ (r.rx.beacon ≡ some b)
          → Tracks b pool key r.rx
          → IsFrameOf b pool frame
          → Hears (Receive.ingest r frame)
      unfolding Receive.ingest
      ingest_lem r frame own stage tracks which =
          handled (Rx.ingest r.rx frame).1 refl
            (ingest-Continues b pool key payload offer r.rx frame tracks which).1
        where
          handled :
              (o : Result Rx.Ingest)
              → (Rx.ingest r.rx frame).1 ≡ o
              → IsGood b payload r.rx (Rx.ingest r.rx frame).0 o
              → Hears (Receive.ingest r frame)
          handled (ok what) e good =
              let r' : Receive = record r { rx = (Rx.ingest r.rx frame).0 } in
              let step : Receive.ingest r frame ≡ reported r' what = ground arith in
              subst Hears (sym step) (
                reported_lem r (Rx.ingest r.rx frame).0 what own stage
                  (ingest-Continues b pool key payload offer r.rx frame tracks which).0 good)
          handled (err e') e good = absurd good
          handled panic e good = absurd good

      -- The invariant along the exchange.
      exchange-IsExchange :
          (send₀ : Send) (r₀ : Receive) (send : Send) (r : Receive)
          → IsExchange send₀ r₀
          → Exchange send₀ r₀ send r
          → IsExchange send r
      exchange-IsExchange send₀ r₀ _ _ x start = x
      exchange-IsExchange send₀ r₀ _ r x
            (lost {send = send} {send' = send'} {f = f} capacity before shows) =
          let y = exchange-IsExchange send₀ r₀ send r x before in
          record {
            tx = (shown_by b pool payload send send' f capacity y.tx shows).0;
            rx = y.rx;
            own = y.own;
            stage = y.stage;
          }
      exchange-IsExchange send₀ r₀ _ _ x
            (seen {send = send} {send' = send'} {r = r} {f = f} capacity before shows) =
          let y = exchange-IsExchange send₀ r₀ send r x before in
          let (sends, which) = shown_by b pool payload send send' f capacity y.tx shows in
          let (_, tracks, own, stage) = ingest_lem r f.bytes y.own y.stage y.rx which in
          record { tx = sends; rx = tracks; own = own; stage = stage }
      exchange-IsExchange send₀ r₀ _ _ x (revealing {send = send} {r = r} frame before) =
          let y = exchange-IsExchange send₀ r₀ send r x before in
          record {
            tx = accept_reveal_keeps b pool payload send frame y.tx;
            rx = y.rx;
            own = y.own;
            stage = y.stage;
          }
      exchange-IsExchange send₀ r₀ _ _ x (releasing {send = send} {r = r} before) =
          let y = exchange-IsExchange send₀ r₀ send r x before in
          record {
            tx = release_keeps b pool payload send y.tx;
            rx = y.rx;
            own = y.own;
            stage = y.stage;
          }

      -- Wherever the exchange got, the sender shows a frame, and the receiver takes it.
      pub exchange_lem :
          (send₀ : Send) (r₀ : Receive) (send : Send) (r : Receive) (capacity : ℕ)
          → IsExchange send₀ r₀
          → Exchange send₀ r₀ send r
          → (send' : Send) × (f : FrameOut) × (result : IngestResult) × (next_frame send capacity
              ≡ ok (send', f))
            × ((Receive.ingest r f.bytes).1 ≡ ok result)
            × IsFine payload result.kind result.payload
      exchange_lem send₀ r₀ send r capacity x steps =
          let y = exchange-IsExchange send₀ r₀ send r x steps in
          let (send', f, run, _, which) = next_frame_shows b pool payload send capacity y.tx in
          let ((result, taken, fine), _, _, _) = ingest_lem r f.bytes y.own y.stage y.rx which in
          (send', f, result, run, taken, fine)
