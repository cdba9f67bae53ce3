-- ===== src/Harness/Delivers.antt =====
-- harness/src/main.rs: over a channel that loses nothing, `run` delivers the payload.
use rabaska.Prelude.{
  ℕ, suc, ◌+◌, ◌-◌, ◌*◌, ◌%◌, ◌^◌, ◌≡◌, ◌≢◌, ◌≤◌, ◌<◌, ◌⊎◌, max, inl, inr, refl, sym, ap, subst,
  ◌∙◌, none, some, true, false, ◌||◌, List, length, ◌==◌, arith,
}
use rabaska.Prelude.Bytes.{Bytes, IsArray}
use rabaska.Error.{ok}
use rabaska.Floats.{Floats}
use rabaska.Wire.Types.{Mode}
use rabaska.Wire.Frame.{Crc}
use rabaska.Wire.Beacon
use rabaska.Wire.Beacon.{Beacon}
use rabaska.Wire.Beacon.RoundTrip as BeaconTrip
use rabaska.Wire.Symbol.{packets_per_frame}
use rabaska.Crypto.Primitives.{Primitives}
use rabaska.Pipeline.Services.{Deflate, Fountain}
use rabaska.Pipeline.Compress.{maybe_compress, inflate_limit}
use rabaska.Pipeline.Transmitter as Tx
use rabaska.Pipeline.Transmitter.{beacon_frame, frame_bytes, next_frame_at}
use rabaska.Pipeline.Transmitter.Validity.{wrap, beacon_step}
use rabaska.Pipeline.Receiver as Rx
use rabaska.Pipeline.Receiver.{
  Receiver, beacon_acquired, set_key, ingest, ingest_beacon, symbols_needed, open_object,
}
use rabaska.Pipeline.Transfer.{Recovers, Offers}
use rabaska.Pipeline.Transfer.Frames.{started, ingest_first_beacon}
use rabaska.Pipeline.Transfer.Completing.{Completes}
use rabaska.Pipeline.Transfer.Showing.{Works}
use rabaska.Pipeline.Transfer.Sending.{Sends, sent_object, wrap-Sends, new-Sends, new_opens}
use rabaska.Harness.{
  Rung, Lighting, Outcome, delivered, payload_differs, hash_mismatch, did_not_converge,
  frame_failed, completion_failed, panicked, World, goes_on, peers_from, keys_for, config_for,
  schedule_of, receive, round, rounds_from, next_f64, run,
}
use rabaska.Harness.Keys.{keys_for_agree}
use rabaska.Harness.Rounds.{IsSafe, get_elem?-some}
use rabaska.Harness.Run.{run_tx, config_for-IsUsable, run-IsSafe}
use rabaska.Harness.Lossless.{IsLossless, IsAt, show_read}
use rabaska.Harness.Converges.{rounds_from-ne}

module _ ⦃crc : Crc⦄ ⦃prim : Primitives⦄ ⦃deflate : Deflate⦄ ⦃fountain : Fountain⦄ ⦃f : Floats⦄
    (b : Beacon) (pool : List Bytes) (key payload : Bytes) (offer : Offers b pool key payload)
    (law : Completes b.oti offer.object pool) where
  -- Before the first frame.
  record IsFresh (w : World) : Type 0 where
    pub tx : Sends b pool payload w.tx
    pub held : w.tx.held ≡ false
    pub interval : w.tx.beacon_interval ≡ 15
    pub frame_id : w.tx.frame_id ≡ 0
    pub cursor : w.tx.cursor ≡ 0
    pub rx : w.rx ≡ Rx.new
    pub given : w.key ≡ some key

  started-Works : Works b pool key payload offer law (set_key (started b) key)
  unfolding set_key
  started-Works = record {
    collects = record {
      beacon = refl;
      keyed = refl;
      decoder = refl;
      from = tt;
      ids = refl;
      unfinished = inl refl;
    };
    pending = tt;
    not_done = refl;
  }

  module _ (schedule : List Rung) (light : Lighting) (pos : 0 < length schedule)
      (clear : IsLossless light) where
    -- The first frame is the beacon, and with it the receiver has its key.
    first_round :
        (w : World)
        → IsFresh w
        → (w' : World) × (round schedule light payload 0 w ≡ goes_on w')
          × IsAt b pool key payload offer law 1 0 w'
    unfolding round next_frame_at frame_bytes receive wrap
    first_round w fresh =
        let (rung, found) = get_elem?-some schedule (0 % length schedule) (omega arith) in
        let s = fresh.tx in
        let n = max (packets_per_frame rung.capacity w.tx.packet_len) 1 in
        let due : (w.tx.held || w.tx.frame_id % w.tx.beacon_interval == 0) ≡ true =
          rw (fresh.held, fresh.frame_id, fresh.interval) refl in
        let sent = beacon_step w.tx n s.valid due in
        let w1 : World = record w { tx = wrap w.tx } in
        let frame = w.tx.beacon_bytes in
        let read : Beacon.decode frame ≡ ok b =
          ap Beacon.decode s.valid.beacon_bytes
          ∙ BeaconTrip.decode-encode w.tx.beacon s.valid.beacon
          ∙ ap ok s.beacon in
        let shown = show_read light w1 0 payload rung (beacon_frame frame) clear in
        let heard : ingest w.rx frame ≡ (started b, ok beacon_acquired) =
          ap (λ r. ingest r frame) fresh.rx ∙ ingest_first_beacon b frame read in
        let w2 : World = record w1 { rng = (next_f64 w.rng).0 } in
        let kept = fresh.given in
        let taken : receive w2 0 payload (started b, ok beacon_acquired)
            ≡ goes_on (record w2 { rx = set_key (started b) key; key = none }) =
          ground arith in
        let w3 : World = record w2 { rx = set_key (started b) key; key = none } in
        let at : IsAt b pool key payload offer law 1 0 w3 = record {
          tx = wrap-Sends b pool payload w.tx s;
          held = fresh.held;
          interval = fresh.interval;
          frame_id = ap (λ m. (m + 1) % 256 ^ 4) fresh.frame_id;
          cursor = fresh.cursor;
          rx = started-Works;
          known = λ i lt inside. absurd (omega arith);
        } in
        (w3, rw (round, found, sent) (shown ∙ ap (receive w2 0 payload) heard ∙ taken), at)

    start-ne :
        (rounds : ℕ) (w : World)
        → IsFresh w
        → 2 * (length pool - 0) ≤ rounds
        → 1 + rounds < 256 ^ 4
        → rounds_from schedule light payload (suc rounds) 0 w ≢ did_not_converge
    unfolding rounds_from
    start-ne rounds w fresh enough small =
        let (w', first, at) = first_round w fresh in
        let step : rounds_from schedule light payload (suc rounds) 0 w
            ≡ rounds_from schedule light payload rounds 1 w' =
          rw (rounds_from, first) in
        subst (λ x. x ≢ did_not_converge) (sym step)
          (rounds_from-ne b pool key payload offer law schedule light pos clear rounds 1 0 w' at
            small (inr (enough, λ e. omega arith)))

module _ ⦃crc : Crc⦄ ⦃prim : Primitives⦄ ⦃deflate : Deflate⦄ ⦃fountain : Fountain⦄
    ⦃f : Floats⦄ where
  IsSafe-delivered :
      (limit : ℕ) (o : Outcome)
      → IsSafe limit o
      → o ≢ did_not_converge
      → (n : ℕ) × (n ≤ limit) × (o ≡ delivered n (f.div (f.of_nat n) (f.of_nat 30)))
  IsSafe-delivered limit (delivered n seconds) (le, same) ne = (n, le, ap (delivered n) same)
  IsSafe-delivered limit did_not_converge h ne = absurd (ne refl)
  IsSafe-delivered limit payload_differs h ne = absurd h
  IsSafe-delivered limit hash_mismatch h ne = absurd h
  IsSafe-delivered limit (frame_failed i e) h ne = absurd h
  IsSafe-delivered limit (completion_failed e) h ne = absurd h
  IsSafe-delivered limit panicked h ne = absurd h

  -- Over a channel on which every frame is read, a run ends with the payload at the receiver after at most
  -- 400000 frames, in the time that these take, in every mode, whatever the ladder and the seed. The ladder has a
  -- rung with a weight, the payload is shorter than 4 GiB and, where it is compressed, at most 64 MiB long, the
  -- keys and the nonce have their lengths, the fountain code makes fewer than 200000 packets, its decoder makes
  -- the object that is sent or nothing, and makes it when it has had all the packets, and these have identifiers
  -- of four bytes that tell them apart.
  pub run-delivered :
      (mode : Mode) (s_eph s_id r_eph r_id sid nonce payload : Bytes) (ladder : List Rung)
      (light : Lighting) (seed : ℕ)
      → let p = peers_from s_eph s_id r_eph r_id sid in
        let tx = run_tx mode p nonce payload in
        let object = sent_object (keys_for mode p).0 nonce (config_for mode p) payload in
        IsArray 8 sid
        → IsArray 32 (prim.public_key s_eph)
        → IsArray 24 nonce
        → length payload < 256 ^ 4
        → (length payload ≤ inflate_limit) ⊎ ((maybe_compress payload).1 ≡ false)
        → 0 < length (schedule_of ladder)
        → Recovers tx.beacon.oti object tx.packets
        → Completes tx.beacon.oti object tx.packets
        → 2 * length tx.packets < 400_000
        → IsLossless light
        → (n : ℕ) × (n ≤ 400_000)
          × (run mode p nonce payload ladder light seed
              ≡ delivered n (f.div (f.of_nat n) (f.of_nat 30)))
  unfolding run peers_from Rx.new Tx.new
  run-delivered mode s_eph s_id r_eph r_id sid nonce payload ladder light seed hs hp hn lt fits pos
        law all short clear =
      let p = peers_from s_eph s_id r_eph r_id sid in
      let (ks, kr) = keys_for mode p in
      let tx = run_tx mode p nonce payload in
      let usable = config_for-IsUsable mode p hs hp in
      let agree = keys_for_agree mode s_eph s_id r_eph r_id sid in
      let cfg = config_for mode p in
      let object = sent_object ks nonce cfg payload in
      let offer : Offers tx.beacon tx.packets kr payload = record {
        object = object;
        opens =
            subst (λ k. open_object tx.beacon k object ≡ ok payload) agree
              (new_opens ks nonce cfg payload lt fits);
        recovers = law;
      } in
      let w : World = record { tx = tx; rx = Rx.new; key = some kr; rng = seed } in
      let fresh : IsFresh tx.beacon tx.packets kr payload offer all w = record {
        tx = new-Sends ks nonce cfg payload usable hn;
        held = refl;
        interval = refl;
        frame_id = refl;
        cursor = refl;
        rx = refl;
        given = refl;
      } in
      let safe =
        run-IsSafe mode s_eph s_id r_eph r_id sid nonce payload ladder light seed hs hp hn lt fits
          pos law in
      IsSafe-delivered 400_000 (run mode p nonce payload ladder light seed) safe (
        start-ne tx.beacon tx.packets kr payload offer all (schedule_of ladder) light pos clear
          399_999 w fresh (omega arith) (omega arith))
