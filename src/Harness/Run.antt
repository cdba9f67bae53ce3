-- ===== src/Harness/Run.antt =====
-- harness/src/main.rs: `run` delivers the payload or does not converge, in every mode and whatever is lost.
use rabaska.Prelude.{ℕ, ◌≡◌, ◌≤◌, ◌<◌, ◌^◌, ◌⊎◌, inl, refl, subst, some, false, List, length, arith}
use rabaska.Prelude.Bytes.{Bytes, IsArray, slice-IsArray}
use rabaska.Floats.{Floats}
use rabaska.Wire.Types.{Mode}
use rabaska.Wire.Frame.{Crc}
use rabaska.Crypto.Primitives.{Primitives}
use rabaska.Crypto.Human.{build_hash}
use rabaska.Pipeline.Services.{Deflate, Fountain}
use rabaska.Pipeline.Compress.{maybe_compress, inflate_limit}
use rabaska.Pipeline.Transmitter.{Transmitter}
use rabaska.Pipeline.Transmitter as Tx
use rabaska.Pipeline.Transmitter.Start.{IsUsable}
use rabaska.Pipeline.Receiver as Rx
use rabaska.Pipeline.Transfer.{Recovers, Offers}
use rabaska.Pipeline.Transfer.Frames.{new-Tracks}
use rabaska.Pipeline.Transfer.Sending.{sent_object, new-Sends, new-Offers}
use rabaska.Harness.{
  Rung, Peers, peers_from, keys_for, config_for, schedule_of, Lighting, World, run,
}
use rabaska.Harness.Keys.{keys_for_agree}
use rabaska.Harness.Rounds.{IsSafe, IsSound, rounds_from-IsSafe}

module _ ⦃crc : Crc⦄ ⦃prim : Primitives⦄ ⦃deflate : Deflate⦄ ⦃fountain : Fountain⦄
    ⦃f : Floats⦄ where
  -- The transmitter of a run.
  abbrev pub run_tx : Mode → Peers → Bytes → Bytes → Transmitter
  run_tx mode p nonce payload = Tx.new (keys_for mode p).0 nonce (config_for mode p) payload

  pub config_for-IsUsable :
      (mode : Mode) (p : Peers)
      → IsArray 8 p.sid
      → IsArray 32 p.s_eph.public
      → IsUsable (config_for mode p)
  unfolding config_for build_hash
  config_for-IsUsable mode p hs hp =
      let digest = prim.sha256-IsArray _ in
      record {
        session_id = hs;
        s_eph_pub = hp;
        build_hash = slice-IsArray 0 8 (prim.sha256 _) digest.1 (omega arith);
        symbol_size_min = omega arith;
        symbol_size_max = omega arith;
        palette = omega arith;
        tile_px = omega arith;
      }

  -- A run ends with the payload at the receiver after at most 400000 frames, in the time that these take, or it
  -- does not converge, in every mode, whatever the ladder, the lighting and the draws: it does not panic,
  -- no frame is refused, and neither the payload nor the confirmation differs. The ladder has a rung with a
  -- weight, the payload is shorter than 4 GiB and, where it is compressed, at most 64 MiB long, the keys and the
  -- nonce have their lengths, and the fountain code's decoder makes the object that is sent or nothing.
  pub run-IsSafe :
      (mode : Mode) (s_eph s_id r_eph r_id sid nonce payload : Bytes) (ladder : List Rung)
      (light : Lighting) (seed : ℕ)
      → let p = peers_from s_eph s_id r_eph r_id sid in
        IsArray 8 sid
        → IsArray 32 (prim.public_key s_eph)
        → IsArray 24 nonce
        → length payload < 256 ^ 4
        → (length payload ≤ inflate_limit) ⊎ ((maybe_compress payload).1 ≡ false)
        → 0 < length (schedule_of ladder)
        → Recovers
            (run_tx mode p nonce payload).beacon.oti
            (sent_object (keys_for mode p).0 nonce (config_for mode p) payload)
            (run_tx mode p nonce payload).packets
        → IsSafe 400_000 (run mode p nonce payload ladder light seed)
  unfolding run peers_from Rx.new
  run-IsSafe mode s_eph s_id r_eph r_id sid nonce payload ladder light seed hs hp hn lt fits pos
        law =
      let p = peers_from s_eph s_id r_eph r_id sid in
      let (ks, kr) = keys_for mode p in
      let tx = run_tx mode p nonce payload in
      let usable = config_for-IsUsable mode p hs hp in
      let offer = new-Offers ks nonce (config_for mode p) payload lt fits law in
      let agree = keys_for_agree mode s_eph s_id r_eph r_id sid in
      let w : World = record { tx = tx; rx = Rx.new; key = some kr; rng = seed } in
      let sound : IsSound tx.beacon tx.packets kr payload w = record {
        tx = new-Sends ks nonce (config_for mode p) payload usable hn;
        rx = new-Tracks tx.beacon tx.packets kr payload;
        key = inl (refl, refl);
      } in
      rounds_from-IsSafe tx.beacon tx.packets kr payload
        (subst (λ k. Offers tx.beacon tx.packets k payload) agree offer) (schedule_of ladder) light
        400_000 0 w pos sound
