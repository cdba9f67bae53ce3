-- ===== src/Harness/Rounds.antt =====
-- harness/src/main.rs: no round of `run` fails, and the one that delivers delivers the payload.
use rabaska.Prelude.{
  ℕ, zero, suc, ◌≡◌, ◌≤◌, ◌<◌, ◌+◌, ◌%◌, ◌⊎◌, inl, inr, refl, sym, ap, subst, ◌∙◌, none, some, true,
  List, [], ◌∷◌, length, get_elem?, Bool-cases, arith,
}
use rabaska.Prelude.Bytes.{Bytes, IsArray, slice, slice-IsArray, bytes_eq, bytes_eq_refl}
use rabaska.Error.{Result, ok, err, panic}
use rabaska.Floats.{Floats}
use rabaska.Wire.Types as Types
use rabaska.Wire.Frame.{Crc}
use rabaska.Wire.Beacon.{Beacon}
use rabaska.Wire.Complete
use rabaska.Crypto.Primitives.{Primitives}
use rabaska.Crypto.Human.{complete_hash}
use rabaska.Pipeline.Services.{Deflate, Fountain}
use rabaska.Pipeline.Transmitter.{Transmitter, OpticalFrame, frame_bytes}
use rabaska.Pipeline.Receiver.{
  Receiver, Ingest, ignored, beacon_acquired, progress, done, set_key, ingest, complete_frame,
}
use rabaska.Pipeline.Transfer.{Offers, Tracks, IsGood, IsFrameOf}
use rabaska.Pipeline.Transfer.Frames.{set_key-Tracks, ingest-Continues}
use rabaska.Pipeline.Transfer.Sending.{Sends, next_frame_at-Sends}
use rabaska.Harness.{
  Rung, Lighting, Outcome, delivered, payload_differs, hash_mismatch, did_not_converge,
  frame_failed, completion_failed, panicked, World, Round, goes_on, ends, next_f64,
  read_probability, confirm, receive, show, round, rounds_from,
}

-- It delivered, in a number of frames and the time that these take, or it did not converge: nothing failed.
abbrev pub IsSafe : ⦃f : Floats⦄ → ℕ → Outcome → Type 0
IsSafe ⦃f⦄ limit (delivered n seconds) = (n ≤ limit) × (seconds ≡ f.div (f.of_nat n) (f.of_nat 30))
IsSafe limit did_not_converge = Unit {0}
IsSafe limit payload_differs = ⊥
IsSafe limit hash_mismatch = ⊥
IsSafe limit (frame_failed i e) = ⊥
IsSafe limit (completion_failed e) = ⊥
IsSafe limit panicked = ⊥

later-IsSafe : ⦃f : Floats⦄ (m n : ℕ) (o : Outcome) → m ≤ n → IsSafe m o → IsSafe n o
later-IsSafe m n (delivered k seconds) le (h, s) = (omega arith, s)
later-IsSafe m n did_not_converge le h = tt
later-IsSafe m n payload_differs le h = h
later-IsSafe m n hash_mismatch le h = h
later-IsSafe m n (frame_failed i e) le h = h
later-IsSafe m n (completion_failed e) le h = h
later-IsSafe m n panicked le h = h

pub get_elem?-some :
    {A : Type 0} (xs : List A) (i : ℕ) → i < length xs → (x : A) × (get_elem? xs i ≡ some x)
get_elem?-some [] i lt = absurd (omega arith)
get_elem?-some (x ∷ xs) zero lt = (x, refl)
get_elem?-some (x ∷ xs) (suc i) lt = get_elem?-some xs i (omega arith)

module _ ⦃crc : Crc⦄ ⦃prim : Primitives⦄ ⦃deflate : Deflate⦄ ⦃fountain : Fountain⦄ ⦃f : Floats⦄
    (b : Beacon) (pool : List Bytes) (shared payload : Bytes) where
  -- Both ends are at work on the payload, and the receiver has the key exactly if it has the beacon.
  pub record IsSound (w : World) : Type 0 where
    pub tx : Sends b pool payload w.tx
    pub rx : Tracks b pool shared w.rx
    pub key :
        ((w.key ≡ some shared) × (w.rx.beacon ≡ none)) ⊎ ((w.key ≡ none) × (w.rx.beacon ≡ some b))

  abbrev pub RoundIsSafe : ℕ → Round → Type 0
  RoundIsSafe i (goes_on w) = IsSound w
  RoundIsSafe i (ends o) = IsSafe (i + 1) o

  confirms :
      (tx : Transmitter) (rx : Receiver) (i : ℕ)
      → Sends b pool payload tx
      → rx.beacon ≡ some b
      → confirm tx rx i payload payload ≡ delivered (i + 1) (f.div (f.of_nat (i + 1)) (f.of_nat 30))
  unfolding confirm complete_frame complete_hash
  confirms tx rx i s hb =
      let session = subst (λ u. IsArray 8 u.session_id) s.beacon s.valid.beacon.session_id in
      let c : Complete.Complete = record {
        sid4 = slice 0 4 b.session_id;
        status = Types.done;
        hash8 = complete_hash b.session_id payload;
      } in
      let digest = prim.sha256-IsArray _ in
      let wf : Complete.IsWellFormed c = record {
        sid4 = slice-IsArray 0 4 b.session_id session.1 (omega arith);
        hash8 = slice-IsArray 0 8 (prim.sha256 _) digest.1 (omega arith);
      } in
      let made : complete_frame rx payload Types.done ≡ some (Complete.encode c) =
        rw (complete_frame, hb) in
      let parsed = Complete.decode-encode c wf in
      let same : bytes_eq c.hash8 tx.plaintext_hash ≡ true =
        ap (bytes_eq c.hash8) s.plaintext_hash ∙ bytes_eq_refl c.hash8 in
      rw (confirm, bytes_eq_refl payload, made, parsed, same)

  receive-RoundIsSafe :
      (w : World) (i : ℕ) (rx : Receiver) (r : Result Ingest)
      → IsSound w
      → Tracks b pool shared rx
      → IsGood b payload w.rx rx r
      → RoundIsSafe i (receive w i payload (rx, r))
  unfolding receive set_key
  receive-RoundIsSafe w i rx (ok beacon_acquired) s t (fresh, acquired) = elim s.key [
    | inl (kept, _) ↦
        let next : receive w i payload (rx, ok beacon_acquired)
            ≡ goes_on (record w { rx = set_key rx shared; key = none }) =
          ground arith in
        subst (RoundIsSafe i) (sym next) (record {
          tx = s.tx;
          rx = set_key-Tracks b pool shared payload rx t;
          key = inr (refl, acquired);
        })
    | inr (_, present) ↦ absurd (ground arith)
  ]
  receive-RoundIsSafe w i rx (ok (done plaintext)) s t (same, present) =
      let end : confirm w.tx rx i payload plaintext
          ≡ delivered (i + 1) (f.div (f.of_nat (i + 1)) (f.of_nat 30)) =
        ap (confirm w.tx rx i payload) same ∙ confirms w.tx rx i s.tx present in
      subst (IsSafe (i + 1)) (sym end) (omega arith, refl)
  receive-RoundIsSafe w i rx (ok ignored) s t same = record {
    tx = s.tx;
    rx = t;
    key =
        subst (λ o. ((w.key ≡ some shared) × (o ≡ none)) ⊎ ((w.key ≡ none) × (o ≡ some b)))
          (sym same) s.key;
  }
  receive-RoundIsSafe w i rx (ok (progress n m)) s t same = record {
    tx = s.tx;
    rx = t;
    key =
        subst (λ o. ((w.key ≡ some shared) × (o ≡ none)) ⊎ ((w.key ≡ none) × (o ≡ some b)))
          (sym same) s.key;
  }
  receive-RoundIsSafe w i rx (err e) s t h = absurd h
  receive-RoundIsSafe w i rx panic s t h = absurd h

  module _ (offer : Offers b pool shared payload) (schedule : List Rung) (light : Lighting) where
    show-RoundIsSafe :
        (w : World) (i : ℕ) (rung : Rung) (frame : OpticalFrame)
        → IsSound w
        → IsFrameOf b pool (frame_bytes frame)
        → RoundIsSafe i (show light w i payload rung frame)
    unfolding show
    show-RoundIsSafe w i rung frame s which =
        let w' : World = record w { rng = (next_f64 w.rng).0 } in
        let s' : IsSound w' = record { tx = s.tx; rx = s.rx; key = s.key } in
        elim (Bool-cases (f.lt (read_probability light rung frame) (next_f64 w.rng).1)) [
          | inl lost ↦
              let step : show light w i payload rung frame ≡ goes_on w' = rw (show, lost) in
              subst (RoundIsSafe i) (sym step) s'
          | inr seen ↦
              let step : show light w i payload rung frame
                  ≡ receive w' i payload (ingest w.rx (frame_bytes frame)) =
                rw (show, seen) in
              let (t, good) =
                ingest-Continues b pool shared payload offer w.rx (frame_bytes frame) s.rx which in
              subst (RoundIsSafe i) (sym step) (
                receive-RoundIsSafe w' i (ingest w.rx (frame_bytes frame)).0
                  (ingest w.rx (frame_bytes frame)).1 s' t good)
        ]

    round-RoundIsSafe :
        (w : World) (i : ℕ)
        → 0 < length schedule
        → IsSound w
        → RoundIsSafe i (round schedule light payload i w)
    unfolding round
    round-RoundIsSafe w i pos s =
        let (rung, found) = get_elem?-some schedule (i % length schedule) (omega arith) in
        let (p, sent, s', which, _) = next_frame_at-Sends b pool payload w.tx rung.capacity s.tx in
        let w' : World = record w { tx = p.0 } in
        let step : round schedule light payload i w ≡ show light w' i payload rung p.1 =
          rw (round, found, sent) in
        subst (RoundIsSafe i) (sym step)
          (show-RoundIsSafe w' i rung p.1 (record { tx = s'; rx = s.rx; key = s.key }) which)

    pub rounds_from-IsSafe :
        (rounds i : ℕ) (w : World)
        → 0 < length schedule
        → IsSound w
        → IsSafe (i + rounds) (rounds_from schedule light payload rounds i w)
    unfolding rounds_from
    rounds_from-IsSafe zero i w pos s = tt
    rounds_from-IsSafe (suc rounds) i w pos s =
        after (λ w' h. rounds_from-IsSafe rounds (i + 1) w' pos h)
          (round schedule light payload i w) refl (round-RoundIsSafe w i pos s)
      where
        after :
            ((w' : World)
              → IsSound w'
              → IsSafe (i + 1 + rounds) (rounds_from schedule light payload rounds (i + 1) w'))
            → (r : Round) → round schedule light payload i w ≡ r
            → RoundIsSafe i r
            → IsSafe (i + suc rounds) (rounds_from schedule light payload (suc rounds) i w)
        after rest (ends o) e h =
            let step : rounds_from schedule light payload (suc rounds) i w ≡ o =
              rw (rounds_from, e) in
            subst (IsSafe (i + suc rounds)) (sym step)
              (later-IsSafe (i + 1) (i + suc rounds) o (omega arith) h)
        after rest (goes_on w') e h =
            let step : rounds_from schedule light payload (suc rounds) i w
                ≡ rounds_from schedule light payload rounds (i + 1) w' =
              rw (rounds_from, e) in
            subst (IsSafe (i + suc rounds)) (sym step) (
              later-IsSafe (i + 1 + rounds) (i + suc rounds)
                (rounds_from schedule light payload rounds (i + 1) w') (omega arith) (rest w' h))
