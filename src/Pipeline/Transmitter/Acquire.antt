-- ===== src/Pipeline/Transmitter/Acquire.antt =====
-- core/src/pipeline.rs: a late joiner sees a beacon within one interval.
use rabaska.Prelude.{
  sym, ltb, ltb→lt, ltb-false→le, ℕ, suc, ◌≡◌, ◌≢◌, ◌≤◌, ◌<◌, ◌+◌, ◌%◌, ◌^◌, ◌⊎◌, inl, inr, ap, ◌∙◌,
  max, ◌||◌, Bool-cases, List, [], ◌∷◌, length, ◌==◌, arith,
}
use native.Mathlib.Nat.{mod-eq_of_lt, mod-add-mod, zero-mod, mod_self, mod-lt}
use rabaska.Error.{ok}
use rabaska.Wire.Frame.{Crc}
use rabaska.Wire.Beacon
use rabaska.Wire.Beacon.{Beacon}
use rabaska.Wire.Beacon.RoundTrip as BeaconTrip
use rabaska.Wire.Symbol
use rabaska.Wire.Symbol.{packets_per_frame}
use rabaska.Pipeline.Transmitter.{
  Transmitter, OpticalFrame, beacon_frame, symbol_frame, next_frame_at, stream,
}
use rabaska.Pipeline.Transmitter.Validity.{
  IsValid, beacon_step, symbol_step, wrap, wrap-IsValid, advance, advance-IsValid, symbols,
}
use rabaska.Pipeline.Transmitter.Held.{stream_total}

-- One of the frames decodes to the beacon.
abbrev pub HasBeacon : ⦃crc : Crc⦄ → Beacon → List OpticalFrame → Type 0
HasBeacon b [] = ⊥
HasBeacon b (beacon_frame x ∷ fs) = (Beacon.decode x ≡ ok b) ⊎ HasBeacon b fs
HasBeacon b (symbol_frame x ∷ fs) = HasBeacon b fs

-- The number of the next frame is a multiple of the interval, or the schedule is long enough to come to one.
abbrev Due : ℕ → ℕ → ℕ → Type 0
Due n id len = ((id % n ≡ 0) × (1 ≤ len)) ⊎ (n + 1 ≤ len + id % n)

next_Due :
    (n id len : ℕ)
    → 0 < n
    → id < 256 ^ 4
    → id % n ≢ 0
    → Due n id (suc len)
    → Due n ((id + 1) % 256 ^ 4) len
next_Due n id len pos lt ne (inl e) = absurd (ne e.0)
next_Due n id len pos lt ne (inr h) =
    let sum : (id % n + 1) % n ≡ (id + 1) % n = mod-add-mod id n 1 in
    (elim (Bool-cases (ltb (id + 1) (256 ^ 4))) [
      | inl small ↦
          let same : (id + 1) % 256 ^ 4 ≡ id + 1 = mod-eq_of_lt (ltb→lt (id + 1) (256 ^ 4) small) in
          elim (Bool-cases (ltb (id % n + 1) n)) [
            | inl room ↦
                let r : (id + 1) % n ≡ id % n + 1 =
                  sym sum ∙ mod-eq_of_lt (ltb→lt (id % n + 1) n room) in
                inr (rw (same, r) (omega arith))
            | inr full ↦
                let end : id % n + 1 ≡ n =
                  (let le = ltb-false→le (id % n + 1) n full in omega arith) in
                inl (rw (same) (sym sum ∙ ap (λ j. j % n) end ∙ mod_self n), omega arith)
          ]
      | inr wrap ↦
          let same : (id + 1) % 256 ^ 4 ≡ 0 =
            (let le = ltb-false→le (id + 1) (256 ^ 4) wrap in omega arith) in
          inl (rw (same) (zero-mod n), omega arith)
    ])

module _ ⦃crc : Crc⦄ where
  acquires :
      (t : Transmitter) (capacities : List ℕ)
      → IsValid t
      → Due t.beacon_interval t.frame_id (length capacities)
      → (p : Transmitter × List OpticalFrame) × (stream t capacities ≡ ok p)
        × HasBeacon t.beacon p.1
  unfolding stream next_frame_at advance
  acquires t [] v (inl e) = absurd (omega arith)
  acquires t [] v (inr h) = absurd (let lt = mod-lt t.frame_id v.interval in omega arith)
  acquires t (c ∷ cs) v due =
      let n = max (packets_per_frame c t.packet_len) 1 in
      elim (Bool-cases (t.held || t.frame_id % t.beacon_interval == 0)) [
        | inl now ↦
            let one = beacon_step t n v now in
            let (q, more, _, _) = stream_total (wrap t) cs (wrap-IsValid t v) in
            (
              (q.0, beacon_frame t.beacon_bytes ∷ q.1),
              rw (one, more),
              inl (ap Beacon.decode v.beacon_bytes ∙ BeaconTrip.decode-encode t.beacon v.beacon),
            )
        | inr later ↦
            let one = symbol_step t n v later in
            let ne : t.frame_id % t.beacon_interval ≢ 0 = ground arith in
            let next =
              next_Due t.beacon_interval t.frame_id (length cs) v.interval v.frame_id ne due in
            let (q, more, has) = acquires (advance t n) cs (advance-IsValid t n v) next in
            ((q.0, symbol_frame (Symbol.encode (symbols t n)) ∷ q.1), rw (one, more), has)
      ]

  -- A valid transmitter is acquired by whoever watches `beacon_interval` of its frames, from any point
  -- on and whatever the schedule of capacities: one of them decodes to its beacon, also across the
  -- wrap of the frame number.
  pub stream-HasBeacon :
      (t : Transmitter) (capacities : List ℕ)
      → IsValid t
      → t.beacon_interval ≤ length capacities
      → (p : Transmitter × List OpticalFrame) × (stream t capacities ≡ ok p)
        × HasBeacon t.beacon p.1
  stream-HasBeacon t capacities v le =
      acquires t capacities v (elim (Bool-cases (t.frame_id % t.beacon_interval == 0)) [
        | inl now ↦ inl (ground arith, omega arith)
        | inr later ↦
            let ne : t.frame_id % t.beacon_interval ≢ 0 = ground arith in inr (omega arith)
      ])
