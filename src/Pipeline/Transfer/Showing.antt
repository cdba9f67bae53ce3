-- ===== src/Pipeline/Transfer/Showing.antt =====
-- core/src/pipeline.rs: one more frame for a keyed receiver that is at work on the pool.
use rabaska.Prelude.{
  ℕ, zero, suc, ◌+◌, ◌%◌, ◌≡◌, ◌≤◌, ◌<◌, ◌⊎◌, inl, inr, refl, sym, ap, subst, ◌∙◌, Option, none,
  some, true, false, List, [], ◌++◌, length, get_or, All, All-append, All-append_right, Bool-cases,
  ltb, ltb→lt, ltb-false→le, arith,
}
use native.Mathlib.Nat.{mod-eq_of_lt}
use rabaska.Prelude.Bytes.{Bytes, slice, bytes_eq, bytes_eq_refl}
use rabaska.Error.{Result, ok}
use rabaska.Wire.Beacon
use rabaska.Wire.Beacon.{Beacon}
use rabaska.Wire.Symbol
use rabaska.Wire.Frame.{Crc}
use rabaska.Crypto.Primitives.{Primitives}
use rabaska.Pipeline.Services.{Deflate, Fountain}
use rabaska.Pipeline.Transmitter.Validity.{window}
use rabaska.Pipeline.Receiver.{
  Receiver, Ingest, ignored, done, progress, of_session, conclude, absorb, ingest_beacon,
  ingest_symbol, ingest,
}
use rabaska.Pipeline.Receiver.Invariant.{absorb_step}
use rabaska.Pipeline.Transfer.{IsFrom, Offers}
use rabaska.Pipeline.Transfer.Absorbing.{of_session-IsFrom}
use rabaska.Pipeline.Receiver.Reading.{beacon_decode-peek_type, symbol_decode-peek_type}
use rabaska.Pipeline.Transfer.Completing.{
  Completes, Collects, Knows, absorb_all_step, not_all_known,
}

-- What holds of every packet of a window, holds of each.
pub window-All_at :
    (P : Bytes → Type 0) (n : ℕ) (packets : List Bytes) (k j : ℕ)
    → All P (window n packets k)
    → k ≤ j
    → j < k + n
    → P (get_or packets (j % length packets) [])
window-All_at P zero packets k j h low high = absurd (omega arith)
window-All_at P (suc n) packets k j (h, hs) low high = elim (Bool-cases (ltb k j)) [
  | inl later ↦
      window-All_at P n packets (k + 1) j hs (let lt = ltb→lt k j later in omega arith)
        (omega arith)
  | inr now ↦
      let same : k ≡ j = (let le = ltb-false→le k j now in omega arith) in
      subst (λ i. P (get_or packets (i % length packets) [])) same h
]

module _ ⦃crc : Crc⦄ ⦃prim : Primitives⦄ ⦃deflate : Deflate⦄ ⦃fountain : Fountain⦄ (b : Beacon)
    (pool : List Bytes) (key payload : Bytes) (offer : Offers b pool key payload)
    (law : Completes b.oti offer.object pool) where
  -- A keyed receiver at work: it has not delivered, and what is pending is of the pool.
  pub record Works (r : Receiver) : Type 0 where
    pub collects : Collects b pool key r
    pub pending : All (λ q. IsFrom pool q.1) r.pending
    pub not_done : r.done ≡ false

  -- The payload is delivered, or the receiver works on and knows the packets too.
  abbrev pub DeliversOrKnows : Receiver → List Bytes → Receiver × Result Ingest → Type 0
  DeliversOrKnows r packets x =
      ((x.1 ≡ ok (done payload)) × (x.0.done ≡ true))
      ⊎ (((n m : ℕ) × (x.1 ≡ ok (progress n m)))
          × Works x.0
          × ((q : Bytes) → Knows b pool key r q → Knows b pool key x.0 q)
          × All (Knows b pool key x.0) packets)

  conclude_found :
      (p : Receiver × Option Bytes)
      → p.1 ≡ some offer.object
      → p.0.key ≡ some key
      → conclude b p ≡ (record p.0 { done = true }, ok (done payload))
  unfolding conclude
  conclude_found (r', f) found keyed =
      let opens = offer.opens in
      subst (λ g. conclude b (r', g) ≡ (record r' { done = true }, ok (done payload))) (sym found)
        (ground arith)

  conclude_nothing :
      (p : Receiver × Option Bytes)
      → p.1 ≡ none
      → conclude b p ≡ (p.0, ok (progress p.0.received p.0.needed))
  unfolding conclude
  conclude_nothing (r', f) nothing = ap (λ g. conclude b (r', g)) nothing

  absorb-Works :
      (r : Receiver) (packets : List Bytes)
      → Works r
      → All (IsFrom pool) packets
      → DeliversOrKnows r packets (absorb r packets)
  unfolding of_session
  absorb-Works r packets w from =
      let fresh : Receiver = record r { pending = [] } in
      let c = w.collects in
      let c' : Collects b pool key fresh = record {
        beacon = c.beacon;
        keyed = c.keyed;
        decoder = c.decoder;
        from = c.from;
        ids = c.ids;
        unfinished = c.unfinished;
      } in
      let sid4 = slice 0 4 b.session_id in
      let waiting = of_session sid4 r.pending in
      let all =
        All-append (IsFrom pool) waiting packets (of_session-IsFrom pool sid4 r.pending w.pending)
          from in
      let (p, run, which) =
        absorb_all_step b pool key offer.object offer.recovers law (waiting ++ packets) fresh c'
          all in
      let step = absorb_step r packets c.beacon run in
      subst (DeliversOrKnows r packets) (sym step) (elim which [
        | inl (found, keyed, _) ↦
            let finish = conclude_found p found keyed in
            subst (DeliversOrKnows r packets) (sym finish) (inl (refl, refl))
        | inr ((nothing, c'', keeps, pend, dn), known) ↦
            subst (DeliversOrKnows r packets) (sym (conclude_nothing p nothing)) (
              inr (
                (p.0.received, p.0.needed, refl),
                record {
                  collects = c'';
                  pending = subst (All (λ q. IsFrom pool q.1)) (sym pend) tt;
                  not_done = dn ∙ w.not_done;
                },
                keeps,
                All-append_right (Knows b pool key p.0) waiting packets known,
              ))
      ])

  -- A symbol frame of the transmitter.
  pub ingest_symbol-Works :
      (r : Receiver) (frame : Bytes) (sf : Symbol.SymbolFrame)
      → Works r
      → Symbol.decode frame ≡ ok sf
      → sf.sid4 ≡ slice 0 4 b.session_id
      → All (IsFrom pool) sf.packets
      → DeliversOrKnows r sf.packets (ingest r frame)
  unfolding ingest ingest_symbol
  ingest_symbol-Works r frame sf w read own from =
      let peeked = symbol_decode-peek_type frame sf read in
      let hb = w.collects.beacon in
      let not_done = w.not_done in
      let same : bytes_eq sf.sid4 (slice 0 4 b.session_id) ≡ true =
        rw own (bytes_eq_refl (slice 0 4 b.session_id)) in
      let inner : ingest_symbol r sf ≡ absorb r sf.packets = ground arith in
      let step : ingest r frame ≡ ingest_symbol r sf = ground arith in
      subst (DeliversOrKnows r sf.packets) (sym (step ∙ inner)) (absorb-Works r sf.packets w from)

  -- The beacon again.
  pub ingest_beacon-Works :
      (r : Receiver) (frame : Bytes)
      → Works r
      → Beacon.decode frame ≡ ok b
      → ingest r frame ≡ (r, ok ignored)
  unfolding ingest ingest_beacon
  ingest_beacon-Works r frame w read =
      let peeked = beacon_decode-peek_type frame b read in
      let hb = w.collects.beacon in
      let not_done = w.not_done in
      let same = bytes_eq_refl b.session_id in
      let inner : ingest_beacon r b ≡ (r, ok ignored) = ground arith in
      let step : ingest r frame ≡ ingest_beacon r b = ground arith in step ∙ inner

  -- The packets of the pool up to `k` are known.
  abbrev pub KnowsUpTo : ℕ → Receiver → Type 0
  KnowsUpTo k r = (i : ℕ) → i < k → i < length pool → Knows b pool key r (get_or pool i [])

  -- A window of packets more.
  pub window-KnowsUpTo :
      (r r' : Receiver) (n k : ℕ)
      → ((q : Bytes) → Knows b pool key r q → Knows b pool key r' q)
      → KnowsUpTo k r
      → All (Knows b pool key r') (window n pool k)
      → KnowsUpTo (k + n) r'
  window-KnowsUpTo r r' n k keeps known shown i lt inside = elim (Bool-cases (ltb i k)) [
    | inl old ↦ keeps (get_or pool i []) (known i (ltb→lt i k old) inside)
    | inr new ↦
        let le = ltb-false→le i k new in
        subst (λ j. Knows b pool key r' (get_or pool j [])) (mod-eq_of_lt inside)
          (window-All_at (Knows b pool key r') n pool k i shown le lt)
  ]

  -- A receiver that works on does not know the whole pool.
  pub KnowsUpTo-lt :
      (r : Receiver) (k : ℕ) → 0 < length pool → Works r → KnowsUpTo k r → k < length pool
  KnowsUpTo-lt r k pos w known = elim (Bool-cases (ltb k (length pool))) [
    | inl inside ↦ ltb→lt k (length pool) inside
    | inr all ↦
        let le = ltb-false→le k (length pool) all in
        absurd (
          not_all_known b pool key offer.object offer.recovers law r pos w.collects
            (λ i lt. known i (omega arith) lt))
  ]
