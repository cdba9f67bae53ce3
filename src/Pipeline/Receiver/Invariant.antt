-- ===== src/Pipeline/Receiver/Invariant.antt =====
-- core/src/pipeline.rs: the receiver counts distinct packets, and no frame that decodes makes it panic.
use rabaska.Prelude.{
  ◌≡◌, ◌≢◌, ◌≤◌, ◌+◌, refl, ap, sym, subst, ◌∙◌, Option, none, some, true, false, ◌||◌, List, [],
  ◌∷◌, ◌++◌, length, map, ltb, All, All-append, length-append, Bool-cases, Option-cases, arith, inl,
  inr,
}
use rabaska.Prelude.Bytes.{Bytes, slice, bytes_eq, bytes_eq_refl}
use rabaska.Error.{Result, ok, panic}
use rabaska.Wire.Frame.{Crc}
use rabaska.Wire.Beacon.{Beacon}
use rabaska.Wire.Symbol
use rabaska.Crypto.Primitives.{Primitives}
use rabaska.Crypto.Keys.{decrypt}
use rabaska.Pipeline.Compress.{maybe_decompress}
use rabaska.Pipeline.Receiver.Known.{map-append_one}
use rabaska.Pipeline.Services.{Deflate, Fountain}
use rabaska.Pipeline.Receiver.{
  Receiver, Ingest, id_of, contains, of_session, symbols_needed, new, set_key, hold,
  feed_unfinished, absorb_packet, absorb_all, open_object, conclude, absorb, absorb_queued,
  ingest_beacon, ingest_symbol,
}

-- No packet identifier twice.
abbrev pub Distinct : List Bytes → Type 0
Distinct [] = Unit {0}
Distinct (i ∷ is) = All (λ j. j ≢ i) is × Distinct is

-- Both are there, or neither is.
abbrev pub Together {ℓ} : {A : Type ℓ} {B : Type ℓ} → Option A → Option B → Type 0
Together none none = Unit {0}
Together none (some b) = ⊥
Together (some a) none = ⊥
Together (some a) (some b) = Unit {0}

pub record IsValid ⦃fountain : Fountain⦄ (r : Receiver) : Type 0 where
  pub ids : r.ids ≡ map id_of r.seen
  pub received : r.received ≡ length r.seen
  pub distinct : Distinct r.ids
  -- What is kept has an identifier.
  pub long : All (λ p. 4 ≤ length p) r.seen
  pub decoder : Together r.beacon r.decoder

contains-false : (is : List Bytes) (i : Bytes) → contains is i ≡ false → All (λ j. j ≢ i) is
unfolding contains
contains-false [] i h = tt
contains-false (j ∷ is) i h =
    let rest : contains is i ≡ false = ground arith in
    let here : bytes_eq j i ≡ false = ground arith in
    (λ e. let yes : bytes_eq j i ≡ true = rw e (bytes_eq_refl i) in cc, contains-false is i rest)

Distinct-append :
    (is : List Bytes) (i : Bytes) → Distinct is → All (λ j. j ≢ i) is → Distinct (is ++ i ∷ [])
Distinct-append [] i d ne = (tt, tt)
Distinct-append (j ∷ is) i d ne =
    (All-append (λ k. k ≢ j) is (i ∷ []) d.0 (λ e. ne.0 (sym e), tt), Distinct-append is i d.1 ne.1)

module _ ⦃fountain : Fountain⦄ where
  -- The decoder of a valid receiver that has a beacon.
  pub has_decoder :
      (r : Receiver) {b : Beacon}
      → IsValid r
      → r.beacon ≡ some b
      → (d : fountain.Decoder) × (r.decoder ≡ some d)
  has_decoder r v hb = ground (arith, Option-cases r.decoder)

  -- One packet keeps the invariant, the beacon and the key.
  pub absorb_packet_keeps :
      (raw : Bytes) (r : Receiver) (finished : Option Bytes) {b : Beacon}
      → IsValid r
      → r.beacon ≡ some b
      → (p : Receiver × Option Bytes) × (absorb_packet raw r finished ≡ ok p)
        × IsValid p.0
        × (p.0.beacon ≡ some b)
        × (p.0.key ≡ r.key)
  unfolding absorb_packet
  absorb_packet_keeps raw r finished v hb =
      elim (Bool-cases (ltb (length raw) 4 || contains r.ids (id_of raw))) [
        | inl skip ↦ ((r, finished), ground arith, v, hb, refl)
        | inr fresh ↦
            let (dec, hd) = has_decoder r v hb in
            let new_id : contains r.ids (id_of raw) ≡ false = ground arith in
            let fed = feed_unfinished dec raw finished in
            let r' : Receiver = record r {
              ids = r.ids ++ id_of raw ∷ [];
              seen = r.seen ++ raw ∷ [];
              received = r.received + 1;
              decoder = some fed.0;
            } in
            let v' : IsValid r' = record {
              ids = ap (λ is. is ++ id_of raw ∷ []) v.ids ∙ sym (map-append_one r.seen raw);
              received = omega (arith, length-append r.seen (raw ∷ []));
              distinct =
                  Distinct-append r.ids (id_of raw) v.distinct
                    (contains-false r.ids (id_of raw) new_id);
              long = All-append (λ p. 4 ≤ length p) r.seen (raw ∷ []) v.long (ground arith, tt);
              decoder = rw hb tt;
            } in
            ((r', fed.1), ground arith, v', hb, refl)
      ]

  pub absorb_all_keeps :
      (queued : List Bytes) (r : Receiver) (finished : Option Bytes) {b : Beacon}
      → IsValid r
      → r.beacon ≡ some b
      → (p : Receiver × Option Bytes) × (absorb_all queued r finished ≡ ok p)
        × IsValid p.0
        × (p.0.beacon ≡ some b)
        × (p.0.key ≡ r.key)
  unfolding absorb_all
  absorb_all_keeps [] r finished v hb = ((r, finished), refl, v, hb, refl)
  absorb_all_keeps (raw ∷ queued) r finished v hb =
      let (p, one, v', hb', key') = absorb_packet_keeps raw r finished v hb in
      let (q, more, v'', hb'', key'') = absorb_all_keeps queued p.0 p.1 v' hb' in
      (q, rw (one, more), v'', hb'', key'' ∙ key')

  pub new-IsValid : IsValid new
  unfolding new
  new-IsValid = record { ids = refl; received = refl; distinct = tt; long = tt; decoder = tt }

  pub set_key-IsValid : (r : Receiver) (key : Bytes) → IsValid r → IsValid (set_key r key)
  unfolding set_key
  set_key-IsValid r key v = assumption

  pub held-IsValid :
      (r : Receiver) (pending : List (Bytes × Bytes))
      → IsValid r
      → IsValid (record r { pending = pending })
  held-IsValid r pending v = assumption

  pub hold-IsValid :
      (r : Receiver) (sid4 : Bytes) (packets : List Bytes)
      → IsValid r
      → IsValid (hold r sid4 packets)
  unfolding hold
  hold-IsValid r sid4 packets v =
      ground (arith, held-IsValid r (r.pending ++ map (λ p. (sid4, p)) packets))

-- A valid state, and no panic.
abbrev pub Sound : ⦃fountain : Fountain⦄ → Receiver × Result Ingest → Type 0
Sound x = IsValid x.0 × (x.1 ≢ panic)

module _ ⦃crc : Crc⦄ ⦃prim : Primitives⦄ ⦃deflate : Deflate⦄ ⦃fountain : Fountain⦄ where
  pub open_object-ne-panic : (b : Beacon) (key ct : Bytes) → open_object b key ct ≢ panic
  unfolding open_object maybe_decompress decrypt
  open_object-ne-panic b key ct h = ground arith

  conclude-Sound :
      (b : Beacon) (r : Receiver) (finished : Option Bytes)
      → IsValid r
      → Sound (conclude b (r, finished))
  unfolding conclude
  conclude-Sound b r none v = (v, λ e. cc)
  conclude-Sound b r (some ct) v =
      let done : IsValid (record r { done = true }) = assumption in
      elim (Option-cases r.key) [
        | inl without ↦ ground arith
        | inr (key, present) ↦ ground (arith, open_object-ne-panic b key ct)
      ]

  -- The loop, then its conclusion.
  pub absorb_step :
      (r : Receiver) (packets : List Bytes) {b : Beacon} {p : Receiver × Option Bytes}
      → r.beacon ≡ some b
      → absorb_all
          (of_session (slice 0 4 b.session_id) r.pending ++ packets)
          (record r { pending = [] })
          none
        ≡ ok p
      → absorb r packets ≡ conclude b p
  unfolding absorb
  absorb_step r packets hb run =
      let run_b = simp hb at run in simp (absorb, absorb_queued, hb, run_b)

  pub absorb-Sound :
      (r : Receiver) (packets : List Bytes) {b : Beacon}
      → IsValid r
      → r.beacon ≡ some b
      → Sound (absorb r packets)
  unfolding absorb
  absorb-Sound r packets {b = b} v hb =
      let queued = of_session (slice 0 4 b.session_id) r.pending ++ packets in
      let (p, run, v', _, _) =
        absorb_all_keeps queued (record r { pending = [] }) none (held-IsValid r [] v) hb in
      subst Sound (sym (absorb_step r packets hb run)) (conclude-Sound b p.0 p.1 v')

  acquired : Receiver → Beacon → Receiver
  acquired r b = record r {
    needed = symbols_needed (fountain.transfer_length b.oti) (fountain.symbol_size b.oti);
    decoder = some (fountain.new_decoder b.oti);
    beacon = some b;
  }

  first_beacon : (r : Receiver) (b : Beacon) → IsValid r → IsValid (acquired r b)
  unfolding acquired
  first_beacon r b v = record {
    ids = v.ids;
    received = v.received;
    distinct = v.distinct;
    long = v.long;
    decoder = tt;
  }

  pub ingest_beacon-Sound : (r : Receiver) (b : Beacon) → IsValid r → Sound (ingest_beacon r b)
  unfolding ingest_beacon acquired
  ingest_beacon-Sound r b v = elim (Option-cases r.beacon) [
    | inl without ↦ ground (arith, first_beacon r b v)
    | inr (old, present) ↦ ground arith
  ]

  pub ingest_symbol-Sound :
      (r : Receiver) (sf : Symbol.SymbolFrame) → IsValid r → Sound (ingest_symbol r sf)
  unfolding ingest_symbol
  ingest_symbol-Sound r sf v = elim (Option-cases r.beacon) [
    | inl without ↦ ground (arith, hold-IsValid r sf.sid4 sf.packets v)
    | inr (b, present) ↦ ground (arith, absorb-Sound r sf.packets v present)
  ]
