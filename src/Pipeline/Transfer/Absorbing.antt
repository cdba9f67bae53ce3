-- ===== src/Pipeline/Transfer/Absorbing.antt =====
-- core/src/pipeline.rs: absorbing packets of the transmitter's pool makes its payload or nothing.
use rabaska.Prelude.{
  ◌+◌, ◌≡◌, ◌⊎◌, inl, inr, refl, sym, ap, subst, ◌∙◌, Option, none, some, true, ◌||◌, List, [], ◌∷◌,
  ◌++◌, length, ltb, All, All-append, Bool-cases, arith,
}
use rabaska.Prelude.Bytes.{Bytes, slice, bytes_eq}
use rabaska.Error.{Result, ok}
use rabaska.Wire.Beacon.{Beacon}
use rabaska.Wire.Frame.{Crc}
use rabaska.Crypto.Primitives.{Primitives}
use rabaska.Pipeline.Services.{Deflate, Fountain}
use rabaska.Pipeline.Receiver.{
  Receiver, Ingest, done, progress, id_of, contains, of_session, feed_unfinished, absorb_packet,
  absorb_all, open_object, conclude, absorb,
}
use rabaska.Pipeline.Receiver.Invariant.{absorb_step}
use rabaska.Pipeline.Transfer.{IsFrom, IsNoneOr, fed, Recovers, Offers, IsFedFrom, Tracks, IsGood}

module _ ⦃fountain : Fountain⦄ where
  pub fed-append :
      (d : fountain.Decoder) (ps : List Bytes) (p : Bytes)
      → fed d (ps ++ p ∷ []) ≡ (fountain.feed (fed d ps) p).0
  fed-append d [] p = refl
  fed-append d (q ∷ ps) p = fed-append (fountain.feed d q).0 ps p

  module _ (b : Beacon) (pool : List Bytes) (object : Bytes)
      (law : Recovers b.oti object pool) where
    -- One packet more for the decoder, unless it had finished.
    feed_unfinished_from :
        (dec : fountain.Decoder) (raw : Bytes) (finished : Option Bytes)
        → IsFedFrom b.oti pool (some dec)
        → IsFrom pool raw
        → IsNoneOr object finished
        → IsFedFrom b.oti pool (some (feed_unfinished dec raw finished).0)
          × IsNoneOr object (feed_unfinished dec raw finished).1
    unfolding feed_unfinished
    feed_unfinished_from dec raw (some o) fed_from from h = (fed_from, h)
    feed_unfinished_from dec raw none (ps, all, e) from h =
        let d0 = fountain.new_decoder b.oti in
        let same : dec ≡ fed d0 ps = cc in
        (
          (
            ps ++ raw ∷ [],
            All-append (IsFrom pool) ps (raw ∷ []) all (from, tt),
            ap some (ap (λ d. (fountain.feed d raw).0) same ∙ sym (fed-append d0 ps raw)),
          ),
          subst (λ d. IsNoneOr object (fountain.feed d raw).1) (sym same)
              (law.feed ps raw all from),
        )

    absorb_packet_from :
        (raw : Bytes) (r : Receiver) (finished : Option Bytes)
        → IsFedFrom b.oti pool r.decoder
        → IsFrom pool raw
        → IsNoneOr object finished
        → (p : Receiver × Option Bytes) × (absorb_packet raw r finished ≡ ok p)
          × IsFedFrom b.oti pool p.0.decoder
          × IsNoneOr object p.1
          × (p.0.beacon ≡ r.beacon)
          × (p.0.key ≡ r.key)
          × (p.0.pending ≡ r.pending)
    unfolding absorb_packet
    absorb_packet_from raw r finished fed_from from h =
        elim (Bool-cases (ltb (length raw) 4 || contains r.ids (id_of raw))) [
          | inl skip ↦ ((r, finished), ground arith, fed_from, h, refl, refl, refl)
          | inr fresh ↦
              let (ps, all, e) = fed_from in
              let dec = fed (fountain.new_decoder b.oti) ps in
              let next = feed_unfinished_from dec raw finished (ps, all, refl) from h in
              let r' : Receiver = record r {
                ids = r.ids ++ id_of raw ∷ [];
                seen = r.seen ++ raw ∷ [];
                received = r.received + 1;
                decoder = some (feed_unfinished dec raw finished).0;
              } in
              (
                (r', (feed_unfinished dec raw finished).1),
                ground arith,
                next.0,
                next.1,
                refl,
                refl,
                refl,
              )
        ]

    absorb_all_from :
        (queued : List Bytes) (r : Receiver) (finished : Option Bytes)
        → IsFedFrom b.oti pool r.decoder
        → All (IsFrom pool) queued
        → IsNoneOr object finished
        → (p : Receiver × Option Bytes) × (absorb_all queued r finished ≡ ok p)
          × IsFedFrom b.oti pool p.0.decoder
          × IsNoneOr object p.1
          × (p.0.beacon ≡ r.beacon)
          × (p.0.key ≡ r.key)
          × (p.0.pending ≡ r.pending)
    unfolding absorb_all
    absorb_all_from [] r finished fed_from all h =
        ((r, finished), refl, fed_from, h, refl, refl, refl)
    absorb_all_from (raw ∷ queued) r finished fed_from (from, all) h =
        let (p, one, f, h', eb, ek, ep) = absorb_packet_from raw r finished fed_from from h in
        let (q, more, f', h'', eb', ek', ep') = absorb_all_from queued p.0 p.1 f all h' in
        (q, rw (one, more), f', h'', eb' ∙ eb, ek' ∙ ek, ep' ∙ ep)

pub of_session-IsFrom :
    (pool : List Bytes) (sid4 : Bytes) (pending : List (Bytes × Bytes))
    → All (λ q. IsFrom pool q.1) pending
    → All (IsFrom pool) (of_session sid4 pending)
unfolding of_session
of_session-IsFrom pool sid4 [] all = tt
of_session-IsFrom pool sid4 ((s, p) ∷ pending) (from, all) = elim (Bool-cases (bytes_eq s sid4)) [
  | inl own ↦ rw (of_session, own) (from, of_session-IsFrom pool sid4 pending all)
  | inr foreign ↦ rw (of_session, foreign) (of_session-IsFrom pool sid4 pending all)
]

module _ ⦃crc : Crc⦄ ⦃prim : Primitives⦄ ⦃deflate : Deflate⦄ ⦃fountain : Fountain⦄ where
  -- Still a receiver of the same transmitter, and a good outcome.
  abbrev pub Continues :
      Beacon → List Bytes → Bytes → Bytes → Receiver → Receiver × Result Ingest → Type 0
  Continues b pool key payload r x = Tracks b pool key x.0 × IsGood b payload r x.0 x.1

  conclude_from :
      (b : Beacon) (pool : List Bytes) (key payload : Bytes) (offer : Offers b pool key payload)
      (r0 r : Receiver) (finished : Option Bytes)
      → Tracks b pool key r
      → r0.beacon ≡ some b
      → r.beacon ≡ r0.beacon
      → IsNoneOr offer.object finished
      → Continues b pool key payload r0 (conclude b (r, finished))
  unfolding conclude
  conclude_from b pool key payload offer r0 r none tracks hb same h = (tracks, same)
  conclude_from b pool key payload offer r0 r (some ct) tracks hb same h = elim tracks.key [
    | inl without ↦
        let step : conclude b (r, some ct) ≡ (r, ok (progress r.received r.needed)) =
          ground arith in
        subst (Continues b pool key payload r0) (sym step) (tracks, same)
    | inr present ↦
        let opened : open_object b key ct ≡ ok payload = ap (open_object b key) h ∙ offer.opens in
        let tracks' : Tracks b pool key (record r { done = true }) = record {
          beacon = tracks.beacon;
          key = tracks.key;
          pending = tracks.pending;
        } in
        let step : conclude b (r, some ct) ≡ (record r { done = true }, ok (done payload)) =
          ground arith in
        subst (Continues b pool key payload r0) (sym step) (tracks', (refl, same ∙ hb))
  ]

  pub absorb_from :
      (b : Beacon) (pool : List Bytes) (key payload : Bytes)
      → Offers b pool key payload
      → (r : Receiver) (packets : List Bytes) → Tracks b pool key r
      → r.beacon ≡ some b
      → All (IsFrom pool) packets
      → Continues b pool key payload r (absorb r packets)
  absorb_from b pool key payload offer r packets tracks hb all = elim tracks.beacon [
    | inl without ↦ cc
    | inr (_, fed_from) ↦
        let queued = of_session (slice 0 4 b.session_id) r.pending ++ packets in
        let from =
          All-append (IsFrom pool) (of_session (slice 0 4 b.session_id) r.pending) packets
            (of_session-IsFrom pool (slice 0 4 b.session_id) r.pending tracks.pending) all in
        let (p, run, f, h, eb, ek, ep) =
          absorb_all_from b pool offer.object offer.recovers queued (record r { pending = [] }) none
            fed_from from tt in
        let tracks' : Tracks b pool key p.0 = record {
          beacon = inr (eb ∙ hb, f);
          key = subst (λ k. (k ≡ none) ⊎ (k ≡ some key)) (sym ek) tracks.key;
          pending = subst (All (λ q. IsFrom pool q.1)) (sym ep) tt;
        } in
        subst (Continues b pool key payload r) (sym (absorb_step r packets hb run))
          (conclude_from b pool key payload offer r p.0 p.1 tracks' hb eb h)
  ]
