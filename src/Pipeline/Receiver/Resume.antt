-- ===== src/Pipeline/Receiver/Resume.antt =====
-- core/src/pipeline.rs: a receiver that resumes from a checkpoint goes on as one that was not interrupted.
pub mod Absorbing
use rabaska.Prelude.{
  ◌≡◌, ◌≢◌, ◌≤◌, ◌+◌, refl, ap, ap₂, sym, subst, ◌∙◌, Option, none, some, true, false, ◌||◌, List,
  [], ◌∷◌, ◌++◌, append-nil, append_assoc, length, map, ltb, All, Bool-cases, Option-cases, arith,
  ◌⊎◌, inl, inr, ltb-false→le, le→ltb,
}
use rabaska.Prelude.Bytes.{Bytes, slice, bytes_eq, bytes_eq_ne, bytes_eq_refl}
use rabaska.Error.{Result, ok, Result-cases}
use rabaska.Wire.Frame.{Crc}
use rabaska.Wire.Beacon
use rabaska.Wire.Beacon.{Beacon}
use rabaska.Wire.Symbol
use rabaska.Crypto.Primitives.{Primitives}
use rabaska.Pipeline.Services.{Deflate, Fountain}
use rabaska.Pipeline.Receiver.{
  Receiver, Ingest, id_of, contains, of_session, new, hold, restore, feed_unfinished, absorb_packet,
  absorb_all, open_object, conclude, absorb, ingest_beacon, ingest_symbol, ingest,
}
use rabaska.Pipeline.Receiver.Reading.{ingest_read_beacon, ingest_read_symbol}
use rabaska.Pipeline.Receiver.Invariant.{
  IsValid, Distinct, has_decoder, absorb_packet_keeps, absorb_step, held-IsValid, hold-IsValid,
  new-IsValid, ingest_beacon-Sound,
}
use Absorbing.{SameProgress, absorb_all_new, absorb_all_same}

of_session_own :
    (sid4 : Bytes) (packets : List Bytes) → of_session sid4 (map (λ p. (sid4, p)) packets) ≡ packets
unfolding of_session
of_session_own sid4 [] = refl
of_session_own sid4 (p ∷ packets) = rw (bytes_eq_refl sid4, of_session_own sid4 packets)

module _ ⦃crc : Crc⦄ ⦃prim : Primitives⦄ ⦃deflate : Deflate⦄ ⦃fountain : Fountain⦄ where
  conclude-cases :
      (b : Beacon) (r : Receiver) (f : Option Bytes)
      → ((conclude b (r, f)).0 ≡ r) ⊎ ((conclude b (r, f)).0 ≡ record r { done = true })
  unfolding conclude
  conclude-cases b r none = inl refl
  conclude-cases b r (some ct) = elim (Option-cases r.key) [
    | inl without ↦ inl (ground arith)
    | inr (key, present) ↦ elim (Result-cases (open_object b key ct)) [
      | inl crash ↦ inl (ground arith)
      | inr (inl (e, refused)) ↦ inl (ground arith)
      | inr (inr (plaintext, opened)) ↦ inr (ground arith)
    ]
  ]

  -- The conclusion leaves what was collected.
  conclude-SameProgress :
      (b : Beacon) (r r' : Receiver) (f f' : Option Bytes)
      → SameProgress r r'
      → SameProgress (conclude b (r, f)).0 (conclude b (r', f')).0
  conclude-SameProgress b r r' f f' same =
      let left : SameProgress (conclude b (r, f)).0 r' = elim (conclude-cases b r f) [
        | inl e ↦ subst (λ x. SameProgress x r') (sym e) same
        | inr e ↦
            subst (λ x. SameProgress x r') (sym e)
              (record { seen = same.seen; ids = same.ids; received = same.received })
      ] in
      elim (conclude-cases b r' f') [
        | inl e ↦ subst (SameProgress (conclude b (r, f)).0) (sym e) left
        | inr e ↦
            subst (SameProgress (conclude b (r, f)).0) (sym e)
              (record { seen = left.seen; ids = left.ids; received = left.received })
      ]

  -- A new receiver that restores a checkpoint and then takes the beacon.
  abbrev resumed : Receiver → Beacon → Receiver
  resumed old b = (ingest_beacon (restore new (slice 0 4 b.session_id) old.seen) b).0

  own_symbol :
      (r : Receiver) (b : Beacon) (sf : Symbol.SymbolFrame)
      → r.beacon ≡ some b
      → sf.sid4 ≡ slice 0 4 b.session_id
      → ingest_symbol r sf ≡ absorb r sf.packets
  unfolding ingest_symbol
  own_symbol r b sf hb own =
      let same : bytes_eq sf.sid4 (slice 0 4 b.session_id) ≡ true =
        rw own (bytes_eq_refl (slice 0 4 b.session_id)) in
      ground arith

  resumed-IsValid : (old : Receiver) (b : Beacon) → IsValid (resumed old b)
  unfolding restore
  resumed-IsValid old b =
      (ingest_beacon-Sound (restore new (slice 0 4 b.session_id) old.seen) b
        (hold-IsValid new (slice 0 4 b.session_id) old.seen new-IsValid)).0

  resumed_state :
      (old : Receiver) (b : Beacon)
      → ((resumed old b).beacon ≡ some b)
        × ((resumed old b).pending ≡ map (λ p. (slice 0 4 b.session_id, p)) old.seen)
        × ((resumed old b).ids ≡ [])
        × ((resumed old b).seen ≡ [])
        × ((resumed old b).received ≡ 0)
  unfolding ingest_beacon restore hold new
  resumed_state old b = (refl, refl, refl, refl, refl)

  nothing_pending :
      (sid4 : Bytes) (packets : List Bytes) (r : Receiver)
      → absorb_all (of_session sid4 [] ++ packets) r none ≡ absorb_all packets r none
  unfolding of_session
  nothing_pending sid4 packets r = refl

  -- The progress after a symbol frame of the session.
  symbol-SameProgress :
      (old : Receiver) (b : Beacon) (sf : Symbol.SymbolFrame)
      → IsValid old
      → old.beacon ≡ some b
      → old.pending ≡ []
      → sf.sid4 ≡ slice 0 4 b.session_id
      → SameProgress (ingest_symbol (resumed old b) sf).0 (ingest_symbol old sf).0
  symbol-SameProgress old b sf v hb none_pending own =
      let sid4 = slice 0 4 b.session_id in
      let r = resumed old b in
      let (rb, pending, no_ids, no_seen, no_received) = resumed_state old b in
      let fresh : Receiver = record r { pending = [] } in
      let queued : of_session sid4 r.pending ≡ old.seen =
        ap (of_session sid4) pending ∙ of_session_own sid4 old.seen in
      let d : Distinct (r.ids ++ map id_of old.seen) =
        subst (λ is. Distinct is) (v.ids ∙ ap (λ is. is ++ map id_of old.seen) (sym no_ids))
          v.distinct in
      let (p, taken, vp, pb, seen, ids, received) =
        absorb_all_new old.seen sf.packets fresh none (held-IsValid r [] (resumed-IsValid old b)) rb
          v.long d in
      let old' : Receiver = record old { pending = [] } in
      let same : SameProgress p.0 old' = record {
        seen = seen ∙ ap (λ x. x ++ old.seen) no_seen;
        ids = ids ∙ ap (λ x. x ++ map id_of old.seen) no_ids ∙ sym v.ids;
        received = omega (arith, received, no_received, v.received);
      } in
      let (x, y, run, run', s) =
        absorb_all_same sf.packets p.0 old' p.1 none vp (held-IsValid old [] v) pb hb same in
      let run_new : absorb_all (of_session sid4 r.pending ++ sf.packets) fresh none ≡ ok x =
        ap (λ q. absorb_all (q ++ sf.packets) fresh none) queued ∙ taken ∙ run in
      let run_old : absorb_all (of_session sid4 old.pending ++ sf.packets) old' none ≡ ok y =
        ap (λ q. absorb_all (of_session sid4 q ++ sf.packets) old' none) none_pending
        ∙ nothing_pending sid4 sf.packets old'
        ∙ run' in
      let new_step = own_symbol r b sf rb own ∙ absorb_step r sf.packets rb run_new in
      let old_step = own_symbol old b sf hb own ∙ absorb_step old sf.packets hb run_old in
      subst (λ z. SameProgress z.0 (ingest_symbol old sf).0) (sym new_step)
        (subst (λ z. SameProgress (conclude b x).0 z.0) (sym old_step)
          (conclude-SameProgress b x.0 y.0 x.1 y.1 s))

  -- A new receiver that restores the checkpoint of an old one, under the prefix of the session, and then
  -- sees a frame.
  abbrev pub restarted : Receiver → Beacon → Bytes → Receiver
  restarted old b beacon_frame =
      (ingest (restore new (slice 0 4 b.session_id) old.seen) beacon_frame).0

  resumed_open : (old : Receiver) (b : Beacon) → (resumed old b).done ≡ false
  unfolding ingest_beacon restore hold new
  resumed_open old b = refl

  restored_open : (sid4 : Bytes) (packets : List Bytes) → (restore new sid4 packets).done ≡ false
  unfolding restore hold new
  restored_open sid4 packets = refl

  -- A receiver has a beacon, nothing pending, and is not done. It loses everything but its checkpoint, and a
  -- new one restores the checkpoint and is shown a frame with the same beacon. After the next symbol frame of
  -- this session both have the packets, the identifiers and the count in common.
  pub resume-SameProgress :
      (old : Receiver) (b : Beacon) (beacon_frame frame : Bytes) (sf : Symbol.SymbolFrame)
      → IsValid old
      → old.beacon ≡ some b
      → old.pending ≡ []
      → old.done ≡ false
      → Beacon.decode beacon_frame ≡ ok b
      → Symbol.decode frame ≡ ok sf
      → sf.sid4 ≡ slice 0 4 b.session_id
      → SameProgress (ingest (restarted old b beacon_frame) frame).0 (ingest old frame).0
  resume-SameProgress old b beacon_frame frame sf v hb none_pending open_still seen_beacon read
        own =
      let sid4 = slice 0 4 b.session_id in
      let again : restarted old b beacon_frame ≡ resumed old b =
        ap (λ z. z.0)
          (ingest_read_beacon (restore new sid4 old.seen) beacon_frame b
            (restored_open sid4 old.seen) seen_beacon) in
      let new_step : ingest (restarted old b beacon_frame) frame
          ≡ ingest_symbol (resumed old b) sf =
        ap (λ r. ingest r frame) again
        ∙ ingest_read_symbol (resumed old b) frame sf (resumed_open old b) read in
      let old_step = ingest_read_symbol old frame sf open_still read in
      subst (λ z. SameProgress z.0 (ingest old frame).0) (sym new_step)
        (subst (λ z. SameProgress (ingest_symbol (resumed old b) sf).0 z.0) (sym old_step)
          (symbol-SameProgress old b sf v hb none_pending own))
