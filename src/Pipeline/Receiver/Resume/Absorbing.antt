-- ===== src/Pipeline/Receiver/Resume/Absorbing.antt =====
-- core/src/pipeline.rs: packets that are new are all taken in, and what is taken in depends on the progress.
use rabaska.Prelude.{
  ◌≡◌, ◌≢◌, ◌≤◌, ◌+◌, refl, ap, sym, subst, ◌∙◌, Option, some, true, false, ◌||◌, List, [], ◌∷◌,
  ◌++◌, append-nil, append_assoc, length, map, ltb, All, Bool-cases, arith, inl, inr, le→ltb,
}
use rabaska.Prelude.Bytes.{Bytes, bytes_eq_ne}
use rabaska.Error.{ok}
use rabaska.Wire.Beacon.{Beacon}
use rabaska.Pipeline.Services.{Fountain}
use rabaska.Pipeline.Receiver.{
  Receiver, id_of, contains, feed_unfinished, absorb_packet, absorb_all,
}
use rabaska.Pipeline.Receiver.Invariant.{IsValid, Distinct, has_decoder, absorb_packet_keeps}

-- The same packets, in the same order, and so the same checkpoint and the same count.
pub record SameProgress ⦃fountain : Fountain⦄ (r r' : Receiver) : Type 0 where
  pub seen : r.seen ≡ r'.seen
  pub ids : r.ids ≡ r'.ids
  pub received : r.received ≡ r'.received

pub contains-false_of : (is : List Bytes) (i : Bytes) → All (λ j. j ≢ i) is → contains is i ≡ false
unfolding contains
contains-false_of [] i h = refl
contains-false_of (j ∷ is) i (ne, h) = rw (bytes_eq_ne j i ne, contains-false_of is i h)

-- What comes behind in a list of distinct identifiers is not before it.
Distinct-before :
    (is : List Bytes) (i : Bytes) (js : List Bytes) → Distinct (is ++ i ∷ js) → All (λ j. j ≢ i) is
Distinct-before [] i js d = tt
Distinct-before (k ∷ is) i js (ne, d) = ((λ e. here is ne (sym e)), Distinct-before is i js d)
  where
    here : (is : List Bytes) → All (λ j. j ≢ k) (is ++ i ∷ js) → i ≢ k
    here [] (ne, h) = ne
    here (l ∷ is) (ne, h) = here is h

module _ ⦃fountain : Fountain⦄ where
  absorb_new :
      (raw : Bytes) (r : Receiver) (finished : Option Bytes) (dec : fountain.Decoder)
      → ltb (length raw) 4 ≡ false
      → contains r.ids (id_of raw) ≡ false
      → r.decoder ≡ some dec
      → (p : Receiver × Option Bytes) × (absorb_packet raw r finished ≡ ok p)
        × (p.0.seen ≡ r.seen ++ raw ∷ [])
        × (p.0.ids ≡ r.ids ++ id_of raw ∷ [])
        × (p.0.received ≡ r.received + 1)
  unfolding absorb_packet
  absorb_new raw r finished dec long fresh hd =
      let r' : Receiver = record r {
        ids = r.ids ++ id_of raw ∷ [];
        seen = r.seen ++ raw ∷ [];
        received = r.received + 1;
        decoder = some (feed_unfinished dec raw finished).0;
      } in
      ((r', (feed_unfinished dec raw finished).1), ground arith, refl, refl, refl)

  absorb_known :
      (raw : Bytes) (r : Receiver) (finished : Option Bytes)
      → (ltb (length raw) 4 || contains r.ids (id_of raw)) ≡ true
      → absorb_packet raw r finished ≡ ok (r, finished)
  unfolding absorb_packet
  absorb_known raw r finished skip = ground arith

  -- New packets are all taken in.
  pub absorb_all_new :
      (queued more : List Bytes) (r : Receiver) (finished : Option Bytes) {b : Beacon}
      → IsValid r
      → r.beacon ≡ some b
      → All (λ p. 4 ≤ length p) queued
      → Distinct (r.ids ++ map id_of queued)
      → (p : Receiver × Option Bytes) × (absorb_all (queued ++ more) r finished
          ≡ absorb_all more p.0 p.1)
        × IsValid p.0
        × (p.0.beacon ≡ some b)
        × (p.0.seen ≡ r.seen ++ queued)
        × (p.0.ids ≡ r.ids ++ map id_of queued)
        × (p.0.received ≡ r.received + length queued)
  unfolding absorb_all
  absorb_all_new [] more r finished v hb long d =
      ((r, finished), refl, v, hb, sym (append-nil r.seen), sym (append-nil r.ids), omega arith)
  absorb_all_new (raw ∷ queued) more r finished {b = b} v hb (here, long) d =
      let (dec, hd) = has_decoder r v hb in
      let fresh =
        contains-false_of r.ids (id_of raw)
          (Distinct-before r.ids (id_of raw) (map id_of queued) d) in
      let (p, one, seen, ids, received) =
        absorb_new raw r finished dec (le→ltb (length raw) 4 here) fresh hd in
      let (q, kept, v', hb', _) = absorb_packet_keeps raw r finished v hb in
      let same : q ≡ p = cc in
      let vp = subst (λ x. IsValid x.0) same v' in
      let hbp = subst (λ x. x.0.beacon ≡ some b) same hb' in
      let d' =
        subst (λ is. Distinct is)
          (sym (append_assoc r.ids (id_of raw ∷ []) (map id_of queued))
            ∙ ap (λ is. is ++ map id_of queued) (sym ids))
          d in
      let (s, rest, vs, hbs, seen', ids', received') =
        absorb_all_new queued more p.0 p.1 vp hbp long d' in
      (
        s,
        rw one rest,
        vs,
        hbs,
        seen' ∙ ap (λ x. x ++ queued) seen ∙ append_assoc r.seen (raw ∷ []) queued,
        ids'
            ∙ ap (λ x. x ++ map id_of queued) ids
            ∙ append_assoc r.ids (id_of raw ∷ []) (map id_of queued),
        omega arith,
      )

  -- Two receivers with the same progress make the same progress.
  pub absorb_all_same :
      (queued : List Bytes) (r r' : Receiver) (f f' : Option Bytes) {b b' : Beacon}
      → IsValid r
      → IsValid r'
      → r.beacon ≡ some b
      → r'.beacon ≡ some b'
      → SameProgress r r'
      → (p q : Receiver × Option Bytes) × (absorb_all queued r f ≡ ok p)
        × (absorb_all queued r' f' ≡ ok q)
        × SameProgress p.0 q.0
  unfolding absorb_all
  absorb_all_same [] r r' f f' v v' hb hb' same = ((r, f), (r', f'), refl, refl, same)
  absorb_all_same (raw ∷ queued) r r' f f' {b = b} {b' = b'} v v' hb hb' same =
      elim (Bool-cases (ltb (length raw) 4 || contains r.ids (id_of raw))) [
        | inl skip ↦
            let one = absorb_known raw r f skip in
            let skip' =
              subst (λ is. (ltb (length raw) 4 || contains is (id_of raw)) ≡ true) same.ids skip in
            let one' = absorb_known raw r' f' skip' in
            let (p, q, run, run', s) = absorb_all_same queued r r' f f' v v' hb hb' same in
            (p, q, rw (one, run), rw (one', run'), s)
        | inr take_it ↦
            let (dec, hd) = has_decoder r v hb in
            let (dec', hd') = has_decoder r' v' hb' in
            let long : ltb (length raw) 4 ≡ false = ground arith in
            let fresh : contains r.ids (id_of raw) ≡ false = ground arith in
            let (p, one, seen, ids, received) = absorb_new raw r f dec long fresh hd in
            let (p', one', seen', ids', received') =
              absorb_new raw r' f' dec' long
                (subst (λ is. contains is (id_of raw) ≡ false) same.ids fresh) hd' in
            let (q, kept, vq, hbq, _) = absorb_packet_keeps raw r f v hb in
            let (q', kept', vq', hbq', _) = absorb_packet_keeps raw r' f' v' hb' in
            let eq : q ≡ p = cc in
            let eq' : q' ≡ p' = cc in
            let next : SameProgress p.0 p'.0 = record {
              seen = seen ∙ ap (λ x. x ++ raw ∷ []) same.seen ∙ sym seen';
              ids = ids ∙ ap (λ x. x ++ id_of raw ∷ []) same.ids ∙ sym ids';
              received = received ∙ ap (λ x. x + 1) same.received ∙ sym received';
            } in
            let (x, y, run, run', s) =
              absorb_all_same queued p.0 p'.0 p.1 p'.1 (subst (λ x. IsValid x.0) eq vq)
                (subst (λ x. IsValid x.0) eq' vq') (subst (λ x. x.0.beacon ≡ some b) eq hbq)
                (subst (λ x. x.0.beacon ≡ some b') eq' hbq') next in
            (x, y, rw (one, run), rw (one', run'), s)
      ]
