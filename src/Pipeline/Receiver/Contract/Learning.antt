-- ===== src/Pipeline/Receiver/Contract/Learning.antt =====
-- core/src/pipeline.rs: the loop of `absorb`, seen as what it adds to the set of identifiers.
use rabaska.Prelude.{
  ◌≡◌, refl, sym, ap, ◌∙◌, Option, some, true, ◌||◌, List, [], ◌∷◌, ◌++◌, ◌+◌, subst, length, ltb,
  Bool-cases, inl, inr, arith,
}
use rabaska.Prelude.Bytes.{Bytes, bytes_eq, bytes_eq→eq}
use rabaska.Error.{ok, ok_injective}
use rabaska.Wire.Beacon.{Beacon}
use rabaska.Pipeline.Services.{Fountain}
use rabaska.Pipeline.Receiver.{
  Receiver, id_of, contains, feed_unfinished, absorb_packet, absorb_all,
}
use rabaska.Pipeline.Receiver.Known.{contains-append_one}
use rabaska.Pipeline.Receiver.Invariant.{IsValid, has_decoder, absorb_packet_keeps}
use rabaska.Pipeline.Receiver.Contract.{carries}

pub carries-append :
    (ps qs : List Bytes) (i : Bytes) → carries (ps ++ qs) i ≡ (carries ps i || carries qs i)
unfolding carries
carries-append [] qs i = refl
carries-append (p ∷ ps) qs i = ground (arith, carries-append ps qs i)

-- A member is no news.
contains_again :
    (is : List Bytes) (j i : Bytes)
    → contains is j ≡ true
    → contains is i ≡ (contains is i || bytes_eq j i)
contains_again is j i known = elim (Bool-cases (bytes_eq j i)) [
  | inl same ↦
      let here : contains is i ≡ true = ap (contains is) (sym (bytes_eq→eq j i same)) ∙ known in
      ground arith
  | inr other ↦ ground arith
]

module _ ⦃fountain : Fountain⦄ where
  -- A receiver that knows more, and is otherwise as it was.
  pub record Learns (r : Receiver) (queued : List Bytes) (r' : Receiver) : Type 0 where
    pub valid : IsValid r'
    pub beacon : r'.beacon ≡ r.beacon
    pub key : r'.key ≡ r.key
    pub pending : r'.pending ≡ r.pending
    pub needed : r'.needed ≡ r.needed
    pub done : r'.done ≡ r.done
    pub known : (i : Bytes) → contains r'.ids i ≡ (contains r.ids i || carries queued i)

  absorb_packet-Learns :
      (raw : Bytes) (r : Receiver) (finished : Option Bytes) {b : Beacon}
      → IsValid r
      → r.beacon ≡ some b
      → (p : Receiver × Option Bytes) × (absorb_packet raw r finished ≡ ok p)
        × Learns r (raw ∷ []) p.0
  unfolding absorb_packet carries
  absorb_packet-Learns raw r finished v hb =
      let (p, run, v', _, _) = absorb_packet_keeps raw r finished v hb in
      elim (Bool-cases (ltb (length raw) 4)) [
        | inl short ↦
            let step : absorb_packet raw r finished ≡ ok (r, finished) = ground arith in
            (
              (r, finished),
              step,
              record {
                valid = v;
                beacon = refl;
                key = refl;
                pending = refl;
                needed = refl;
                done = refl;
                known = λ i. ground arith;
              },
            )
        | inr long ↦ elim (Bool-cases (contains r.ids (id_of raw))) [
          | inl again ↦
              let step : absorb_packet raw r finished ≡ ok (r, finished) = ground arith in
              (
                (r, finished),
                step,
                record {
                  valid = v;
                  beacon = refl;
                  key = refl;
                  pending = refl;
                  needed = refl;
                  done = refl;
                  known = λ i. ground (arith, contains_again r.ids (id_of raw) i again);
                },
              )
          | inr fresh ↦
              let (dec, hd) = has_decoder r v hb in
              let r' : Receiver = record r {
                ids = r.ids ++ id_of raw ∷ [];
                seen = r.seen ++ raw ∷ [];
                received = r.received + 1;
                decoder = some (feed_unfinished dec raw finished).0;
              } in
              let f' = (feed_unfinished dec raw finished).1 in
              let step : absorb_packet raw r finished ≡ ok (r', f') = ground arith in
              (
                (r', f'),
                step,
                record {
                  valid = subst (λ q. IsValid q.0) (ok_injective (sym run ∙ step)) v';
                  beacon = refl;
                  key = refl;
                  pending = refl;
                  needed = refl;
                  done = refl;
                  known = λ i. ground (arith, contains-append_one r.ids (id_of raw) i);
                },
              )
        ]
      ]

  Learns-trans :
      (r r' r'' : Receiver) (ps qs : List Bytes)
      → Learns r ps r'
      → Learns r' qs r''
      → Learns r (ps ++ qs) r''
  Learns-trans r r' r'' ps qs l m = record {
    valid = m.valid;
    beacon = m.beacon ∙ l.beacon;
    key = m.key ∙ l.key;
    pending = m.pending ∙ l.pending;
    needed = m.needed ∙ l.needed;
    done = m.done ∙ l.done;
    known = λ i.
        (let first = l.known i in let second = m.known i in ground (arith, carries-append ps qs i));
  }

  -- The packets of the loop are known after it, and nothing else that was not.
  pub absorb_all-Learns :
      (queued : List Bytes) (r : Receiver) (finished : Option Bytes) {b : Beacon}
      → IsValid r
      → r.beacon ≡ some b
      → (p : Receiver × Option Bytes) × (absorb_all queued r finished ≡ ok p) × Learns r queued p.0
  unfolding absorb_all carries
  absorb_all-Learns [] r finished v hb = (
    (r, finished),
    refl,
    record {
      valid = v;
      beacon = refl;
      key = refl;
      pending = refl;
      needed = refl;
      done = refl;
      known = λ i. ground arith;
    },
  )
  absorb_all-Learns (raw ∷ queued) r finished v hb =
      let (p, one, l) = absorb_packet-Learns raw r finished v hb in
      let (q, more, m) = absorb_all-Learns queued p.0 p.1 l.valid (l.beacon ∙ hb) in
      (q, rw (one, more), Learns-trans r p.0 q.0 (raw ∷ []) queued l m)
