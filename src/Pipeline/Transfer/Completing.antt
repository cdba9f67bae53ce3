-- ===== src/Pipeline/Transfer/Completing.antt =====
-- core/src/pipeline.rs: a keyed receiver that has been shown every packet of the pool has delivered.
use rabaska.Prelude.{
  ℕ, zero, suc, ◌+◌, ◌≡◌, ◌≤◌, ◌<◌, ◌⊎◌, inl, inr, refl, sym, ap, subst, ◌∙◌, Option, none, some,
  true, false, ◌||◌, List, [], ◌∷◌, ◌++◌, length, map, get_or, ltb, le→ltb, All, All-append,
  Bool-cases, Option-cases, arith,
}
use rabaska.Prelude.Bytes.{Bytes, bytes_eq, bytes_eq→eq}
use rabaska.Error.{ok}
use rabaska.Wire.Beacon.{Beacon}
use rabaska.Pipeline.Services.{Fountain}
use rabaska.Pipeline.Receiver.{
  Receiver, id_of, contains, feed_unfinished, absorb_packet, absorb_all,
}
use rabaska.Pipeline.Receiver.Known.{map-append_one, contains_still, contains_last}
use rabaska.Pipeline.Transfer.{IsFrom, IsNoneOr, fed, Recovers}
use rabaska.Pipeline.Transfer.Absorbing.{fed-append}

-- Every packet of the pool is among `ps`.
abbrev pub Covers : List Bytes → List Bytes → Type 0
Covers pool ps = (i : ℕ) → i < length pool → IsFrom ps (get_or pool i [])

-- The fountain code, once more: from all the packets of the pool its decoder does make the object; and packets
-- are told apart by their identifiers, which have four bytes.
pub record Completes ⦃fountain : Fountain⦄ (oti object : Bytes) (pool : List Bytes) : Type 0 where
  pub feed :
      (ps : List Bytes) (p : Bytes)
      → All (IsFrom pool) ps
      → IsFrom pool p
      → Covers pool (ps ++ p ∷ [])
      → (fountain.feed (fed (fountain.new_decoder oti) ps) p).1 ≡ some object
  pub same_id : (p q : Bytes) → IsFrom pool p → IsFrom pool q → id_of p ≡ id_of q → p ≡ q
  pub long : (p : Bytes) → IsFrom pool p → 4 ≤ length p

-- What the identifiers contain, some packet has.
contains-map :
    (ps : List Bytes) (i : Bytes)
    → contains (map id_of ps) i ≡ true
    → (p : Bytes) × IsFrom ps p × (id_of p ≡ i)
unfolding contains
contains-map [] i h = cc
contains-map (p ∷ ps) i h = elim (Bool-cases (bytes_eq (id_of p) i)) [
  | inl here ↦ (p, (zero, omega arith, refl), bytes_eq→eq (id_of p) i here)
  | inr later ↦
      let (q, (k, lt, at), same) = contains-map ps i (ground arith) in
      (q, (suc k, omega arith, at), same)
]

All-IsFrom : (P : Bytes → Type 0) (ps : List Bytes) (p : Bytes) → All P ps → IsFrom ps p → P p
All-IsFrom P [] p h (i, lt, at) = absurd (omega arith)
All-IsFrom P (q ∷ ps) p (h, hs) (zero, lt, at) = subst P at h
All-IsFrom P (q ∷ ps) p (h, hs) (suc i, lt, at) = All-IsFrom P ps p hs (i, omega arith, at)

All-split :
    (P : Bytes → Type 0) (ps : List Bytes) (p : Bytes) → All P (ps ++ p ∷ []) → All P ps × P p
All-split P [] p (h, _) = (tt, h)
All-split P (q ∷ ps) p (h, hs) = let (front, last) = All-split P ps p hs in ((h, front), last)

module _ ⦃fountain : Fountain⦄ (b : Beacon) (pool : List Bytes) (key : Bytes) where
  abbrev start : fountain.Decoder
  start = fountain.new_decoder b.oti

  -- The packets came one by one, and with the last of them the decoder had not finished.
  abbrev Unfinished : List Bytes → Type 0
  Unfinished seen =
      (seen ≡ [])
      ⊎ ((ps : List Bytes) × (p : Bytes) × (seen ≡ ps ++ p ∷ [])
          × ((fountain.feed (fed start ps) p).1 ≡ none))

  -- A keyed receiver at work on the pool.
  pub record Collects (r : Receiver) : Type 0 where
    pub beacon : r.beacon ≡ some b
    pub keyed : r.key ≡ some key
    pub decoder : r.decoder ≡ some (fed start r.seen)
    pub from : All (IsFrom pool) r.seen
    pub ids : r.ids ≡ map id_of r.seen
    pub unfinished : Unfinished r.seen

  -- The packet is known.
  abbrev pub Knows : Receiver → Bytes → Type 0
  Knows r p = contains r.ids (id_of p) ≡ true

  -- The object is there, with all that opens it.
  abbrev pub HasObject : Bytes → Receiver × Option Bytes → Type 0
  HasObject object p =
      (p.1 ≡ some object) × (p.0.key ≡ some key) × ((d : fountain.Decoder) × (p.0.decoder ≡ some d))

  -- Still at work, nothing forgotten.
  abbrev pub GoesOn : Receiver → Receiver × Option Bytes → Type 0
  GoesOn r p =
      (p.1 ≡ none)
      × Collects p.0
      × ((q : Bytes) → Knows r q → Knows p.0 q)
      × (p.0.pending ≡ r.pending)
      × (p.0.done ≡ r.done)

  module _ (object : Bytes) (sound : Recovers b.oti object pool)
      (law : Completes b.oti object pool) where
    -- The object, once found, stays.
    absorb_all_finished :
        (queued : List Bytes) (r : Receiver)
        → HasObject object (r, some object)
        → (p : Receiver × Option Bytes) × (absorb_all queued r (some object) ≡ ok p)
          × HasObject object p
    unfolding absorb_all absorb_packet feed_unfinished
    absorb_all_finished [] r h = ((r, some object), refl, h)
    absorb_all_finished (raw ∷ queued) r (same, keyed, (d, hd)) =
        elim (Bool-cases (ltb (length raw) 4 || contains r.ids (id_of raw))) [
          | inl skip ↦
              let (p, run, h) = absorb_all_finished queued r (same, keyed, (d, hd)) in
              let step : absorb_packet raw r (some object) ≡ ok (r, some object) = ground arith in
              (p, rw (step, run), h)
          | inr fresh ↦
              let r' : Receiver = record r {
                ids = r.ids ++ id_of raw ∷ [];
                seen = r.seen ++ raw ∷ [];
                received = r.received + 1;
                decoder = some d;
              } in
              let (p, run, h) = absorb_all_finished queued r' (refl, keyed, (d, refl)) in
              let step : absorb_packet raw r (some object) ≡ ok (r', some object) = ground arith in
              (p, rw (step, run), h)
        ]

    -- One packet of the pool: it is known, or the decoder takes it.
    absorb_packet_step :
        (raw : Bytes) (r : Receiver)
        → Collects r
        → IsFrom pool raw
        → (p : Receiver × Option Bytes) × (absorb_packet raw r none ≡ ok p)
          × (HasObject object p ⊎ (GoesOn r p × Knows p.0 raw))
    unfolding absorb_packet feed_unfinished
    absorb_packet_step raw r c from = elim (Bool-cases (contains r.ids (id_of raw))) [
      | inl known ↦ ((r, none), ground arith, inr ((refl, c, (λ q h. h), refl, refl), known))
      | inr new ↦
          let long = law.long raw from in
          let short : ltb (length raw) 4 ≡ false = le→ltb (length raw) 4 long in
          let dec = fed start r.seen in
          let hd = c.decoder in
          let r' : Receiver = record r {
            ids = r.ids ++ id_of raw ∷ [];
            seen = r.seen ++ raw ∷ [];
            received = r.received + 1;
            decoder = some (fountain.feed dec raw).0;
          } in
          let step : absorb_packet raw r none ≡ ok (r', (fountain.feed dec raw).1) = ground arith in
          elim (Option-cases (fountain.feed dec raw).1) [
            | inr (o, found) ↦
                let same : o ≡ object =
                  subst (IsNoneOr object) found (sound.feed r.seen raw c.from from) in
                (
                  (r', (fountain.feed dec raw).1),
                  step,
                  inl (found ∙ ap some same, c.keyed, ((fountain.feed dec raw).0, refl)),
                )
            | inl nothing ↦
                let c' : Collects r' = record {
                  beacon = c.beacon;
                  keyed = c.keyed;
                  decoder = ap some (sym (fed-append start r.seen raw));
                  from = All-append (IsFrom pool) r.seen (raw ∷ []) c.from (from, tt);
                  ids = ap (λ is. is ++ id_of raw ∷ []) c.ids ∙ sym (map-append_one r.seen raw);
                  unfinished = inr (r.seen, raw, refl, nothing);
                } in
                (
                  (r', (fountain.feed dec raw).1),
                  step,
                  inr (
                    (
                      nothing,
                      c',
                      (λ q h. contains_still r.ids (id_of raw) (id_of q) h),
                      refl,
                      refl,
                    ),
                    contains_last r.ids (id_of raw),
                  ),
                )
          ]
    ]

    pub absorb_all_step :
        (queued : List Bytes) (r : Receiver)
        → Collects r
        → All (IsFrom pool) queued
        → (p : Receiver × Option Bytes) × (absorb_all queued r none ≡ ok p)
          × (HasObject object p ⊎ (GoesOn r p × All (Knows p.0) queued))
    unfolding absorb_all
    absorb_all_step [] r c from = ((r, none), refl, inr ((refl, c, (λ q h. h), refl, refl), tt))
    absorb_all_step (raw ∷ queued) r c (from, all) =
        let (p, one, which) = absorb_packet_step raw r c from in
        elim which [
          | inl (found, keyed, decoder) ↦
              let (q, run, h) = absorb_all_finished queued p.0 (refl, keyed, decoder) in
              (q, rw (one, found, run), inl h)
          | inr ((nothing, c', keeps, pend, dn), known) ↦
              let (q, run, which') = absorb_all_step queued p.0 c' all in
              (
                q,
                rw (one, nothing, run),
                elim which' [
                  | inl h ↦ inl h
                  | inr ((nothing', c'', keeps', pend', dn'), known') ↦ inr (
                    (nothing', c'', (λ x h. keeps' x (keeps x h)), pend' ∙ pend, dn' ∙ dn),
                    (keeps' raw known, known'),
                  )
                ],
              )
        ]

    -- A receiver that is still at work does not know every packet.
    pub not_all_known :
        (r : Receiver)
        → 0 < length pool
        → Collects r
        → ¬ ((i : ℕ) → i < length pool → Knows r (get_or pool i []))
    not_all_known r pos c known =
        let covers : Covers pool r.seen = λ i lt.
          let q = get_or pool i [] in
          let (p, here, same) =
            contains-map r.seen (id_of q)
              (subst (λ is. contains is (id_of q) ≡ true) c.ids (known i lt)) in
          subst (IsFrom r.seen)
            (law.same_id p q (All-IsFrom (IsFrom pool) r.seen p c.from here) (i, lt, refl) same)
            here in
        elim c.unfinished [
          | inl empty ↦
              let (k, lt, at) = subst (λ ps. IsFrom ps (get_or pool 0 [])) empty (covers 0 pos) in
              omega arith
          | inr (ps, p, last, nothing) ↦
              let from = subst (All (IsFrom pool)) last c.from in
              let (front, of_pool) = All-split (IsFrom pool) ps p from in
              let finds = law.feed ps p front of_pool (subst (Covers pool) last covers) in cc
        ]
