-- ===== src/Pipeline/Receiver/Contract/Sets.antt =====
-- core/src/pipeline.rs: the queue and the checkpoint of a receiver as sets.
use rabaska.Prelude.{
  ℕ, ◌≡◌, ◌≢◌, refl, sym, ap, subst, ◌∙◌, none, true, false, ◌||◌, ◌&&◌, List, [], ◌∷◌, ◌++◌,
  length, map, ◌==◌, Bool-cases, Option-cases, inl, inr, arith,
}
use rabaska.Prelude.Bytes.{Bytes, slice, bytes_eq, bytes_eq→eq, bytes_eq_refl}
use rabaska.Wire.Beacon.{Beacon}
use rabaska.Wire.Symbol
use rabaska.Pipeline.Services.{Fountain}
use rabaska.Pipeline.Receiver.{Receiver, id_of, contains, of_session, hold, restore}
use rabaska.Pipeline.Receiver.Invariant.{IsValid}
use rabaska.Pipeline.Receiver.Sessions.{of_session-append}
use rabaska.Pipeline.Receiver.Contract.{
  carries, view, Counts, Holds, Gathers, Restores, taken, dropped,
}
use rabaska.Pipeline.Receiver.Contract.Learning.{carries-append, Learns}

carries_queued :
    (sid4 own : Bytes) (packets : List Bytes) (i : Bytes)
    → carries (of_session sid4 (map (λ p. (own, p)) packets)) i
      ≡ (bytes_eq own sid4 && carries packets i)
unfolding carries of_session
carries_queued sid4 own [] i = ground arith
carries_queued sid4 own (p ∷ packets) i = ground (arith, carries_queued sid4 own packets i)

pub bytes_eq-ne : (xs ys : Bytes) → bytes_eq xs ys ≡ false → xs ≢ ys
bytes_eq-ne xs ys differ e = let yes : bytes_eq xs ys ≡ true = rw e (bytes_eq_refl ys) in cc

pub ==→eq : (m n : ℕ) → (m == n) ≡ true → m ≡ n
==→eq m n same = ground arith

pub length_ids : (ps : List Bytes) → length (map id_of ps) ≡ length ps
length_ids [] = refl
length_ids (p ∷ ps) = omega (arith, length_ids ps)

module _ ⦃fountain : Fountain⦄ where
  pub received-Counts : (r : Receiver) → IsValid r → Counts (view r).known r.received
  received-Counts r v =
      (r.ids, v.distinct, ap length v.ids ∙ length_ids r.seen ∙ sym v.received, λ i. refl)

  -- The packets that a receiver puts aside.
  pending-Holds :
      (r : Receiver) (own : Bytes) (packets : List Bytes)
      → Holds
          (view r)
          own
          packets
          (view (record r { pending = r.pending ++ map (λ p. (own, p)) packets }))
  pending-Holds r own packets = record {
    beacon = refl;
    key = refl;
    held = λ sid4 i.
        ap (λ ps. carries ps i) (of_session-append sid4 r.pending (map (λ p. (own, p)) packets))
        ∙ carries-append (of_session sid4 r.pending) (of_session sid4 (map (λ p. (own, p)) packets))
            i
        ∙ ap (λ c. carries (of_session sid4 r.pending) i || c) (carries_queued sid4 own packets i);
    known = λ i. refl;
    needed = refl;
    done = refl;
  }

  pub hold-Holds :
      (r : Receiver) (own : Bytes) (packets : List Bytes)
      → r.beacon ≡ none
      → Holds (view r) own packets (view (hold r own packets))
  unfolding hold
  hold-Holds r own packets without =
      let r' : Receiver = record r { pending = r.pending ++ map (λ p. (own, p)) packets } in
      let step : hold r own packets ≡ r' = ground arith in
      subst (λ x. Holds (view r) own packets (view x)) (sym step) (pending-Holds r own packets)

  pub restore-Restores :
      (r : Receiver) (session_id : Bytes) (packets : List Bytes)
      → Restores session_id packets (view r) (view (restore r session_id packets))
  unfolding restore hold
  restore-Restores r session_id packets = elim (Option-cases r.beacon) [
    | inl without ↦ taken (inl without) (hold-Holds r session_id packets without)
    | inr (b, present) ↦ elim (Bool-cases (bytes_eq session_id (slice 0 4 b.session_id))) [
      | inl same ↦
          let r' : Receiver = record r {
            pending = r.pending ++ map (λ p. (session_id, p)) packets;
          } in
          let step : restore r session_id packets ≡ r' = ground arith in
          subst (λ x. Restores session_id packets (view r) (view x)) (sym step)
            (taken (inr (b, present, bytes_eq→eq session_id (slice 0 4 b.session_id) same))
              (pending-Holds r session_id packets))
      | inr differ ↦
          let step : restore r session_id packets ≡ r = ground arith in
          subst (λ x. Restores session_id packets (view r) (view x)) (sym step)
            (dropped present (bytes_eq-ne session_id (slice 0 4 b.session_id) differ))
    ]
  ]

  pub Learns-Gathers :
      (r r' : Receiver) (b : Beacon) (sf : Symbol.SymbolFrame)
      → Learns
          (record r { pending = [] })
          (of_session (slice 0 4 b.session_id) r.pending ++ sf.packets)
          r'
      → Gathers b (view r) sf (view r')
  unfolding carries of_session
  Learns-Gathers r r' b sf l = record {
    beacon = l.beacon;
    key = l.key;
    held = λ sid4 i. ap (λ ps. carries (of_session sid4 ps) i) l.pending;
    known = λ i.
        l.known i
        ∙ ap (λ c. contains r.ids i || c)
            (carries-append (of_session (slice 0 4 b.session_id) r.pending) sf.packets i);
    needed = l.needed;
  }
