-- ===== src/Pipeline/Receiver/Contract/Unordered.antt =====
-- core/src/pipeline.rs: what the loop of `absorb` learns and counts does not depend on the order of the packets,
-- nor on how often each of them comes.
use rabaska.Prelude.{
  suc, ◌≡◌, ◌≤◌, refl, sym, ap, ◌∙◌, Option, none, some, true, false, ◌||◌, List, [], ◌∷◌, length,
  Bool-cases, inl, inr, if◌then◌else◌, arith,
}
use rabaska.Prelude.Bytes.{Bytes, bytes_eq, bytes_eq→eq, bytes_eq_refl}
use rabaska.Error.{ok}
use rabaska.Wire.Beacon.{Beacon}
use rabaska.Pipeline.Services.{Fountain}
use rabaska.Pipeline.Receiver.{Receiver, contains, absorb_all}
use rabaska.Pipeline.Receiver.Invariant.{IsValid, Distinct}
use rabaska.Pipeline.Receiver.Resume.Absorbing.{contains-false_of}
use rabaska.Pipeline.Receiver.Contract.{carries}
use rabaska.Pipeline.Receiver.Contract.Learning.{absorb_all-Learns}
use rabaska.Pipeline.Receiver.Contract.Sets.{length_ids}

-- The list without the first such identifier.
remove : Bytes → List Bytes → List Bytes
unfolding bytes_eq
remove i [] = []
remove i (j ∷ js) = let rest = remove i js in if bytes_eq j i then js else j ∷ rest

length-remove :
    (i : Bytes) (js : List Bytes) → contains js i ≡ true → length js ≡ suc (length (remove i js))
unfolding remove contains
length-remove i [] h = cc
length-remove i (j ∷ js) h = elim (Bool-cases (bytes_eq j i)) [
  | inl here ↦ ground arith
  | inr later ↦ ground (arith, length-remove i js)
]

contains-remove :
    (i k : Bytes) (js : List Bytes)
    → bytes_eq i k ≡ false
    → contains (remove i js) k ≡ contains js k
unfolding remove contains
contains-remove i k [] differ = refl
contains-remove i k (j ∷ js) differ = elim (Bool-cases (bytes_eq j i)) [
  | inl here ↦
      let other : bytes_eq j k ≡ false = ap (λ l. bytes_eq l k) (bytes_eq→eq j i here) ∙ differ in
      ground arith
  | inr later ↦ ground (arith, contains-remove i k js differ)
]

-- Distinct identifiers that are all among others are not more than these.
Distinct-le :
    (is js : List Bytes)
    → Distinct is
    → ((i : Bytes) → contains is i ≡ true → contains js i ≡ true)
    → length is ≤ length js
unfolding contains
Distinct-le [] js d among = omega arith
Distinct-le (i ∷ is) js (ne, d) among =
    let here : contains js i ≡ true = among i (ground (arith, bytes_eq_refl i)) in
    let shorter = length-remove i js here in
    let rest : (k : Bytes) → contains is k ≡ true → contains (remove i js) k ≡ true = λ k known.
      elim (Bool-cases (bytes_eq i k)) [
        | inl same ↦
            let twice : contains is i ≡ true = ap (contains is) (bytes_eq→eq i k same) ∙ known in
            let once = contains-false_of is i ne in absurd (cc)
        | inr differ ↦ contains-remove i k js differ ∙ among k (ground arith)
      ] in
    omega (arith, Distinct-le is (remove i js) d rest)

same_length :
    (is js : List Bytes)
    → Distinct is
    → Distinct js
    → ((i : Bytes) → contains is i ≡ contains js i)
    → length is ≡ length js
same_length is js d d' same =
    omega (
      arith,
      Distinct-le is js d (λ i h. sym (same i) ∙ h),
      Distinct-le js is d' (λ i h. same i ∙ h),
    )

module _ ⦃fountain : Fountain⦄ where
  counted : (r : Receiver) → IsValid r → r.received ≡ length r.ids
  counted r v = v.received ∙ sym (length_ids r.seen) ∙ sym (ap length v.ids)

  -- Two queues that hold the same identifiers, in whatever order and however often, teach a valid receiver that
  -- has a beacon the same: after each it knows the same identifiers, and counts the same.
  pub absorb_all_unordered :
      (queued queued' : List Bytes) (r : Receiver) (b : Beacon)
      → IsValid r
      → r.beacon ≡ some b
      → ((i : Bytes) → carries queued i ≡ carries queued' i)
      → (p : Receiver × Option Bytes) × (p' : Receiver × Option Bytes) × (absorb_all queued r none
          ≡ ok p)
        × (absorb_all queued' r none ≡ ok p')
        × ((i : Bytes) → contains p.0.ids i ≡ contains p'.0.ids i)
        × (p.0.received ≡ p'.0.received)
  absorb_all_unordered queued queued' r b v hb same =
      let (p, run, l) = absorb_all-Learns queued r none v hb in
      let (p', run', l') = absorb_all-Learns queued' r none v hb in
      let alike : (i : Bytes) → contains p.0.ids i ≡ contains p'.0.ids i =
        λ i. l.known i ∙ ap (λ c. contains r.ids i || c) (same i) ∙ sym (l'.known i) in
      (
        p,
        p',
        run,
        run',
        alike,
        counted p.0 l.valid
            ∙ same_length p.0.ids p'.0.ids l.valid.distinct l'.valid.distinct alike
            ∙ sym (counted p'.0 l'.valid),
      )
