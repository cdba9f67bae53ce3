-- ===== src/Pipeline/Receiver/Sessions.antt =====
-- core/src/pipeline.rs: packets of another session never reach the decoder.
use rabaska.Prelude.{
  ◌≡◌, ◌≢◌, refl, sym, subst, ap, ◌∙◌, none, true, List, [], ◌∷◌, ◌++◌, map, arith,
}
use rabaska.Prelude.Bytes.{Bytes, slice, bytes_eq, bytes_eq_ne, bytes_eq_refl}
use rabaska.Wire.Frame.{Crc}
use rabaska.Wire.Beacon.{Beacon}
use rabaska.Wire.Symbol
use rabaska.Crypto.Primitives.{Primitives}
use rabaska.Pipeline.Services.{Deflate, Fountain}
use rabaska.Pipeline.Receiver.{
  Receiver, of_session, hold, restore, absorb, absorb_queued, ingest_beacon, ingest_symbol,
}

pub of_session-append :
    (sid4 : Bytes) (ps qs : List (Bytes × Bytes))
    → of_session sid4 (ps ++ qs) ≡ of_session sid4 ps ++ of_session sid4 qs
unfolding of_session
of_session-append sid4 [] qs = refl
of_session-append sid4 ((s, p) ∷ ps) qs = ground (arith, of_session-append sid4 ps qs)

of_session_foreign :
    (sid4 other : Bytes) (packets : List Bytes)
    → other ≢ sid4
    → of_session sid4 (map (λ p. (other, p)) packets) ≡ []
unfolding of_session
of_session_foreign sid4 other [] ne = refl
of_session_foreign sid4 other (p ∷ packets) ne =
    rw (bytes_eq_ne other sid4 ne) (of_session_foreign sid4 other packets ne)

append-nil_lem : (xs : List Bytes) → xs ++ [] ≡ xs
append-nil_lem [] = refl
append-nil_lem (x ∷ xs) = ap (λ ys. x ∷ ys) (append-nil_lem xs)

stale_lem :
    (sid4 other : Bytes) (pending : List (Bytes × Bytes)) (packets : List Bytes)
    → other ≢ sid4
    → of_session sid4 (pending ++ map (λ p. (other, p)) packets) ≡ of_session sid4 pending
stale_lem sid4 other pending packets ne =
    of_session-append sid4 pending (map (λ p. (other, p)) packets)
    ∙ ap (λ ys. of_session sid4 pending ++ ys) (of_session_foreign sid4 other packets ne)
    ∙ append-nil_lem (of_session sid4 pending)

module _ ⦃crc : Crc⦄ ⦃prim : Primitives⦄ ⦃deflate : Deflate⦄ ⦃fountain : Fountain⦄ where
  abbrev unbeaconed : Receiver → Receiver
  unbeaconed r = record r { beacon = none }

  restore_foreign_lem :
      (r : Receiver) (b : Beacon) (other : Bytes) (stale : List Bytes) (sf : Symbol.SymbolFrame)
      → other ≢ slice 0 4 b.session_id
      → bytes_eq sf.sid4 (slice 0 4 b.session_id) ≡ true
      → ingest_symbol (ingest_beacon (restore (unbeaconed r) other stale) b).0 sf
        ≡ ingest_symbol (ingest_beacon (unbeaconed r) b).0 sf
  unfolding restore hold ingest_beacon ingest_symbol absorb
  restore_foreign_lem r b other stale sf ne own = rw own (
      ap
        (λ q.
          absorb_queued b (record (ingest_beacon (unbeaconed r) b).0 { pending = [] })
            (q ++ sf.packets))
        (stale_lem (slice 0 4 b.session_id) other r.pending stale ne))

  -- A checkpoint of another session that is restored before the beacon is seen leaves no trace: after the
  -- first symbol frame of the beacon's session, the outcome and the whole state are those of a receiver
  -- that never restored it.
  pub restore_foreign :
      (r : Receiver) (b : Beacon) (other : Bytes) (stale : List Bytes) (sf : Symbol.SymbolFrame)
      → r.beacon ≡ none
      → other ≢ slice 0 4 b.session_id
      → sf.sid4 ≡ slice 0 4 b.session_id
      → ingest_symbol (ingest_beacon (restore r other stale) b).0 sf
        ≡ ingest_symbol (ingest_beacon r b).0 sf
  restore_foreign r b other stale sf empty ne own =
      subst
        (λ o.
          ingest_symbol (ingest_beacon (restore (record r { beacon = o }) other stale) b).0 sf
          ≡ ingest_symbol (ingest_beacon (record r { beacon = o }) b).0 sf)
        (sym empty)
        (restore_foreign_lem r b other stale sf ne (
          ap (λ s. bytes_eq s (slice 0 4 b.session_id)) own
          ∙ bytes_eq_refl (slice 0 4 b.session_id)))
