-- ===== src/Handshake/Gate.antt =====
-- core/src/wasm.rs: a first meeting sends nothing of the payload before the digits can be compared.
use rabaska.Prelude.{
  ℕ, ◌≡◌, ◌⊎◌, inl, inr, refl, sym, ap, ◌∙◌, subst, Option, none, some, true, false, ◌&&◌, max,
  arith, Option-cases, Bool-cases,
}
use rabaska.Prelude.Bytes.{Bytes, slice, bytes_eq}
use rabaska.Error.{ok, >>=-eq-ok, Result-cases}
use rabaska.Wire.Frame.{Crc}
use rabaska.Wire.Reveal
use rabaska.Wire.Symbol.{packets_per_frame}
use rabaska.Crypto.Primitives.{Primitives}
use rabaska.Crypto.Keys.{key_pair, derive_for_mode}
use rabaska.Wire.PairReq.{PairReq}
use rabaska.Pipeline.Services.{Deflate, Fountain}
use rabaska.Crypto.Human.{verify_commit, sas}
use rabaska.Pipeline.Transmitter as Tx
use rabaska.Pipeline.Transmitter.{
  Transmitter, OpticalFrame, symbol_frame, beacon_frame, next_frame_packed, next_packets,
}
use rabaska.Handshake.{
  Send, PendingSas, FrameOut, JsResult, returns, reply_to, reply_mode, is_some, accept_reveal,
  release, next_frame, shown,
}

module _ ⦃crc : Crc⦄ where
  next_frame_packed_held :
      (t : Transmitter) (n : ℕ) (p : Transmitter × OpticalFrame)
      → next_frame_packed t n ≡ ok p
      → p.0.held ≡ t.held
  unfolding next_frame_packed
  next_frame_packed_held t n p h = ground arith

  next_frame_at_held :
      (t : Transmitter) (capacity : ℕ) (p : Transmitter × OpticalFrame)
      → Tx.next_frame_at t capacity ≡ ok p
      → p.0.held ≡ t.held
  unfolding Tx.next_frame_at
  next_frame_at_held t capacity p h =
      next_frame_packed_held t (max (packets_per_frame capacity t.packet_len) 1) p h

  next_frame_at_robust :
      (t : Transmitter) (capacity : ℕ) (p : Transmitter × OpticalFrame)
      → Tx.next_frame_at t capacity ≡ ok p
      → t.held ≡ true
      → (b : Bytes) × (p.1 ≡ beacon_frame b)
  unfolding Tx.next_frame_at next_frame_packed
  next_frame_at_robust t capacity p h held = (t.beacon_bytes, ground arith)

module _ ⦃crc : Crc⦄ ⦃prim : Primitives⦄ where
  -- The digits belong to a nonce that opens the commitment of the request.
  abbrev pub Confirmed : PendingSas → Option Bytes → Type 0
  Confirmed p none = ⊥
  Confirmed p (some digits) =
      (nonce : Bytes) × (verify_commit p.session_id p.r_eph_pub nonce p.r_commit ≡ true)
      × (digits ≡ sas p.session_id p.r_eph_pub p.s_eph_pub nonce)

  -- What any sequence of calls can make of a sender: frames shown, frames fed to `accept_reveal`, and
  -- calls of `release`, in any order.
  pub data Steps : Send → Send → Type 0 where
    start : (s : Send) → Steps s s
    showing :
        {s t u : Send} {out : FrameOut} (capacity : ℕ)
        → Steps s t
        → next_frame t capacity ≡ ok (u, out)
        → Steps s u
    revealing : {s t : Send} (frame : Bytes) → Steps s t → Steps s (accept_reveal t frame).0
    releasing : {s t : Send} → Steps s t → Steps s (release t).0

  -- The payload is held, or the digits are there.
  pub record Gated (p : PendingSas) (s : Send) : Type 0 where
    pub pending : s.pending ≡ some p
    pub digits : (s.sas ≡ none) ⊎ Confirmed p s.sas
    pub gate : (s.tx.held ≡ true) ⊎ Confirmed p s.sas

  accept_reveal-Gated :
      (p : PendingSas) (s : Send) (frame : Bytes) → Gated p s → Gated p (accept_reveal s frame).0
  unfolding accept_reveal
  accept_reveal-Gated p s frame g =
      let stay : ((accept_reveal s frame).0 ≡ s) → Gated p (accept_reveal s frame).0 =
        λ e. subst (Gated p) (sym e) g in
      let known = g.pending in
      elim (Result-cases (Reveal.decode frame)) [
        | inl crash ↦ stay (ground arith)
        | inr (inl (e, refused)) ↦ stay (ground arith)
        | inr (inr (rv, read)) ↦
            elim (Bool-cases (
              bytes_eq rv.sid4 (slice 0 4 p.session_id)
              && verify_commit p.session_id p.r_eph_pub rv.r_nonce p.r_commit)) [
                | inr wrong ↦ stay (ground arith)
                | inl right ↦
                    let digits = sas p.session_id p.r_eph_pub p.s_eph_pub rv.r_nonce in
                    let confirmed : Confirmed p (some digits) = (rv.r_nonce, ground arith, refl) in
                    let step : (accept_reveal s frame).0 ≡ record s { sas = some digits } =
                      ground arith in
                    subst (Gated p) (sym step)
                      (record { pending = known; digits = inr confirmed; gate = inr confirmed })
              ]
      ]

  release-Gated : (p : PendingSas) (s : Send) → Gated p s → Gated p (release s).0
  unfolding release is_some
  release-Gated p s g =
      let known = g.pending in
      elim g.digits [
        | inl absent ↦ let step : (release s).0 ≡ s = ground arith in subst (Gated p) (sym step) g
        | inr confirmed ↦ elim (Option-cases s.sas) [
          | inl absent ↦ absurd (subst (Confirmed p) absent confirmed)
          | inr (digits, present) ↦
              let step : (release s).0 ≡ record s { tx = Tx.release s.tx } = ground arith in
              subst (Gated p) (sym step)
                (record { pending = known; digits = inr confirmed; gate = inr confirmed })
        ]
      ]

  next_frame-Gated :
      (p : PendingSas) (s u : Send) (capacity : ℕ) (out : FrameOut)
      → Gated p s
      → next_frame s capacity ≡ ok (u, out)
      → Gated p u
  unfolding next_frame
  next_frame-Gated p s u capacity out g h =
      let (q, shown_by, rest) = >>=-eq-ok (Tx.next_frame_at s.tx capacity) _ h in
      let same : q.0.held ≡ s.tx.held = next_frame_at_held s.tx capacity q shown_by in
      let step : record s { tx = q.0 } ≡ u = ground arith in
      let gate : (q.0.held ≡ true) ⊎ Confirmed p s.sas = elim g.gate [
        | inl held ↦ inl (same ∙ held)
        | inr confirmed ↦ inr confirmed
      ] in
      subst (Gated p) step (record { pending = g.pending; digits = g.digits; gate = gate })

  Steps-Gated : (p : PendingSas) {s t : Send} → Steps s t → Gated p s → Gated p t
  Steps-Gated p (start s) g = g
  Steps-Gated p (showing {t = t} {u = u} {out = out} capacity run h) g =
      next_frame-Gated p t u capacity out (Steps-Gated p run g) h
  Steps-Gated p (revealing {t = t} frame run) g =
      accept_reveal-Gated p t frame (Steps-Gated p run g)
  Steps-Gated p (releasing {t = t} run) g = release-Gated p t (Steps-Gated p run g)

  Gated-symbol :
      (p : PendingSas) (t u : Send) (capacity : ℕ) (out : FrameOut)
      → Gated p t
      → next_frame t capacity ≡ ok (u, out)
      → out.robust ≡ false
      → Confirmed p t.sas
  unfolding next_frame
  Gated-symbol p t u capacity out gated h symbol =
      let (q, shown_by, rest) = >>=-eq-ok (Tx.next_frame_at t.tx capacity) _ h in
      elim gated.gate [
        | inr confirmed ↦ confirmed
        | inl held ↦
            let (b, beacon) = next_frame_at_robust t.tx capacity q shown_by held in
            let same : shown q.1 ≡ out = ground arith in
            let robust : out.robust ≡ true = ap (λ f. f.robust) (sym same ∙ ap shown beacon) in
            absurd (ground arith)
      ]

-- What a sender in PAIR mode remembers of the request and of its own key.
abbrev pub remembered : ⦃prim : Primitives⦄ → PairReq → Bytes → PendingSas
remembered req secret = record {
  session_id = req.session_id;
  r_eph_pub = req.r_eph_pub;
  s_eph_pub = (key_pair secret).public;
  r_commit = req.r_commit;
}

abbrev pub sent_or : Send → JsResult Send → Send
sent_or d (returns s) = s
sent_or d _ = d

module _ ⦃crc : Crc⦄ ⦃prim : Primitives⦄ ⦃deflate : Deflate⦄ ⦃fountain : Fountain⦄ where
  reply_to-Gated :
      (req : PairReq) (secret nonce payload : Bytes) (peer_id : Option Bytes) (build_hash : Bytes)
      (capacity : ℕ) (s : Send)
      → reply_to req secret nonce payload none peer_id build_hash capacity ≡ returns s
      → Gated (remembered req secret) s
  unfolding reply_to reply_mode derive_for_mode Tx.hold
  reply_to-Gated req secret nonce payload peer_id build_hash capacity s h =
      subst (Gated (remembered req secret)) (ap (sent_or s) h)
        (record { pending = refl; digits = inl refl; gate = inl refl })

  -- A sender without an identity that has replied to a request, and on which any calls have been made
  -- since, shows a frame that is not a beacon only if it has digits to compare, those of a nonce that opens
  -- the commitment in the request.
  pub no_symbol_before_confirmation :
      (req : PairReq) (secret nonce payload : Bytes) (peer_id : Option Bytes) (build_hash : Bytes)
      (capacity : ℕ) (s t u : Send) (rung : ℕ) (out : FrameOut)
      → reply_to req secret nonce payload none peer_id build_hash capacity ≡ returns s
      → Steps s t
      → next_frame t rung ≡ ok (u, out)
      → out.robust ≡ false
      → Confirmed (remembered req secret) t.sas
  no_symbol_before_confirmation req secret nonce payload peer_id build_hash capacity s t u rung out
        replied run h symbol =
      let p = remembered req secret in
      let gated = reply_to-Gated req secret nonce payload peer_id build_hash capacity s replied in
      Gated-symbol p t u rung out (Steps-Gated p run gated) h symbol
