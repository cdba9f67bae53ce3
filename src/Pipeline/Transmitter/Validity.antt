-- ===== src/Pipeline/Transmitter/Validity.antt =====
-- core/src/pipeline.rs: the transmitter's invariant, and what each of its frames decodes to.
use rabaska.Prelude.{
  ℕ, zero, suc, ◌≡◌, ◌≢◌, ◌≤◌, ◌<◌, ◌+◌, ◌%◌, ◌^◌, ◌⊎◌, inl, inr, refl, ap, sym, ◌∙◌, max, some,
  true, false, ◌||◌, Bool-cases, List, [], ◌∷◌, length, get_elem?, get_or, All, ◌==◌, ==_ne, arith,
}
use rabaska.Prelude.Bytes.{Bytes, IsArray, slice, slice-IsArray}
use rabaska.Error.{ok}
use native.Mathlib.Nat.{mod-eq_of_lt, mod-add-mod}
use rabaska.Wire.Frame.{Crc}
use rabaska.Wire.Beacon
use rabaska.Wire.Beacon.{Beacon}
use rabaska.Wire.Beacon.RoundTrip as BeaconTrip
use rabaska.Wire.Symbol
use rabaska.Wire.Symbol.{SymbolFrame, packets_per_frame}
use rabaska.Wire.Symbol.RoundTrip as SymbolTrip
use rabaska.Wire.Symbol.Packing.{packets_per_frame_bounds}
use rabaska.Pipeline.Transmitter.{
  Transmitter, OpticalFrame, beacon_frame, symbol_frame, hold, release, set_beacon_interval,
  next_packets, next_frame_packed, next_frame, next_frame_at,
}

pub record IsValid ⦃crc : Crc⦄ (t : Transmitter) : Type 0 where
  pub beacon : Beacon.IsWellFormed t.beacon
  pub beacon_bytes : t.beacon_bytes ≡ Beacon.encode t.beacon
  pub packets : All (IsArray t.packet_len) t.packets
  pub packet_len_pos : 0 < t.packet_len
  pub packet_len_lt : t.packet_len < 256 ^ 2
  pub cursor : t.cursor < length t.packets
  pub frame_id : t.frame_id < 256 ^ 4
  pub interval : 0 < t.beacon_interval
  pub per_frame : t.per_frame ≤ 255

-- `n` packets of the pool repeated without end, from position `k` on.
abbrev pub window : ℕ → List Bytes → ℕ → List Bytes
window zero packets k = []
window (suc n) packets k = get_or packets (k % length packets) [] ∷ window n packets (k + 1)

get_elem?-get_or :
    (xs : List Bytes) (i : ℕ) → i < length xs → get_elem? xs i ≡ some (get_or xs i [])
get_elem?-get_or [] i h = absurd (omega arith)
get_elem?-get_or (x ∷ xs) zero h = refl
get_elem?-get_or (x ∷ xs) (suc i) h = get_elem?-get_or xs i (omega arith)

next_mod : (k n : ℕ) → (k % n + 1) % n ≡ (k + 1) % n
next_mod k n = mod-add-mod k n 1

next_packets-window :
    (n : ℕ) (packets : List Bytes) (k : ℕ)
    → 0 < length packets
    → next_packets n packets (k % length packets)
      ≡ ok (window n packets k, (k + n) % length packets)
unfolding next_packets
next_packets-window zero packets k pos =
    ap (λ j. ok ([], j % length packets)) (let e : k ≡ k + 0 = omega arith in e)
next_packets-window (suc n) packets k pos =
    rw
      (
        next_packets,
        get_elem?-get_or packets (k % length packets) (omega arith),
        next_mod k (length packets),
        next_packets-window n packets (k + 1) pos,
      )
      (ap (λ j. ok (window (suc n) packets k, j % length packets))
        (let e : k + 1 + n ≡ k + suc n = omega arith in e))

get_or-All :
    (w : ℕ) (xs : List Bytes) (i : ℕ)
    → i < length xs
    → All (IsArray w) xs
    → IsArray w (get_or xs i [])
get_or-All w [] i h p = absurd (omega arith)
get_or-All w (x ∷ xs) zero h p = p.0
get_or-All w (x ∷ xs) (suc i) h p = get_or-All w xs i (omega arith) p.1

window-All :
    (w n : ℕ) (packets : List Bytes) (k : ℕ)
    → 0 < length packets
    → All (IsArray w) packets
    → All (IsArray w) (window n packets k)
window-All w zero packets k pos p = tt
window-All w (suc n) packets k pos p = (
  get_or-All w packets (k % length packets) (omega arith) p,
  window-All w n packets (k + 1) pos p,
)

pub length-window : (n : ℕ) (packets : List Bytes) (k : ℕ) → length (window n packets k) ≡ n
length-window zero packets k = refl
length-window (suc n) packets k = ap suc (length-window n packets (k + 1))

-- The symbol frame that stands for `n` packets from the cursor on.
abbrev pub symbols : Transmitter → ℕ → SymbolFrame
symbols t n = record {
  sid4 = slice 0 4 t.beacon.session_id;
  frame_id = t.frame_id;
  packet_len = t.packet_len;
  packets = window n t.packets t.cursor;
}

-- What a receiver reads off a frame of `t`, and when it is which.
abbrev pub Shows : ⦃crc : Crc⦄ → Transmitter → ℕ → OpticalFrame → Type 0
Shows t n (beacon_frame b) =
    ((t.held ≡ true) ⊎ (t.frame_id % t.beacon_interval ≡ 0)) × (Beacon.decode b ≡ ok t.beacon)
Shows t n (symbol_frame b) =
    (t.held ≡ false) × (t.frame_id % t.beacon_interval ≢ 0) × (Symbol.decode b ≡ ok (symbols t n))

module _ ⦃crc : Crc⦄ where
  pub symbols-IsWellFormed :
      (t : Transmitter) (n : ℕ) → IsValid t → n ≤ 255 → Symbol.IsWellFormed (symbols t n)
  symbols-IsWellFormed t n v le = record {
    sid4 = slice-IsArray 0 4 t.beacon.session_id v.beacon.session_id.1 (omega arith);
    frame_id = v.frame_id;
    packet_len = v.packet_len_lt;
    not_empty = v.packet_len_pos;
    count = omega (arith, length-window n t.packets t.cursor);
    packets = window-All t.packet_len n t.packets t.cursor (omega arith) v.packets;
  }

  -- The state after a beacon.
  unfoldable pub wrap : Transmitter → Transmitter
  wrap t = record t { frame_id = (t.frame_id + 1) % 256 ^ 4 }

  -- The state after a frame of `n` packets.
  unfoldable pub advance : Transmitter → ℕ → Transmitter
  advance t n = record t {
    frame_id = (t.frame_id + 1) % 256 ^ 4;
    cursor = (t.cursor + n) % length t.packets;
  }

  pub advance-IsValid : (t : Transmitter) (n : ℕ) → IsValid t → IsValid (advance t n)
  unfolding advance
  advance-IsValid t n v =
      let id : (t.frame_id + 1) % 256 ^ 4 < 256 ^ 4 = omega arith in
      let cursor : (t.cursor + n) % length t.packets < length t.packets = omega arith in
      assumption (id, cursor)

  pub wrap-IsValid : (t : Transmitter) → IsValid t → IsValid (wrap t)
  unfolding wrap
  wrap-IsValid t v = let id : (t.frame_id + 1) % 256 ^ 4 < 256 ^ 4 = omega arith in assumption id

  pub beacon_step :
      (t : Transmitter) (n : ℕ)
      → IsValid t
      → (t.held || t.frame_id % t.beacon_interval == 0) ≡ true
      → next_frame_packed t n ≡ ok (wrap t, beacon_frame t.beacon_bytes)
  unfolding next_frame_packed wrap
  beacon_step t n v due = rw (==_ne t.beacon_interval 0 (λ e. omega arith), due)

  pub symbol_step :
      (t : Transmitter) (n : ℕ)
      → IsValid t
      → (t.held || t.frame_id % t.beacon_interval == 0) ≡ false
      → next_frame_packed t n ≡ ok (advance t n, symbol_frame (Symbol.encode (symbols t n)))
  unfolding next_frame_packed advance
  symbol_step t n v due =
      let here : t.cursor ≡ t.cursor % length t.packets = sym (mod-eq_of_lt v.cursor) in
      let run : next_packets n t.packets t.cursor
          ≡ ok (window n t.packets t.cursor, (t.cursor + n) % length t.packets) =
        ap (next_packets n t.packets) here
        ∙ next_packets-window n t.packets t.cursor (omega arith) in
      rw (==_ne t.beacon_interval 0 (λ e. omega arith), due, run)

  -- From a valid state, a frame of at most 255 packets is produced without a panic, the state stays
  -- valid, and the frame decodes: to the transmitter's beacon if the transmitter holds or the frame's
  -- number is a multiple of the interval, and otherwise to the next packets of the pool, which is
  -- repeated without end.
  pub next_frame_packed-Shows :
      (t : Transmitter) (n : ℕ)
      → IsValid t
      → n ≤ 255
      → (p : Transmitter × OpticalFrame) × (next_frame_packed t n ≡ ok p)
        × IsValid p.0
        × Shows t n p.1
  next_frame_packed-Shows t n v le =
      elim (Bool-cases (t.held || t.frame_id % t.beacon_interval == 0)) [
        | inl due ↦ (
          (wrap t, beacon_frame t.beacon_bytes),
          beacon_step t n v due,
          wrap-IsValid t v,
          (
            ground arith,
            ap Beacon.decode v.beacon_bytes ∙ BeaconTrip.decode-encode t.beacon v.beacon,
          ),
        )
        | inr symbol ↦ (
          (advance t n, symbol_frame (Symbol.encode (symbols t n))),
          symbol_step t n v symbol,
          advance-IsValid t n v,
          (
            ground arith,
            ground arith,
            SymbolTrip.decode-encode (symbols t n) (symbols-IsWellFormed t n v le),
          ),
        )
      ]

  pub next_frame_at_le :
      (capacity packet_len : ℕ) → max (packets_per_frame capacity packet_len) 1 ≤ 255
  next_frame_at_le capacity packet_len =
      let bounds = packets_per_frame_bounds capacity packet_len in omega (arith, bounds.0)

  pub hold-IsValid : (t : Transmitter) → IsValid t → IsValid (hold t)
  unfolding hold
  hold-IsValid t v = assumption

  pub release-IsValid : (t : Transmitter) → IsValid t → IsValid (release t)
  unfolding release
  release-IsValid t v = assumption

  set_beacon_interval-IsValid :
      (t : Transmitter) (n : ℕ) → IsValid t → IsValid (set_beacon_interval t n)
  unfolding set_beacon_interval
  set_beacon_interval-IsValid t n v = let pos : 0 < max n 1 = omega arith in assumption pos

  -- Every method keeps the invariant.
  pub methods-IsValid :
      (t : Transmitter)
      → IsValid t
      → IsValid (hold t)
        × IsValid (release t)
        × ((n : ℕ) → IsValid (set_beacon_interval t n))
        × ((capacity : ℕ)
            → (p : Transmitter × OpticalFrame) × (next_frame_at t capacity ≡ ok p) × IsValid p.0)
        × ((p : Transmitter × OpticalFrame) × (next_frame t ≡ ok p) × IsValid p.0)
  unfolding next_frame next_frame_at
  methods-IsValid t v =
      let at = λ (n : ℕ) (le : n ≤ 255). next_frame_packed-Shows t n v le in
      (
        hold-IsValid t v,
        release-IsValid t v,
        λ n. set_beacon_interval-IsValid t n v,
        λ capacity.
            let shown =
              at (max (packets_per_frame capacity t.packet_len) 1)
                (next_frame_at_le capacity t.packet_len) in
            (shown.0, shown.1, shown.2),
        (let shown = at t.per_frame v.per_frame in (shown.0, shown.1, shown.2)),
      )
