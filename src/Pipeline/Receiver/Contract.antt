-- ===== src/Pipeline/Receiver/Contract.antt =====
-- core/src/pipeline.rs: what the receiver promises, without its queue, its order and its decoder. A packet is
-- its identifier, and the receiver is the set of the identifiers that it knows.
pub mod Learning
pub mod Sets
pub mod Refinement
pub mod Unordered
use rabaska.Prelude.{
  ℕ, ◌≡◌, ◌≢◌, ◌⊎◌, Option, none, some, Bool, true, false, not, ◌||◌, ◌&&◌, List, [], ◌∷◌, length,
  ltb,
}
use rabaska.Prelude.Bytes.{Bytes, slice, bytes_eq}
use rabaska.Error.{Error, Result, ok, err, panic, foreign_session, bad_frame_type}
use rabaska.Wire.Types.{beacon_type, symbol_type}
use rabaska.Wire.Frame.{Crc, peek_type}
use rabaska.Wire.Beacon
use rabaska.Wire.Beacon.{Beacon}
use rabaska.Wire.Symbol
use rabaska.Crypto.Primitives.{Primitives}
use rabaska.Pipeline.Services.{Deflate, Fountain}
use rabaska.Pipeline.Receiver.{
  Receiver, Ingest, ignored, beacon_acquired, progress, done, id_of, contains, of_session,
  symbols_needed, open_object,
}
use rabaska.Pipeline.Receiver.Invariant.{Distinct}

-- Whether one of the packets has the identifier; a packet that is too short for one has none.
unfoldable pub carries : List Bytes → Bytes → Bool
unfolding bytes_eq
carries [] i = false
carries (p ∷ ps) i = (not (ltb (length p) 4) && bytes_eq (id_of p) i) || carries ps i

-- The transfer, and the packets by their identifiers: those that wait for their session and those that are known.
pub record View : Type 0 where
  pub beacon : Option Beacon
  pub key : Option Bytes
  pub held : Bytes → Bytes → Bool
  pub known : Bytes → Bool
  pub needed : ℕ
  pub done : Bool

abbrev pub view : ⦃fountain : Fountain⦄ → Receiver → View
view r = record {
  beacon = r.beacon;
  key = r.key;
  held = λ sid4 i. carries (of_session sid4 r.pending) i;
  known = λ i. contains r.ids i;
  needed = r.needed;
  done = r.done;
}

-- The set has `n` members.
abbrev pub Counts : (Bytes → Bool) → ℕ → Type 0
Counts known n =
    (is : List Bytes) × Distinct is × (length is ≡ n) × ((i : Bytes) → known i ≡ contains is i)

-- The packets wait, with those that wait already.
pub record Holds (v : View) (own : Bytes) (packets : List Bytes) (v' : View) : Type 0 where
  pub beacon : v'.beacon ≡ v.beacon
  pub key : v'.key ≡ v.key
  pub held :
      (sid4 i : Bytes)
      → v'.held sid4 i ≡ (v.held sid4 i || (bytes_eq own sid4 && carries packets i))
  pub known : (i : Bytes) → v'.known i ≡ v.known i
  pub needed : v'.needed ≡ v.needed
  pub done : v'.done ≡ v.done

-- The packets are known, with those of the session that waited, and nothing waits any more.
pub record Gathers (b : Beacon) (v : View) (sf : Symbol.SymbolFrame) (v' : View) : Type 0 where
  pub beacon : v'.beacon ≡ v.beacon
  pub key : v'.key ≡ v.key
  pub held : (sid4 i : Bytes) → v'.held sid4 i ≡ false
  pub known :
      (i : Bytes)
      → v'.known i ≡ (v.known i || (v.held (slice 0 4 b.session_id) i || carries sf.packets i))
  pub needed : v'.needed ≡ v.needed

-- What becomes of a checkpoint: its packets wait, unless there is a transfer and it is another one's.
pub data Restores (own : Bytes) (packets : List Bytes) (v : View) : View → Type 0 where
  taken :
      {v' : View}
      → (v.beacon ≡ none) ⊎ ((b : Beacon) × (v.beacon ≡ some b) × (own ≡ slice 0 4 b.session_id))
      → Holds v own packets v'
      → Restores own packets v v'
  dropped :
      {b : Beacon} → v.beacon ≡ some b → own ≢ slice 0 4 b.session_id → Restores own packets v v

module _ ⦃crc : Crc⦄ where
  -- Why a frame is not read.
  pub data IsRefused (frame : Bytes) : Error → Type 0 where
    no_type : {e : Error} → peek_type frame ≡ err e → IsRefused frame e
    no_beacon :
        {e : Error}
        → peek_type frame ≡ ok beacon_type
        → Beacon.decode frame ≡ err e
        → IsRefused frame e
    no_symbols :
        {e : Error}
        → peek_type frame ≡ ok symbol_type
        → Symbol.decode frame ≡ err e
        → IsRefused frame e
    other_type :
        {ty : ℕ}
        → peek_type frame ≡ ok ty
        → ty ≢ beacon_type
        → ty ≢ symbol_type
        → IsRefused frame (bad_frame_type ty)

module _ ⦃crc : Crc⦄ ⦃prim : Primitives⦄ ⦃deflate : Deflate⦄ ⦃fountain : Fountain⦄ where
  -- What a receiver that is not done may make of a frame.
  pub data Hears (frame : Bytes) (v : View) : Result Ingest → View → Type 0 where
    refuse : {e : Error} → IsRefused frame e → Hears frame v (err e) v
    crash : Symbol.decode frame ≡ panic → Hears frame v panic v
    acquire :
        {b : Beacon}
        → Beacon.decode frame ≡ ok b
        → v.beacon ≡ none
        → Hears frame v (ok beacon_acquired) (record v {
          beacon = some b;
          needed = symbols_needed (fountain.transfer_length b.oti) (fountain.symbol_size b.oti);
        })
    again :
        {b b' : Beacon}
        → Beacon.decode frame ≡ ok b'
        → v.beacon ≡ some b
        → b.session_id ≡ b'.session_id
        → Hears frame v (ok ignored) v
    other_beacon :
        {b b' : Beacon}
        → Beacon.decode frame ≡ ok b'
        → v.beacon ≡ some b
        → b.session_id ≢ b'.session_id
        → Hears frame v (err foreign_session) v
    keep :
        {sf : Symbol.SymbolFrame} {v' : View}
        → Symbol.decode frame ≡ ok sf
        → v.beacon ≡ none
        → Holds v sf.sid4 sf.packets v'
        → Hears frame v (ok ignored) v'
    other_symbols :
        {b : Beacon} {sf : Symbol.SymbolFrame}
        → Symbol.decode frame ≡ ok sf
        → v.beacon ≡ some b
        → sf.sid4 ≢ slice 0 4 b.session_id
        → Hears frame v (err foreign_session) v
    gather :
        {b : Beacon} {sf : Symbol.SymbolFrame} {n : ℕ} {v' : View}
        → Symbol.decode frame ≡ ok sf
        → v.beacon ≡ some b
        → sf.sid4 ≡ slice 0 4 b.session_id
        → Gathers b v sf v'
        → Counts v'.known n
        → v'.done ≡ false
        → Hears frame v (ok (progress n v.needed)) v'
    deliver :
        {b : Beacon} {sf : Symbol.SymbolFrame} {key plaintext : Bytes} (object : Bytes) {v' : View}
        → Symbol.decode frame ≡ ok sf
        → v.beacon ≡ some b
        → sf.sid4 ≡ slice 0 4 b.session_id
        → Gathers b v sf v'
        → v.key ≡ some key
        → open_object b key object ≡ ok plaintext
        → v'.done ≡ true
        → Hears frame v (ok (done plaintext)) v'
    fail :
        {b : Beacon} {sf : Symbol.SymbolFrame} {key : Bytes} {e : Error} (object : Bytes)
        {v' : View}
        → Symbol.decode frame ≡ ok sf
        → v.beacon ≡ some b
        → sf.sid4 ≡ slice 0 4 b.session_id
        → Gathers b v sf v'
        → v.key ≡ some key
        → open_object b key object ≡ err e
        → v'.done ≡ false
        → Hears frame v (err e) v'

  -- One frame: whoever is done has nothing to do with it.
  pub data Step (frame : Bytes) (v : View) : Result Ingest → View → Type 0 where
    sleep : v.done ≡ true → Step frame v (ok ignored) v
    wake : {r : Result Ingest} {v' : View} → v.done ≡ false → Hears frame v r v' → Step frame v r v'
