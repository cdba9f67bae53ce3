-- ===== src/Pipeline/Transfer.antt =====
-- core/src/pipeline.rs: the two ends together. What a receiver holds while it is shown the frames of one
-- transmitter only.
pub mod Absorbing
pub mod Frames
pub mod Sending
pub mod Completing
pub mod Showing
pub mod Cycling
pub mod Stages
use rabaska.Prelude.{ℕ, ◌≡◌, ◌<◌, ◌⊎◌, Option, none, some, List, [], ◌∷◌, length, get_or, All}
use rabaska.Prelude.Bytes.{Bytes, slice}
use rabaska.Error.{Result, ok, err, panic}
use rabaska.Wire.Frame.{Crc}
use rabaska.Wire.Beacon
use rabaska.Wire.Beacon.{Beacon}
use rabaska.Wire.Symbol
use rabaska.Crypto.Primitives.{Primitives}
use rabaska.Pipeline.Services.{Deflate, Fountain}
use rabaska.Pipeline.Receiver.{
  Receiver, Ingest, done, ignored, beacon_acquired, progress, open_object,
}

-- A packet of the pool.
abbrev pub IsFrom : List Bytes → Bytes → Type 0
IsFrom pool p = (i : ℕ) × (i < length pool) × (get_or pool i [] ≡ p)

-- What a decoder returned, if it did, is the object.
abbrev pub IsNoneOr : Bytes → Option Bytes → Type 0
IsNoneOr object none = Unit {0}
IsNoneOr object (some o) = o ≡ object

module _ ⦃fountain : Fountain⦄ where
  -- The decoder after packets.
  abbrev pub fed : fountain.Decoder → List Bytes → fountain.Decoder
  fed d [] = d
  fed d (p ∷ ps) = fed (fountain.feed d p).0 ps

  -- The fountain code: from packets of the object, whichever and in whatever order, its decoder makes the
  -- object or nothing.
  pub record Recovers (oti object : Bytes) (pool : List Bytes) : Type 0 where
    pub feed :
        (ps : List Bytes) (p : Bytes)
        → All (IsFrom pool) ps
        → IsFrom pool p
        → IsNoneOr object (fountain.feed (fed (fountain.new_decoder oti) ps) p).1

module _ ⦃crc : Crc⦄ ⦃prim : Primitives⦄ ⦃deflate : Deflate⦄ ⦃fountain : Fountain⦄ where
  -- A beacon and a pool of packets that carry a payload to the holder of a key.
  pub record Offers (b : Beacon) (pool : List Bytes) (key payload : Bytes) : Type 0 where
    pub object : Bytes
    pub opens : open_object b key object ≡ ok payload
    pub recovers : Recovers b.oti object pool

-- A decoder that has had packets of the pool only.
abbrev pub IsFedFrom : ⦃fountain : Fountain⦄ → Bytes → List Bytes → Option fountain.Decoder → Type 0
IsFedFrom ⦃fountain⦄ oti pool o =
    (ps : List Bytes) × All (IsFrom pool) ps × (o ≡ some (fed (fountain.new_decoder oti) ps))

-- What a receiver holds that was shown frames of the pool, and was given the key or none.
pub record Tracks ⦃fountain : Fountain⦄ (b : Beacon) (pool : List Bytes) (given : Bytes)
    (r : Receiver) : Type 0 where
  pub beacon : (r.beacon ≡ none) ⊎ ((r.beacon ≡ some b) × IsFedFrom b.oti pool r.decoder)
  pub key : (r.key ≡ none) ⊎ (r.key ≡ some given)
  pub pending : All (λ q. IsFrom pool q.1) r.pending

-- No error and no panic, no plaintext but the payload, and a beacon that is acquired once.
abbrev pub IsGood :
    ⦃fountain : Fountain⦄ → Beacon → Bytes → Receiver → Receiver → Result Ingest → Type 0
IsGood b payload r r' (ok ignored) = r'.beacon ≡ r.beacon
IsGood b payload r r' (ok beacon_acquired) = (r.beacon ≡ none) × (r'.beacon ≡ some b)
IsGood b payload r r' (ok (progress n m)) = r'.beacon ≡ r.beacon
IsGood b payload r r' (ok (done plaintext)) = (plaintext ≡ payload) × (r'.beacon ≡ some b)
IsGood b payload r r' (err e) = ⊥
IsGood b payload r r' panic = ⊥

-- A frame of the transmitter: its beacon, or packets of its pool.
abbrev pub IsFrameOf : ⦃crc : Crc⦄ → Beacon → List Bytes → Bytes → Type 0
IsFrameOf b pool frame =
    (Beacon.decode frame ≡ ok b)
    ⊎ ((sf : Symbol.SymbolFrame) × (Symbol.decode frame ≡ ok sf)
        × (sf.sid4 ≡ slice 0 4 b.session_id)
        × All (IsFrom pool) sf.packets)
