-- ===== src/Handshake/Receive.antt =====
-- core/src/wasm.rs: `Receive`, which keys the receiver when the beacon is there.
use rabaska.Prelude.{
  ℕ, ◌≡◌, Option, none, some, Bool, true, false, ◌==◌, if◌then◌else◌, length, arith,
}
use rabaska.Prelude.Bytes.{Bytes, IsArray}
use rabaska.Error.{Error, Result, ok, err, panic}
use rabaska.Wire.Types.{Mode, pair, seal, done, hash_mismatch}
use rabaska.Wire.Frame.{Crc}
use rabaska.Wire.Beacon.{Beacon}
use rabaska.Crypto.Primitives.{Primitives}
use rabaska.Crypto.Keys.{KeyPair, receiver, derive_for_mode}
use rabaska.Crypto.Human.{sas}
use rabaska.Pipeline.Services.{Deflate, Fountain}
use rabaska.Pipeline.Receiver as Rx
use rabaska.Pipeline.Receiver.{Receiver}
use rabaska.Handshake.{
  Session, Send, JsResult, returns, throws, bad_key, reveal, session_sas, accept_reveal,
}
use rabaska.Handshake.Digits.{IsWellFormed, honest, accept_reveal_agrees}

-- The messages that `derive_and_set` fails with, and those that print an `Error`.
pub data KeyError : Type 0 where
  beacon_vanished no_device_identity : KeyError
  from_error : Error → KeyError

-- `Result<A, String>`
pub data KeyResult (A : Type 0) : Type 0 where
  gives : A → KeyResult A
  fails : KeyError → KeyResult A
  panics : KeyResult A

-- The strings of `IngestResult::kind`.
pub data Kind : Type 0 where
  ignored beacon progress finished : Kind
  error : KeyError → Kind

pub record IngestResult : Type 0 where
  pub kind : Kind
  pub received : ℕ
  pub needed : ℕ
  pub payload : Option Bytes
  pub sas : Option Bytes

-- `err_result`
unfoldable pub err_result : KeyError → IngestResult
err_result e = record { kind = error e; received = 0; needed = 0; payload = none; sas = none }

pub record Receive ⦃fountain : Fountain⦄ : Type 0 where
  pub rx : Receiver
  pub session : Session
  pub peer_identity : Option Bytes
  pub keyed : Bool

module _ ⦃fountain : Fountain⦄ where
  -- `Receive::new`
  unfoldable pub new : Session → Receive
  unfolding Rx.new
  new s = record { rx = Rx.new; session = s; peer_identity = none; keyed = false }

  unfoldable pub set_peer_identity : Receive → Bytes → Receive × JsResult (Unit {0})
  set_peer_identity r pubkey =
      if length pubkey == 32
      then (record r { peer_identity = some pubkey }, returns tt)
      else (r, throws bad_key)

-- `let own = match b.mode { … }`
unfoldable pub own_key : Mode → Session → KeyResult KeyPair
own_key seal s = elim s.identity [ none ↦ fails no_device_identity | some id ↦ gives id ]
own_key _ s = gives s.eph

module _ ⦃crc : Crc⦄ ⦃prim : Primitives⦄ ⦃fountain : Fountain⦄ where
  -- The digits that `derive_and_set` returns.
  unfoldable pub digits_for : Beacon → Session → Option Bytes
  digits_for b s = elim b.mode [
    | pair ↦ some (sas b.session_id s.eph.public b.s_eph_pub s.r_nonce)
    | _ ↦ none
  ]

  -- `derive_and_set` once the beacon is there.
  unfoldable pub derive_from : Receive → Beacon → Receive × KeyResult (Option Bytes)
  unfolding own_key digits_for
  derive_from r b = elim (own_key b.mode r.session) [
    | panics ↦ (r, panics)
    | fails e ↦ (r, fails e)
    | gives own ↦
        elim (derive_for_mode b.mode receiver own r.session.identity
          (record { eph_pub = b.s_eph_pub; id_pub = r.peer_identity }) b.session_id) [
            | err e ↦ (r, fails (from_error e))
            | panic ↦ (r, panics)
            | ok key ↦ (
              record r { rx = Rx.set_key r.rx key; keyed = true },
              gives (digits_for b r.session),
            )
          ]
  ]

  unfoldable pub derive_and_set : Receive → Receive × KeyResult (Option Bytes)
  unfolding derive_from
  derive_and_set r =
      if r.keyed
      then (r, gives none)
      else elim r.rx.beacon [ none ↦ (r, fails beacon_vanished) | some b ↦ derive_from r b ]

  -- The `BeaconAcquired` arm of `ingest`.
  unfoldable pub acquired : Receive × KeyResult (Option Bytes) → Receive × Result IngestResult
  unfolding err_result
  acquired (r, panics) = (r, panic)
  acquired (r, fails e) = (r, ok (err_result e))
  acquired (r, gives digits) = (
    r,
    ok (record {
      kind = beacon;
      received = r.rx.received;
      needed = r.rx.needed;
      payload = none;
      sas = digits;
    }),
  )

module _ ⦃crc : Crc⦄ ⦃prim : Primitives⦄ ⦃deflate : Deflate⦄ ⦃fountain : Fountain⦄ where
  -- The other arms.
  unfoldable pub reported : Receive → Rx.Ingest → Receive × Result IngestResult
  unfolding derive_and_set acquired
  reported r Rx.beacon_acquired = acquired (derive_and_set r)
  reported r (Rx.progress received needed) = (
    r,
    ok (record {
      kind = progress;
      received = received;
      needed = needed;
      payload = none;
      sas = none;
    }),
  )
  reported r (Rx.done plaintext) = (
    r,
    ok (record {
      kind = finished;
      received = r.rx.received;
      needed = r.rx.needed;
      payload = some plaintext;
      sas = none;
    }),
  )
  reported r Rx.ignored =
      (r, ok (record { kind = ignored; received = 0; needed = 0; payload = none; sas = none }))

  unfoldable pub ingest : Receive → Bytes → Receive × Result IngestResult
  unfolding reported err_result
  ingest r frame =
      let (rx, outcome) = Rx.ingest r.rx frame in
      let r' : Receive = record r { rx = rx } in
      elim outcome [
        | ok what ↦ reported r' what
        | err e ↦ (r', ok (err_result (from_error e)))
        | panic ↦ (r', panic)
      ]

  -- `complete_frame`; its argument says whether all went well.
  unfoldable pub complete_frame : Receive → Bytes → Bool → Option Bytes
  complete_frame r plaintext all_well =
      Rx.complete_frame r.rx plaintext (if all_well then done else hash_mismatch)

module _ ⦃crc : Crc⦄ ⦃prim : Primitives⦄ ⦃fountain : Fountain⦄ where
  -- In PAIR mode, a receiver that has not yet a key and holds the beacon derives one and shows digits,
  -- and a sender that remembers the session's own request and whose key the beacon carries shows the
  -- same digits when it is shown the session's reveal.
  screens_agree :
      (r : Receive) (b : Beacon) (send : Send)
      → IsWellFormed r.session
      → IsArray 32 b.s_eph_pub
      → r.keyed ≡ false
      → r.rx.beacon ≡ some b
      → b.mode ≡ pair
      → b.session_id ≡ r.session.session_id
      → send.pending ≡ some (honest r.session b.s_eph_pub)
      → (digits : Bytes) × ((derive_and_set r).1 ≡ gives (some digits))
        × ((derive_and_set r).0.keyed ≡ true)
        × ((accept_reveal send (reveal r.session)).1 ≡ returns digits)
  unfolding derive_and_set derive_from own_key digits_for derive_for_mode session_sas
  screens_agree r b send w key fresh present paired same known =
      let (digits, accepted, shown, _) =
        accept_reveal_agrees r.session b.s_eph_pub send w key known in
      let mine : digits
          ≡ sas r.session.session_id r.session.eph.public b.s_eph_pub r.session.r_nonce =
        ground arith in
      (digits, ground arith, ground arith, accepted)
