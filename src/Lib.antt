-- ===== src/Lib.antt =====
-- A verification library for rabaska, which sends a file over an optical channel: a screen shows frames, a
-- camera reads them, and a fountain code makes up for the frames that are lost.
--
-- The parts and the files that model them:
-- - Error: `Error` and `Result` of core/src/lib.rs. A panic is a third outcome beside `ok` and `err`, so a
--   theorem can say that code does not panic.
-- - Wire (core/src/wire.rs): Wire/Types has the constants and enums, Wire/Frame the header, the CRC trailer,
--   `open_frame` and `peek_type`, and Wire/PairReq, Beacon, Symbol, Complete and Reveal one frame each, with
--   `encode` and `decode` under the names of the source. A field of n bytes is a list with the predicate
--   `IsArray n`; a word is a native number with its bound in `IsWellFormed`; casts write `% 256 ^ k`. Wire/Arrays
--   has the formats' lengths together.
-- - Crypto (core/src/crypto.rs): Crypto/Keys has the key agreement of the four modes and the AEAD, and
--   Crypto/Human the commitment, the short authentication string and the hashes.
-- - Pipeline (core/src/pipeline.rs): Pipeline/Compress has the sniffer and the compression step,
--   Pipeline/Transmitter the sender's frames, Pipeline/Receiver what collects, opens
--   and delivers them. A `&mut self` method is a function from the state to the new
--   state and the result. Pipeline/Receiver/Contract is what the receiver promises, as a step relation on sets of
--   packet identifiers, in which the queue, the order and the decoder are forgotten. Pipeline/Transfer has the two
--   ends together: Completing and Showing follow a receiver that is shown every packet.
-- - Handshake (core/src/wasm.rs): `Session` and `Send`, the reply to a pairing request, the reveal, and the
--   gate that holds the payload back. Handshake/Gate has the calls on a sender as a step relation,
--   Handshake/Digits the two ends together, Handshake/Receive the receiver's end, which derives the key when
--   the beacon is there. `reply_to`, `seal_to` and `open_to` take their random draws. Handshake/Prefix has the
--   session prefix of a checkpoint, Handshake/TypedKey the public key that is typed by hand, Handshake/Identity
--   the device's identity and the making of a session, Handshake/Getters what the ends tell of themselves, and
--   Handshake/Meeting a first meeting, from the request to the digits. Handshake/Exchange has the steps that
--   follow a reply, in any order, Handshake/Watching the frames of a released sender that are all read, and
--   Handshake/Delivery and Handshake/Arrival the two ends after a first meeting, Arrival/OneWay after `seal` and
--   `open`, and Arrival/Known between ends that know one another. What core/src/wasm.rs only
--   passes on is in Qr/Boundary and Payload/Boundary.
-- - Payload (core/src/payload.rs): the envelope with a file's name and type. Payload/Text and Payload/Utf8 write
--   out what the source uses of Rust's `str`, with a text as its code points; Payload/Label has `safe_name` and
--   `safe_mime`, Payload/Envelope `wrap` and `unwrap`.
-- - Qr (core/src/qr.rs): Qr/Capacity has `capacity`, `smallest_version` and `usable_payload`, Qr/Render
--   `encode_luma`, and Qr/Plan `plan_symbol_size`. Qr/Fits has the frames of a transmitter at the codes that they
--   are planned for.
-- - Harness (harness/src/main.rs): a whole transfer between two peers over a channel that loses frames.
--   Harness has `run`, Harness/Rounds its rounds, and Harness/Keys the two keys. Harness/Lossless, Converges and
--   Delivers follow a run in which every frame is read. Harness/Vectors has the frozen vectors as the text that is
--   printed, Harness/Samples the lighting conditions and the sample payloads, and Harness/Commands the tables of
--   `modes` and `ladder` as their values. It rests on Pipeline/Transfer.
-- - Tests: concrete stand-ins for the crates, and the theorems at concrete inputs.
-- - Prelude: tests on numbers, lists with native lengths, and byte strings.
--
-- How they interact: the transmitter compresses and encrypts a payload under the key that Crypto derives,
-- binds the beacon's fields as associated data, and shows the beacon and the packets of the fountain code as
-- Wire frames.
--
-- Parameters: the crates are records of operations with the laws that the code relies on. `Crc` is
-- crc32fast, `Primitives` x25519-dalek, hkdf, sha2 and chacha20poly1305, `Deflate` miniz_oxide, `Fountain`
-- raptorq, `QrEncoder` qrcodegen, of which versions 1 to 40 are meant; `Floats` is the arithmetic of `f64`,
-- and of `f32` in the getters.
-- That a decoder of `Fountain` makes the object that was encoded or nothing is a hypothesis, `Recovers`, of the
-- theorems that need it; that it makes it from all the packets, and that these are told apart by identifiers of
-- four bytes, is `Completes`; that the transmission information starts with the length is `StartsWithLength`. Random bytes are arguments. Nothing is said of the secrecy of the primitives.
--
-- Bounds and fuel: `decimal` prints with fuel 10, the digits of a 32-bit word. `capacity` searches with
-- fuel 12: a range of 3000 halves to nothing in 12 rounds. `drain` of the typed key takes as many rounds as
-- there are bits, five of which go in each. The 400000 rounds of `run` are the program's own. The other loops
-- recur on the list or the count that they run over.
--
-- Debug assertions are not modelled: the definitions are the release build. A `usize` of `encode_luma` wraps, at
-- the width that it is given.
-- The crates' calls are total, and so `ingest` is said of frames on which raptorq does not panic. That it may, on
-- transmission information or a packet that is not its own, is in Pipeline/Receiver/Refusals: `crate_panics` tells
-- on which frames `ingest` comes to such a call, and `ingest_or_panic` is `ingest` with these panics.
-- Not modelled: `decode_luma` of core/src/qr.rs and `decode_qr` of core/src/wasm.rs (calls of the reader crate); of
-- harness the layout of the tables and the choice of the command in `main`; app (the browser's user interface);
-- and of core/src/wasm.rs the panic hook and the conversion of JavaScript values.
pub mod Prelude
pub mod Error
pub mod Wire
pub mod Crypto
pub mod Pipeline
pub mod Payload
pub mod Floats
pub mod Harness
pub mod Qr
pub mod Handshake
pub mod Tests
