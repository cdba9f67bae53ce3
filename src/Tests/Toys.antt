-- ===== src/Tests/Toys.antt =====
-- Concrete stand-ins for the crates, on which the tests run the model.
use native.Mathlib.Nat.{add_comm}
use rabaska.Prelude.{
  ℕ, ◌+◌, ◌*◌, ◌^◌, ◌%◌, ◌≡◌, ◌≤◌, refl, ap, true, false, ◌/◌, some, none, if◌then◌else◌, leb, [],
  ◌∷◌, length, take, drop, ltb, ◌==◌, arith, List,
}
use rabaska.Prelude.Bytes.{Bytes, slice, to_le, from_le, to_le-IsArray, flat}
pub use rabaska.Prelude.Bytes.{array, are_bytes}
use rabaska.Wire.Frame.{Crc}
use rabaska.Crypto.Primitives.{Primitives}
use rabaska.Pipeline.Services.{Deflate, Fountain}
use rabaska.Pipeline.Transfer.{fed}
use rabaska.Qr.Encoder.{QrEncoder}
use rabaska.Floats.{Floats}

instance abbrev pub toy_crc : Crc
toy_crc = record { crc32 = λ bs. from_le bs % 2 ^ 32; crc32_lt = λ bs. omega arith }

instance abbrev pub toy_primitives : Primitives
toy_primitives = record {
  public_key = λ s. s;
  diffie_hellman = λ a b. to_le 32 (from_le a + from_le b);
  hkdf = λ ikm salt info. to_le 32 (from_le (flat (salt ∷ ikm ∷ info ∷ [])));
  sha256 = λ m. to_le 32 (from_le m);
  aead_encrypt = λ key nonce aad m. m;
  aead_decrypt = λ key nonce aad m. some m;
  diffie_hellman_comm = λ a b. ap (to_le 32) (add_comm (from_le a) (from_le b));
  sha256-IsArray = λ m. to_le-IsArray 32 (from_le m);
  decrypt-encrypt = λ key nonce aad m. refl;
}

instance abbrev pub toy_deflate : Deflate
toy_deflate = record {
  compress = λ bs. bs;
  decompress = λ bs limit. some bs;
  decompress-compress = λ bs limit le. refl;
}

-- One symbol holds the whole object; a packet is its id and the symbol.
abbrev toy_packet : ℕ → Bytes → ℕ → Bytes
toy_packet id object symbol = to_le (4 + symbol) (id + 256 ^ 4 * from_le object)

instance abbrev pub toy_fountain : Fountain
toy_fountain = record {
  Decoder = ℕ;
  config = λ object symbol. to_le 12 (length object + 256 ^ 8 * symbol);
  encoded_packets = λ object symbol. toy_packet 0 object symbol ∷ toy_packet 1 object symbol ∷ [];
  transfer_length = λ oti. from_le (slice 0 8 oti);
  symbol_size = λ oti. from_le (slice 8 10 oti);
  new_decoder = λ oti. from_le (slice 0 8 oti);
  feed = λ d p. (d, some (take d (drop 4 p)));
  packet_size = λ object symbol. 4 + symbol;
  encoded_packets-uniform = λ object symbol. (
    to_le-IsArray (4 + symbol) (0 + 256 ^ 4 * from_le object),
    (to_le-IsArray (4 + symbol) (1 + 256 ^ 4 * from_le object), tt),
  );
  packet_size_bounds = λ object symbol low high. (omega arith, omega arith);
  encoded_packets-ne-nil = λ object symbol. omega arith;
  config-IsArray = λ object symbol. to_le-IsArray 12 (length object + 256 ^ 8 * symbol);
}

pub fits_mono :
    (len len' version : ℕ)
    → len ≤ len'
    → leb len' (version * 17) ≡ true
    → leb len (version * 17) ≡ true
fits_mono len len' version le fits = ground arith

pub fits_empty : (version : ℕ) → leb 0 (version * 17) ≡ true
fits_empty version = ground arith

-- 17 bytes for each version, and a code of two modules a side, dark on the diagonal, for 16 bytes at most.
instance abbrev pub toy_qr : QrEncoder
toy_qr = record {
  encodes = λ len version ecc. leb len (version * 17);
  encode_binary = λ bytes ecc.
      if leb (length bytes) 16
      then some (record { size = 2; get_module = λ x y. x == y })
      else none;
  encodes_mono = λ len len' version ecc le fits. fits_mono len len' version le fits;
  encodes_empty = λ version ecc. fits_empty version;
}

-- Whole numbers, and thousandths for a fraction.
pub toy_irrefl : (a : ℕ) → ltb a a ≡ false
toy_irrefl a = ground arith

pub toy_trans : (a b c : ℕ) → ltb a b ≡ true → ltb b c ≡ true → ltb a c ≡ true
toy_trans a b c ab bc = ground arith

instance abbrev pub toy_floats : Floats
toy_floats = record {
  F = ℕ;
  of_nat = λ n. 1000 * n;
  add = λ a b. a + b;
  mul = λ a b. (a * b) / 1000;
  div = λ a b. (1000 * a) / b;
  trunc = λ a. a / 1000;
  max_value = 2 ^ 64;
  lt = λ a b. ltb a b;
  lt_irrefl = toy_irrefl;
  lt_trans = toy_trans;
}

-- Its decoder keeps nothing of a packet.
pub toy_fed : (d : ℕ) (ps : List Bytes) → fed d ps ≡ d
toy_fed d [] = refl
toy_fed d (p ∷ ps) = toy_fed d ps
