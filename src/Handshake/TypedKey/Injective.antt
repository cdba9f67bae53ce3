-- ===== src/Handshake/TypedKey/Injective.antt =====
-- core/src/wasm.rs: the text of `base32_groups` determines the key.
use rabaska.Prelude.{◌≡◌, sym, ap, ◌∙◌, [], ◌∷◌, ◌++◌, arith}
use rabaska.Prelude.Bytes.{Bytes, IsArray}
use rabaska.Crypto.Primitives.{Primitives}
use rabaska.Crypto.Human.{id_hint}
use rabaska.Handshake.TypedKey.{base32_groups, checksum_of}
use rabaska.Handshake.TypedKey.Digits.{
  digits, dashed, key_loop-digits, pushes-dashed, dashed_injective, digits_lt, length-digits,
}
use rabaska.Handshake.TypedKey.Value.{digits_injective}

module _ ⦃prim : Primitives⦄ where
  typed_digits :
      (key : Bytes)
      → base32_groups key ≡ dashed 0 (digits key 0 0) ++ b'-' ∷ checksum_of (id_hint key)
  unfolding base32_groups
  typed_digits key =
      ap (λ q. q.0 ++ b'-' ∷ checksum_of (id_hint key))
        (key_loop-digits key 0 0 ([], 0) (omega arith))
      ∙ ap (λ t. t ++ b'-' ∷ checksum_of (id_hint key)) (pushes-dashed (digits key 0 0) [] 0)

  -- Two public keys of 32 bytes that are typed alike are the same key.
  pub base32_groups_injective :
      (key key' : Bytes)
      → IsArray 32 key
      → IsArray 32 key'
      → base32_groups key ≡ base32_groups key'
      → key ≡ key'
  base32_groups_injective key key' (len, h) (len', h') same =
      let together = sym (typed_digits key) ∙ same ∙ typed_digits key' in
      let read =
        dashed_injective 0 (digits key 0 0) (digits key' 0 0) (b'-' ∷ checksum_of (id_hint key))
          (b'-' ∷ checksum_of (id_hint key')) (length-digits key key' 0 0 0 (len ∙ sym len'))
          (digits_lt key 0 0) (digits_lt key' 0 0) together in
      digits_injective key key' (len ∙ sym len') h h' read
