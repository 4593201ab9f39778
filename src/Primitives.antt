-- ===== src/Primitives.antt =====
-- What the crate takes from outside src/: the `rust_jwk_duo` crate (key import, signature check),
-- `sha2` and `hex`. They are parameters. A foreign error is its `to_string()`, on the left of a sum.
use identity_crypto.Prelude.{
  All, ◌<◌, leb, all, ◌&&◌, ◌||◌, true, ℕ, ◌*◌, ◌≡◌, ◌⊎◌, inr, String, Bool, List, length,
}

-- A byte string, and a `str` by its UTF-8 bytes.
abbrev pub Bytes : Type 0
Bytes = List ℕ

abbrev pub Str : Type 0
Str = Bytes

pub record Primitives : Type 0 where
  -- jwk_duo::Sec1PublicKey::import_p256
  pub import_p256 : Bytes → String ⊎ Unit {0}
  -- jwk_duo::SigningKeyPair::import_public_key_raw
  pub import_public_key_raw : Bytes → String ⊎ Unit {0}
  -- verify_bytes of an imported key: key bytes, signature, message
  pub verify_bytes : Bytes → Bytes → Bytes → Bool
  pub sha256 : Bytes → Bytes
  -- hex::encode, hex::decode
  pub hex_encode : Bytes → Str
  pub hex_decode : Str → String ⊎ Bytes

-- `b.is_ascii_digit() || (b'a'..=b'f').contains(&b)`
abbrev pub is_lower_hex : ℕ → Bool
is_lower_hex b = leb b'0' b && leb b b'9' || leb b'a' b && leb b b'f'

-- The values of a byte string, as against any list of numbers.
abbrev pub IsBytes : Bytes → Type 0
IsBytes b = All (λ (x : ℕ). x < 256) b

-- The documented behaviour of `hex`: encoding gives two lowercase digits a byte, and decoding undoes it.
pub record HexLaws (p : Primitives) : Type 0 where
  pub encode_length : (b : Bytes) → IsBytes b → length (p.hex_encode b) ≡ 2 * length b
  pub decode_encode : (b : Bytes) → IsBytes b → p.hex_decode (p.hex_encode b) ≡ inr b
  pub encode_digits : (b : Bytes) → IsBytes b → all is_lower_hex (p.hex_encode b) ≡ true
