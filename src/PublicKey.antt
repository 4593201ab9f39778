-- ===== src/PublicKey.antt =====
-- src/public_key.rs: validated P-256 keys, and their conversion to and from the wire type.
use identity_crypto.Prelude.{
  ◌≡◌, not, ◌||◌, Option, none, some, String, inl, inr, ◌⊎◌, if◌then◌else◌, length, all, ◌==◌, ◌!=◌,
  nat_eq, list_eq, arith,
}
use identity_crypto.Prelude.Int.{ℤ, pos, negsuc, int_eq}
use identity_crypto.Primitives.{Bytes, Str, Primitives, is_lower_hex}
use identity_crypto.KeyTypes.{
  KeyScheme, unspecified, ecdsa_p256, scheme_number, PublicKey, PublicKeyDuo, key_eq,
}
use identity_crypto.Error.{
  Result, ok, err, ◌>>=◌, ◌>>◌, reject_if, ok_or, bad_length, invalid_key, unsupported_scheme,
  not_distinct, missing_field,
}
use identity_crypto.Pb

-- `.map_err(|e| Error::InvalidKey(e.to_string()))`
unfoldable pub or_invalid_key {ℓ} : {A : Type ℓ} → String ⊎ A → Result A
or_invalid_key (inl e) = err (invalid_key e)
or_invalid_key (inr a) = ok a

-- `pb::KeyScheme::try_from(i32)`, with `none` for a number that names no scheme.
abbrev pub scheme_of : ℤ → Option KeyScheme
scheme_of (pos n) = if n == 0 then some unspecified else if n == 3 then some ecdsa_p256 else none
scheme_of (negsuc n) = none

-- `impl From<&PublicKey> for pb::PublicKey`
abbrev pub to_pb : PublicKey → Pb.PublicKey
to_pb k = record { scheme = pos (scheme_number k.scheme); key = k.bytes }

module _ ⦃p : Primitives⦄ where
  -- `PublicKey::p256`
  unfoldable pub p256 : Bytes → Result PublicKey
  p256 bytes = do
    reject_if (length bytes != 65) (bad_length "key" 65 (length bytes))
    or_invalid_key (p.import_p256 bytes)
    ok (record { scheme = ecdsa_p256; bytes = bytes })

  -- `impl TryFrom<&pb::PublicKey> for PublicKey`
  unfoldable pub try_from : Pb.PublicKey → Result PublicKey
  try_from w = elim (scheme_of w.scheme) [
    | some ecdsa_p256 ↦ p256 w.key
    | _ ↦ err (unsupported_scheme w.scheme)
  ]

  unfoldable pub to_hex : PublicKey → Str
  to_hex k = p.hex_encode k.bytes

  unfoldable pub from_hex : Str → Result PublicKey
  from_hex s = do
    reject_if (length s != 130 || not (all is_lower_hex s))
        (invalid_key "expected 130 lowercase hex digits")
    bytes ← or_invalid_key (p.hex_decode s)
    p256 bytes

  -- `PublicKeyDuo::new`
  unfoldable pub new_duo : PublicKey → PublicKey → Result PublicKeyDuo
  new_duo signing encryption = do
    reject_if (signing == encryption) (not_distinct "duo halves")
    ok (record { signing = signing; encryption = encryption })

  -- `impl TryFrom<&pb::PublicKeyDuo> for PublicKeyDuo`
  unfoldable pub try_from_duo : Pb.PublicKeyDuo → Result PublicKeyDuo
  try_from_duo d = do
    signing ← ok_or d.signing (missing_field "signing")
    encryption ← ok_or d.encryption (missing_field "encryption")
    s ← try_from signing
    e ← try_from encryption
    new_duo s e

  -- What a validated key satisfies.
  pub record IsKey (k : PublicKey) : Type 0 where
    pub scheme : k.scheme ≡ ecdsa_p256
    pub size : length k.bytes ≡ 65
    pub imports : p.import_p256 k.bytes ≡ inr tt

  pub p256-IsKey : (b : Bytes) (k : PublicKey) → p256 b ≡ ok k → IsKey k × (k.bytes ≡ b)
  unfolding p256 or_invalid_key ◌>>=◌
  p256-IsKey b k h = ground arith

  -- A wire key that converts is exactly the wire form of the validated key.
  pub try_from-eq-ok :
      (w : Pb.PublicKey) (k : PublicKey) → try_from w ≡ ok k → IsKey k × (w ≡ to_pb k)
  unfolding try_from
  try_from-eq-ok w k h = ground (arith, p256-IsKey w.key k)

  pub try_from-to_pb : (k : PublicKey) → IsKey k → try_from (to_pb k) ≡ ok k
  unfolding try_from p256 or_invalid_key ◌>>=◌
  try_from-to_pb k v = ground arith
