-- ===== src/Signature.antt =====
-- src/signature.rs: the one P-256 signature check.
use identity_crypto.Prelude.{
  ◌≡◌, true, not, is_empty, length, ◌==◌, ◌!=◌, nat_eq, list_eq, Bool, arith, inr,
}
use identity_crypto.Primitives.{Bytes, Primitives}
use identity_crypto.KeyTypes.{PublicKey}
use identity_crypto.PublicKey.{or_invalid_key}
use identity_crypto.Error.{
  Result, ok, ◌>>=◌, ◌>>◌, reject_if, empty_signature, bad_length, bad_signature,
}

pub record VerifiedSignature : Type 0 where
  pub key : PublicKey
  pub message_sha256 : Bytes

module _ ⦃p : Primitives⦄ where
  unfoldable pub verify_p256 : PublicKey → Bytes → Bytes → Result VerifiedSignature
  verify_p256 key message signature = do
    reject_if (is_empty signature) empty_signature
    reject_if (length signature != 64) (bad_length "signature" 64 (length signature))
    or_invalid_key (p.import_public_key_raw key.bytes)
    reject_if (not (p.verify_bytes key.bytes signature message)) bad_signature
    ok (record { key = key; message_sha256 = p.sha256 message })

  -- `VerifiedSignature::covers`
  unfoldable pub covers : VerifiedSignature → Bytes → Bool
  covers v message = p.sha256 message == v.message_sha256

  -- A signature of 64 bytes that the primitive accepts for this key and message.
  pub record Signed (key : PublicKey) (message signature : Bytes) : Type 0 where
    pub size : length signature ≡ 64
    pub imports : p.import_public_key_raw key.bytes ≡ inr tt
    pub verifies : p.verify_bytes key.bytes signature message ≡ true

  pub verify_p256-eq-ok :
      (k : PublicKey) (m s : Bytes) {v : VerifiedSignature}
      → verify_p256 k m s ≡ ok v
      → Signed k m s
  unfolding verify_p256 or_invalid_key ◌>>=◌
  verify_p256-eq-ok k m s h = ground arith

  pub verify_p256-Signed :
      (k : PublicKey) (m s : Bytes)
      → Signed k m s
      → verify_p256 k m s ≡ ok (record { key = k; message_sha256 = p.sha256 m })
  unfolding verify_p256 or_invalid_key ◌>>=◌
  verify_p256-Signed k m s h = ground arith
