-- ===== src/Jwk.antt =====
-- The key pairs of the `rust_jwk_duo` crate, which the builders sign with. The type `K` of key pairs
-- is a parameter; a `KeyDuo` is what its two accessors give.
use identity_crypto.Prelude.{◌≡◌, ◌⊎◌, inr, String}
use identity_crypto.Primitives.{Bytes, Primitives}
use identity_crypto.KeyTypes.{PublicKey, ecdsa_p256}
use identity_crypto.PublicKey.{IsKey}
use identity_crypto.Signature.{Signed}

pub record Jwk (K : Type 0) : Type 0 where
  -- export_public_key_raw
  pub public_raw : K → Bytes
  -- sign_bytes; a failure is the `to_string()` of its error
  pub sign_bytes : K → Bytes → String ⊎ Bytes

-- KeyDuo::signing_key_pair, KeyDuo::encryption_key_pair
pub record KeyDuo (K : Type 0) : Type 0 where
  pub signing_key_pair : K
  pub encryption_key_pair : K

module _ {K : Type 0} ⦃j : Jwk K⦄ where
  -- `impl From<&jwk_duo::SigningKeyPair> for PublicKey`, and the same for an encryption key pair
  abbrev pub from_key_pair : K → PublicKey
  from_key_pair k = record { scheme = ecdsa_p256; bytes = j.public_raw k }

-- The documented behaviour of the crate: a key pair holds a P-256 point, and a signature that it makes
-- verifies under its public half.
pub record JwkLaws (K : Type 0) ⦃p : Primitives⦄ ⦃j : Jwk K⦄ : Type 0 where
  pub is_key : (k : K) → IsKey (from_key_pair k)
  pub signs : (k : K) (m s : Bytes) → j.sign_bytes k m ≡ inr s → Signed (from_key_pair k) m s
