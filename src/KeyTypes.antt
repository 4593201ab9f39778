-- ===== src/KeyTypes.antt =====
-- src/public_key.rs, src/principal.rs: the types of validated keys and of principal ids, with the
-- equality that the source derives.
use identity_crypto.Prelude.{
  ℕ, ◌≡◌, ◌↔◌, Bool, true, false, ◌&&◌, PartialEq, ◌==◌, arith, list_beq_iff, list_eq, nat_eq,
}
use identity_crypto.Primitives.{Bytes}

pub data KeyScheme : Type 0 where
  unspecified ecdsa_p256 : KeyScheme

abbrev pub scheme_number : KeyScheme → ℕ
scheme_number unspecified = 0
scheme_number ecdsa_p256 = 3

abbrev scheme_beq : KeyScheme → KeyScheme → Bool
scheme_beq unspecified unspecified = true
scheme_beq ecdsa_p256 ecdsa_p256 = true
scheme_beq a b = false

pub record PublicKey : Type 0 where
  pub scheme : KeyScheme
  pub bytes : Bytes

abbrev pub key_beq : PublicKey → PublicKey → Bool
key_beq a b = scheme_beq a.scheme b.scheme && a.bytes == b.bytes

pub key_beq_iff : (a b : PublicKey) → (key_beq a b ≡ true) ↔ (a ≡ b)
key_beq_iff a b = ground (arith, list_beq_iff a.bytes b.bytes)

instance abbrev pub key_eq : PartialEq PublicKey
key_eq = record { eq_iff = key_beq_iff; eq = key_beq }

pub record PrincipalId : Type 0 where
  pub genesis : PublicKey

abbrev pub principal_beq : PrincipalId → PrincipalId → Bool
principal_beq a b = a.genesis == b.genesis

pub principal_beq_iff : (a b : PrincipalId) → (principal_beq a b ≡ true) ↔ (a ≡ b)
principal_beq_iff a b = ground (arith, key_beq_iff a.genesis b.genesis)

instance abbrev pub principal_eq : PartialEq PrincipalId
principal_eq = record { eq_iff = principal_beq_iff; eq = principal_beq }

pub record PublicKeyDuo : Type 0 where
  pub signing : PublicKey
  pub encryption : PublicKey
