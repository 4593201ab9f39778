-- ===== src/Pb/Equality.antt =====
-- The equality that prost derives for the wire types that src/verify.rs and src/accepted.rs compare.
use identity_crypto.Prelude.{
  Bool, true, ◌&&◌, ◌≡◌, ◌↔◌, PartialEq, ◌==◌, arith, nat_eq, list_eq, option_eq, list_beq_iff,
  option_beq_iff,
}
use identity_crypto.Prelude.Int.{int_eq, int_beq_iff}
use identity_crypto.Pb.{PublicKey, KeyDelegation}

abbrev pub wire_key_beq : PublicKey → PublicKey → Bool
wire_key_beq a b = a.scheme == b.scheme && a.key == b.key

pub wire_key_beq_iff : (a b : PublicKey) → (wire_key_beq a b ≡ true) ↔ (a ≡ b)
wire_key_beq_iff a b = ground (arith, int_beq_iff a.scheme b.scheme, list_beq_iff a.key b.key)

instance abbrev pub wire_key_eq : PartialEq PublicKey
wire_key_eq = record { eq_iff = wire_key_beq_iff; eq = wire_key_beq }

unfoldable pub delegation_beq : KeyDelegation → KeyDelegation → Bool
delegation_beq a b =
    a.principal_genesis == b.principal_genesis
    && a.signing_root == b.signing_root
    && a.purpose == b.purpose
    && a.delegated == b.delegated
    && a.delegated_encryption == b.delegated_encryption
    && a.issued_at_unix_seconds == b.issued_at_unix_seconds
    && a.not_after_unix_seconds == b.not_after_unix_seconds
    && a.signature == b.signature

pub delegation_beq_iff : (a b : KeyDelegation) → (delegation_beq a b ≡ true) ↔ (a ≡ b)
unfolding delegation_beq
delegation_beq_iff a b = ground (
  arith,
  option_beq_iff a.principal_genesis b.principal_genesis,
  option_beq_iff a.signing_root b.signing_root,
  int_beq_iff a.purpose b.purpose,
  option_beq_iff a.delegated b.delegated,
  option_beq_iff a.delegated_encryption b.delegated_encryption,
  int_beq_iff a.issued_at_unix_seconds b.issued_at_unix_seconds,
  int_beq_iff a.not_after_unix_seconds b.not_after_unix_seconds,
  list_beq_iff a.signature b.signature,
)

instance abbrev pub delegation_eq : PartialEq KeyDelegation
delegation_eq = record { eq_iff = delegation_beq_iff; eq = delegation_beq }
