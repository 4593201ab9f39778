-- ===== src/Transcripts/Keys.antt =====
-- src/transcripts.rs: the transcripts over keys: challenge, rename, delegation, revocation, rotation.
pub mod Covers
use identity_crypto.Prelude.{
  ℕ, Bool, true, false, ◌||◌, Option, none, some, ◌==◌, nat_eq, if◌then◌else◌,
}
use identity_crypto.Prelude.Int.{ℤ, pos, negsuc}
use identity_crypto.Primitives.{Bytes, Str, Primitives}
use identity_crypto.KeyTypes.{PublicKey, PrincipalId, key_eq}
use identity_crypto.Error.{
  Result, ok, err, ◌>>=◌, ◌>>◌, reject_if, invalid_field, missing_field, not_distinct,
}
use identity_crypto.Pb
use identity_crypto.Transcripts.Enc
use identity_crypto.Transcripts.Enc.{Enc, non_empty, req, opt_try}
use identity_crypto.Transcripts.Purpose.{KeyPurpose, purpose_of}
use identity_crypto.Transcripts.Tags.{
  key_challenge_tag, principal_rename_tag, key_delegation_tag, key_revocation_tag,
  root_rotation_tag,
}

unfoldable pub key_challenge_transcript : Str → Bytes → PublicKey → Result Bytes
key_challenge_transcript audience nonce key = do
  non_empty "audience" audience
  non_empty "nonce" nonce
  e ← Enc.var (Enc.new key_challenge_tag) audience
  e ← Enc.var e nonce
  Enc.key e key

unfoldable pub principal_rename_transcript : Bytes → PrincipalId → Str → Result Bytes
principal_rename_transcript nonce principal new_name = do
  non_empty "nonce" nonce
  non_empty "new_name" new_name
  e ← Enc.var (Enc.new principal_rename_tag) nonce
  e ← Enc.principal e principal.genesis
  Enc.var e new_name

-- The `purpose` of a delegation that may be signed.
unfoldable pub signing_purpose : ℤ → Result KeyPurpose
signing_purpose n = elim (purpose_of n) [
  | some KeyPurpose.device ↦ ok KeyPurpose.device
  | some KeyPurpose.approval ↦ ok KeyPurpose.approval
  | _ ↦ err (invalid_field "purpose" "must be DEVICE or APPROVAL")
]

abbrev pub clashes : Option PublicKey → PublicKey → PublicKey → Bool
clashes none root delegated = false
clashes (some e) root delegated = e == root || e == delegated

module _ ⦃p : Primitives⦄ where
  unfoldable pub encryption_half : KeyPurpose → Option Pb.PublicKey → Result (Option PublicKey)
  encryption_half KeyPurpose.device none = err (missing_field "delegated_encryption")
  encryption_half KeyPurpose.approval (some k) =
      err (invalid_field "delegated_encryption" "forbidden for APPROVAL")
  encryption_half _ k = opt_try k

  -- The encoding part of `key_delegation_transcript`.
  unfoldable pub write_key_delegation :
      PublicKey → PublicKey → PublicKey → Option PublicKey → Pb.KeyDelegation → Result Enc
  write_key_delegation principal root delegated encryption d = do
    e ← Enc.principal (Enc.new key_delegation_tag) principal
    e ← Enc.key e root
    e ← Enc.u8 e "purpose" d.purpose
    e ← Enc.key e delegated
    e ← Enc.opt_key e encryption
    let e = Enc.i64 e d.issued_at_unix_seconds
    let e = Enc.i64 e d.not_after_unix_seconds
    ok e

  unfoldable pub key_delegation_transcript : Pb.KeyDelegation → Result Bytes
  unfolding write_key_delegation
  key_delegation_transcript d = do
    principal ← req d.principal_genesis "principal_genesis"
    root ← req d.signing_root "signing_root"
    purpose ← signing_purpose d.purpose
    delegated ← req d.delegated "delegated"
    encryption ← encryption_half purpose d.delegated_encryption
    reject_if (root == delegated || clashes encryption root delegated)
        (not_distinct "signing_root, delegated, delegated_encryption")
    write_key_delegation principal root delegated encryption d

  unfoldable pub key_revocation_transcript : Pb.KeyRevocation → Result Bytes
  key_revocation_transcript r = do
    principal ← req r.principal_genesis "principal_genesis"
    revoked ← req r.revoked "revoked"
    revoked_by ← req r.revoked_by "revoked_by"
    e ← Enc.principal (Enc.new key_revocation_tag) principal
    e ← Enc.key e revoked
    e ← Enc.key e revoked_by
    let e = Enc.i64 e r.revoked_at_unix_seconds
    ok e

  unfoldable pub root_rotation_transcript : Pb.RootRotation → Result Bytes
  root_rotation_transcript r = do
    principal ← req r.principal_genesis "principal_genesis"
    old_root ← req r.old_root "old_root"
    new_root ← req r.new_root "new_root"
    reject_if (old_root == new_root) (not_distinct "old_root, new_root")
    e ← Enc.principal (Enc.new root_rotation_tag) principal
    e ← Enc.key e old_root
    e ← Enc.key e new_root
    let e = Enc.i64 e r.issued_at_unix_seconds
    ok e
