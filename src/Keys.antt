-- ===== src/Keys.antt =====
-- src/keys.rs: the builders of delegations, rotations, revocations and proofs.
pub mod Accepted
use identity_crypto.Prelude.{Bool, Option, none, some, []}
use identity_crypto.Prelude.Int.{ℤ, leb_ℤ, saturating_sub}
use identity_crypto.Primitives.{Bytes, Str, Primitives}
use identity_crypto.KeyTypes.{PublicKey, PrincipalId}
use identity_crypto.PublicKey.{to_pb}
use identity_crypto.Error.{Result, ok, ◌>>=◌, ◌>>◌}
use identity_crypto.Pb
use identity_crypto.Jwk.{Jwk, KeyDuo, from_key_pair}
use identity_crypto.Transcripts.Keys.{
  key_delegation_transcript, key_challenge_transcript, principal_rename_transcript,
  root_rotation_transcript, key_revocation_transcript,
}
use identity_crypto.Registry.Checks.{device_purpose}
use identity_crypto.Session.{sign}
use identity_crypto.Verify.Time.{check_unlisted_span}

-- `device_delegation`
unfoldable pub device_delegation :
    PrincipalId → PublicKey → PublicKey → PublicKey → ℤ → ℤ → Pb.KeyDelegation
device_delegation genesis root device_signing device_encryption issued not_after = record {
  principal_genesis = some (to_pb genesis.genesis);
  signing_root = some (to_pb root);
  purpose = device_purpose;
  delegated = some (to_pb device_signing);
  delegated_encryption = some (to_pb device_encryption);
  issued_at_unix_seconds = issued;
  not_after_unix_seconds = not_after;
  signature = [];
}

-- `renewal_due`
unfoldable pub renewal_due : Pb.KeyDelegation → ℤ → ℤ → Bool
renewal_due d now margin_seconds =
    leb_ℤ (saturating_sub d.not_after_unix_seconds now) margin_seconds

module _ {K : Type 0} ⦃j : Jwk K⦄ where
  -- `signing_public`, `encryption_public`, `principal_id`
  abbrev pub signing_public : KeyDuo K → PublicKey
  signing_public duo = from_key_pair duo.signing_key_pair

  abbrev pub encryption_public : KeyDuo K → PublicKey
  encryption_public duo = from_key_pair duo.encryption_key_pair

  abbrev pub principal_id : KeyDuo K → PrincipalId
  principal_id genesis = record { genesis = signing_public genesis }

  -- The rotation of `rotation` before it is signed.
  abbrev pub rotation_to_sign : KeyDuo K → PrincipalId → KeyDuo K → ℤ → Pb.RootRotation
  rotation_to_sign old_root genesis new_root issued_at = record {
    principal_genesis = some (to_pb genesis.genesis);
    old_root = some (to_pb (signing_public old_root));
    new_root = some (to_pb (signing_public new_root));
    issued_at_unix_seconds = issued_at;
    signature = [];
  }

  -- The revocation of `revocation` before it is signed.
  abbrev pub revocation_to_sign : KeyDuo K → PrincipalId → PublicKey → ℤ → Pb.KeyRevocation
  revocation_to_sign signer genesis revoked revoked_at = record {
    principal_genesis = some (to_pb genesis.genesis);
    revoked = some (to_pb revoked);
    revoked_by = some (to_pb (signing_public signer));
    revoked_at_unix_seconds = revoked_at;
    signature = [];
  }

  module _ ⦃p : Primitives⦄ where
    -- `sign_key_delegation`, which returns the delegation that it mutates
    unfoldable pub sign_key_delegation : K → Pb.KeyDelegation → Result Pb.KeyDelegation
    sign_key_delegation root d = do
      transcript ← key_delegation_transcript d
      signature ← sign root transcript
      ok (record d { signature = signature })

    -- `delegate_device`
    unfoldable pub delegate_device :
        KeyDuo K → PrincipalId → KeyDuo K → ℤ → ℤ → Result Pb.KeyDelegation
    delegate_device root genesis device issued_at not_after = do
      check_unlisted_span "device.not_after_unix_seconds" issued_at not_after
      let d =
          device_delegation genesis (signing_public root) (signing_public device)
            (encryption_public device) issued_at not_after
      sign_key_delegation root.signing_key_pair d

    -- `challenge_proof`
    unfoldable pub challenge_proof : KeyDuo K → Str → Bytes → Result Bytes
    challenge_proof duo audience nonce = do
      transcript ← key_challenge_transcript audience nonce (signing_public duo)
      sign duo.signing_key_pair transcript

    -- `rename_proof`
    unfoldable pub rename_proof : KeyDuo K → Bytes → PrincipalId → Str → Result Bytes
    rename_proof root nonce principal new_name = do
      transcript ← principal_rename_transcript nonce principal new_name
      sign root.signing_key_pair transcript

    -- `rotation`
    unfoldable pub rotation : KeyDuo K → PrincipalId → KeyDuo K → ℤ → Result Pb.RootRotation
    rotation old_root genesis new_root issued_at = do
      let r = rotation_to_sign old_root genesis new_root issued_at
      transcript ← root_rotation_transcript r
      signature ← sign old_root.signing_key_pair transcript
      ok (record r { signature = signature })

    -- `revocation`
    unfoldable pub revocation : KeyDuo K → PrincipalId → PublicKey → ℤ → Result Pb.KeyRevocation
    revocation signer genesis revoked revoked_at = do
      let r = revocation_to_sign signer genesis revoked revoked_at
      transcript ← key_revocation_transcript r
      signature ← sign signer.signing_key_pair transcript
      ok (record r { signature = signature })
