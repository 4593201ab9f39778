-- ===== src/Keyfile/Identity.antt =====
-- identity-keyfile/src/keys.rs: the keys of an agent in memory, their checks, and the device keys that
-- a verifier accepts.
pub mod AcceptedKeys
pub mod Retirement
use identity_crypto.Prelude.{
  Bool, true, false, not, ◌&&◌, ◌||◌, Option, none, some, List, [], ◌∷◌, ◌++◌, contains, ◌==◌, ◌!=◌,
  option_eq, if◌then◌else◌,
}
use identity_crypto.Prelude.Int.{ℤ, ltb_ℤ, leb_ℤ, int_eq}
use identity_crypto.Primitives.{Bytes, Primitives}
use identity_crypto.KeyTypes.{PublicKey, PrincipalId, key_eq, principal_eq}
use identity_crypto.PublicKey.{to_pb, try_from}
use identity_crypto.Error
use identity_crypto.Pb
use identity_crypto.Pb.Equality.{wire_key_eq}
use identity_crypto.Jwk.{Jwk, KeyDuo}
use identity_crypto.Signature.{verify_p256}
use identity_crypto.Transcripts.Keys.{key_delegation_transcript}
use identity_crypto.Authority.{AuthorityChain, from_rotations, head, chain_principal}
use identity_crypto.Registry.Checks.{device_purpose}
use identity_crypto.Keys.{signing_public, encryption_public}
use identity_crypto.Keyfile.Disk.{
  KeyfileError, delegation_mismatch, verify_failed, VerifyCheck, Outcome, ok, err,
}
use identity_crypto.Keyfile.Outcome.{◌>>=◌, ◌>>◌, reject_if, ok_or, crypto_result, or_verify_failed}

pub record IdentityKeys (K : Type 0) : Type 0 where
  pub root : KeyDuo K
  pub device : KeyDuo K
  pub delegation : Pb.KeyDelegation
  pub principal_id : PrincipalId
  pub retired : List Pb.RetiredDevice
  pub rotations : List Pb.RootRotation

pub record DeviceKeys (K : Type 0) : Type 0 where
  pub device : KeyDuo K
  pub delegation : Pb.KeyDelegation
  pub principal_id : PrincipalId
  pub retired : List Pb.RetiredDevice

pub record DevicePublic : Type 0 where
  pub principal_id : PrincipalId
  pub device_signing : PublicKey
  pub device_encryption : PublicKey
  pub delegation : Pb.KeyDelegation
  pub retired : List Pb.RetiredDevice

-- `i64::min`
abbrev pub earlier : ℤ → ℤ → ℤ
earlier a b = if leb_ℤ a b then a else b

-- `retire`, by the public halves of the device
unfoldable pub retire_keys :
    List Pb.RetiredDevice → PublicKey → PublicKey → ℤ → List Pb.RetiredDevice
retire_keys [] signing encryption now =
    record {
      signing = some (to_pb signing);
      encryption = some (to_pb encryption);
      retired_at_unix_seconds = now;
    }
    ∷ []
retire_keys (entry ∷ entries) signing encryption now =
    let rest = retire_keys entries signing encryption now in
    if entry.signing == some (to_pb signing)
    then record entry { retired_at_unix_seconds = earlier entry.retired_at_unix_seconds now }
      ∷ entries
    else entry ∷ rest

module _ ⦃p : Primitives⦄ where
  -- One round of the loop of `device_keys_at_public`.
  unfoldable pub accept_retired : PublicKey → ℤ → List PublicKey → Pb.RetiredDevice → List PublicKey
  accept_retired current at result retired =
      if ltb_ℤ retired.retired_at_unix_seconds at then result else elim retired.signing [
        | none ↦ result
        | some wire ↦ elim (try_from wire) [
          | Error.ok public ↦
              if public == current || contains result public
              then result
              else result ++ (public ∷ [])
          | _ ↦ result
        ]
      ]

  unfoldable pub accept_all_retired :
      PublicKey → ℤ → List PublicKey → List Pb.RetiredDevice → List PublicKey
  accept_all_retired current at result [] = result
  accept_all_retired current at result (r ∷ rs) =
      accept_all_retired current at (accept_retired current at result r) rs

  -- `device_keys_at_public`
  unfoldable pub device_keys_at_public : PublicKey → List Pb.RetiredDevice → ℤ → List PublicKey
  device_keys_at_public current retired at = accept_all_retired current at (current ∷ []) retired

module _ {K : Type 0} ⦃j : Jwk K⦄ where
  -- `retire`, which returns the list that it mutates
  abbrev pub retire : List Pb.RetiredDevice → KeyDuo K → ℤ → List Pb.RetiredDevice
  retire retired device now =
      retire_keys retired (signing_public device) (encryption_public device) now

  unfoldable pub check_delegation : KeyDuo K → Pb.KeyDelegation → Outcome (Unit {0})
  check_delegation device delegation =
      if delegation.delegated == some (to_pb (signing_public device))
      then ok tt
      else err delegation_mismatch

  -- `IdentityKeys::delegation_is_current`
  unfoldable pub delegation_is_current : IdentityKeys K → Bool
  delegation_is_current keys =
      keys.delegation.signing_root == some (to_pb (signing_public keys.root))
      && keys.delegation.delegated == some (to_pb (signing_public keys.device))

  -- `DevicePublic::new`
  abbrev pub device_public :
      PrincipalId → KeyDuo K → Pb.KeyDelegation → List Pb.RetiredDevice → DevicePublic
  device_public id device delegation retired = record {
    principal_id = id;
    device_signing = signing_public device;
    device_encryption = encryption_public device;
    delegation = delegation;
    retired = retired;
  }

  module _ ⦃p : Primitives⦄ where
    -- `device_keys_at`
    abbrev pub device_keys_at : IdentityKeys K → ℤ → List PublicKey
    device_keys_at keys at = device_keys_at_public (signing_public keys.device) keys.retired at

    -- `verify_identity`
    unfoldable pub verify_identity : IdentityKeys K → Outcome (Unit {0})
    verify_identity keys = do
      wire ← ok_or keys.delegation.principal_genesis (verify_failed VerifyCheck.principal_genesis)
      genesis ← or_verify_failed (try_from wire) VerifyCheck.principal_genesis
      chain ← or_verify_failed (from_rotations genesis keys.rotations) VerifyCheck.principal_genesis
      root ← crypto_result (head chain)
      reject_if (signing_public keys.root != root) (verify_failed VerifyCheck.principal_genesis)
      principal ← crypto_result (chain_principal chain)
      reject_if (keys.principal_id != principal) (verify_failed VerifyCheck.agent_id)
      signing_root ← ok_or keys.delegation.signing_root (verify_failed VerifyCheck.signing_root)
      reject_if (signing_root != to_pb root) (verify_failed VerifyCheck.signing_root)
      reject_if (keys.delegation.delegated != some (to_pb (signing_public keys.device)))
          (verify_failed VerifyCheck.delegated)
      reject_if
          (keys.delegation.delegated_encryption != some (to_pb (encryption_public keys.device)))
          (verify_failed VerifyCheck.delegated_encryption)
      reject_if (keys.delegation.purpose != device_purpose) (verify_failed VerifyCheck.purpose)
      transcript ←
          or_verify_failed (key_delegation_transcript keys.delegation) VerifyCheck.signature
      or_verify_failed (verify_p256 root transcript keys.delegation.signature) VerifyCheck.signature
      ok tt
