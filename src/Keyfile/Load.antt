-- ===== src/Keyfile/Load.antt =====
-- identity-keyfile/src/keys.rs: the operations that read the directory.
pub mod Reads
pub mod Verified
pub mod Parts
use identity_crypto.Prelude.{
  ℕ, ◌%◌, Bool, true, false, ◌≡◌, not, ◌&&◌, Option, none, some, ◌==◌, ◌!=◌, nat_eq, option_eq,
  if◌then◌else◌,
}
use identity_crypto.Prelude.Int.{int_eq}
use identity_crypto.Primitives.{Primitives}
use identity_crypto.KeyTypes.{PrincipalId, key_eq, principal_eq}
use identity_crypto.PublicKey.{try_from}
use identity_crypto.Pb
use identity_crypto.Jwk.{Jwk, KeyDuo}
use identity_crypto.Signature.{verify_p256}
use identity_crypto.Transcripts.Keys.{key_delegation_transcript}
use identity_crypto.Authority.{from_rotations, head, chain_principal}
use identity_crypto.Registry.Checks.{device_purpose}
use identity_crypto.Keyfile.Disk
use identity_crypto.Keyfile.Disk.{
  root_file, device_file, agent_id_file, io, at_dir, verify_failed, VerifyCheck, Outcome, err, ok,
  World,
}
use identity_crypto.Keyfile.Outcome.{
  ◌>>=◌, ◌>>◌, >>=-elim, ok-injective, reject_if, ok_or, crypto_result, or_verify_failed,
  to_verify_failed,
}
use identity_crypto.Keyfile.Files.{
  DuoCodec, Jsons, exists, read_duo, read_delegation, read_history, read_rotations,
  read_principal_id, check_dir, lock_shared,
}
use identity_crypto.Keyfile.Identity.{IdentityKeys, DeviceKeys, check_delegation, verify_identity}

-- `IdentityKeys::exists`
unfoldable pub identity_exists : World → Bool
identity_exists w =
    elim w.dir [ Disk.directory mode ↦ mode % 64 == 0 | _ ↦ false ] && exists w agent_id_file

-- What `load_existing` and `read_principal` do first: whether there is a directory with an `agent_id`.
unfoldable pub marker : World → Outcome Bool
marker w = elim w.dir [
  | Disk.nothing ↦ ok false
  | Disk.hidden ↦ err (io at_dir)
  | _ ↦ (do check_dir w; ok (exists w agent_id_file))
]

module _ ⦃p : Primitives⦄ ⦃x : Jsons⦄ where
  -- The checks of `read_principal` on what it has read.
  unfoldable pub principal_of :
      PrincipalId → Pb.KeyDelegation → Outcome Pb.RootRotations → Outcome PrincipalId
  principal_of id delegation rotations = do
    wire ← ok_or delegation.principal_genesis (verify_failed VerifyCheck.principal_genesis)
    genesis ← or_verify_failed (try_from wire) VerifyCheck.principal_genesis
    rotations ← to_verify_failed rotations VerifyCheck.principal_genesis
    chain ←
        or_verify_failed (from_rotations genesis rotations.rotations) VerifyCheck.principal_genesis
    principal ← crypto_result (chain_principal chain)
    reject_if (id != principal) (verify_failed VerifyCheck.agent_id)
    root_wire ← ok_or delegation.signing_root (verify_failed VerifyCheck.signing_root)
    signing_root ← or_verify_failed (try_from root_wire) VerifyCheck.signing_root
    root ← crypto_result (head chain)
    reject_if (signing_root != root) (verify_failed VerifyCheck.signing_root)
    reject_if (delegation.purpose != device_purpose) (verify_failed VerifyCheck.purpose)
    transcript ← or_verify_failed (key_delegation_transcript delegation) VerifyCheck.signature
    or_verify_failed (verify_p256 root transcript delegation.signature) VerifyCheck.signature
    ok id

  -- `read_principal`, once the marker is there
  unfoldable pub read_marked_principal : World → Outcome (Option PrincipalId)
  read_marked_principal w = do
    id ← read_principal_id w
    delegation ← read_delegation w
    id ← principal_of id delegation (read_rotations w)
    ok (some id)

  unfoldable pub read_principal : World → Outcome (Option PrincipalId)
  read_principal w = do there ← marker w; if there then read_marked_principal w else ok none

  module _ {K : Type 0} ⦃c : DuoCodec K⦄ where
    unfoldable pub load_files : World → Outcome (IdentityKeys K)
    load_files w = do
      root ← read_duo w root_file
      device ← read_duo w device_file
      delegation ← read_delegation w
      principal_id ← read_principal_id w
      history ← read_history w
      rotations ← read_rotations w
      ok (record {
        root = root;
        device = device;
        delegation = delegation;
        principal_id = principal_id;
        retired = history.retired;
        rotations = rotations.rotations;
      })

  module _ {K : Type 0} ⦃j : Jwk K⦄ ⦃c : DuoCodec K⦄ where
    unfoldable pub load_locked : World → Outcome (IdentityKeys K)
    load_locked w = do
      check_dir w
      keys ← load_files w
      check_delegation keys.device keys.delegation
      ok keys

    pub load_locked-load_files :
        (w : World) (keys : IdentityKeys K) → load_locked w ≡ ok keys → load_files w ≡ ok keys
    unfolding load_locked
    load_locked-load_files w keys h = >>=-elim _ _ h λ u1 e1 h1.
        >>=-elim _ _ h1 λ k e2 h2. >>=-elim _ _ h2 λ u2 e3 h3. rw (← (ok-injective h3)) e2

    -- `IdentityKeys::load`
    unfoldable pub load : World → Outcome (IdentityKeys K)
    load w = do check_dir w; lock_shared w; load_locked w

    unfoldable pub load_verified : World → Outcome (IdentityKeys K)
    load_verified w = do
      check_dir w
      lock_shared w
      keys ← load_files w
      verify_identity keys
      ok keys

    unfoldable pub load_existing : World → Outcome (Option (IdentityKeys K))
    load_existing w = do
      there ← marker w
      if there then (do keys ← load_verified w; ok (some keys)) else ok none

    -- `DeviceKeys::load`
    unfoldable pub load_device : World → Outcome (DeviceKeys K)
    load_device w = do
      check_dir w
      lock_shared w
      device ← read_duo w device_file
      delegation ← read_delegation w
      principal_id ← read_principal_id w
      history ← read_history w
      check_delegation device delegation
      ok (record {
        device = device;
        delegation = delegation;
        principal_id = principal_id;
        retired = history.retired;
      })
