-- ===== src/Keyfile/Store.antt =====
-- identity-keyfile/src/keys.rs: the operations that write the directory. Each holds the exclusive lock to
-- its end. The key duos that the source generates are arguments.
pub mod RoundTrip
pub mod Initial
pub mod Crash
pub mod Renewal
pub mod Roots
pub mod Refused
pub mod Due
use identity_crypto.Prelude.{
  Bool, true, false, not, ◌||◌, Option, none, some, List, [], ◌∷◌, ◌++◌, any, last?, ◌==◌, ◌!=◌,
  option_eq, if◌then◌else◌,
}
use identity_crypto.Prelude.Int.{ℤ, saturating_add}
use identity_crypto.Primitives.{Primitives}
use identity_crypto.KeyTypes.{key_eq}
use identity_crypto.PublicKey.{to_pb}
use identity_crypto.Pb
use identity_crypto.Pb.Equality.{wire_key_eq}
use identity_crypto.Jwk.{Jwk, KeyDuo}
use identity_crypto.Keys
use identity_crypto.Keys.{signing_public, encryption_public, delegate_device, renewal_due}
use identity_crypto.Keyfile.Disk.{
  File, root_file, device_file, delegation_file, agent_id_file, history_file, rotations_file,
  delegation_mismatch, already_initialised, Outcome, ok, World,
}
use identity_crypto.Keyfile.Outcome.{reject_if, crypto_result}
use identity_crypto.Keyfile.Op.{Op, lift, reading, ◌>>=◌, ◌>>◌}
use identity_crypto.Keyfile.Files.{
  DuoCodec, Jsons, exists, read_duo, write_duo, write_delegation, write_history, write_rotations,
  write_principal_id, check_dir, ensure_dir, lock_exclusive,
}
use identity_crypto.Keyfile.Identity.{IdentityKeys, retire}
use identity_crypto.Keyfile.Load.{load_files, load_locked}

-- `const AGENT_FILES`
abbrev pub agent_files : List File
agent_files =
    root_file ∷ device_file ∷ delegation_file ∷ agent_id_file ∷ history_file ∷ rotations_file ∷ []

-- `AGENT_FILES.iter().any(|name| exists(&dir.join(name)))`, which `init` refuses
unfoldable pub check_uninitialised : World → Outcome (Unit {0})
check_uninitialised w = reject_if (any (exists w) agent_files) already_initialised

-- `Vec::pop`
abbrev pub pop {ℓ} : {A : Type ℓ} → List A → List A
pop [] = []
pop (x ∷ []) = []
pop (x ∷ y ∷ ys) = x ∷ pop (y ∷ ys)

-- Whether the last rotation starts at the key.
unfoldable pub is_pending : List Pb.RootRotation → Pb.PublicKey → Bool
is_pending rotations current = elim (last? rotations) [
  | none ↦ false
  | some last ↦ last.old_root == some current
]

-- The chain that `rotate_root` extends: without a pending last rotation.
unfoldable pub installed : List Pb.RootRotation → Pb.PublicKey → List Pb.RootRotation
installed rotations current = if is_pending rotations current then pop rotations else rotations

module _ {K : Type 0} ⦃j : Jwk K⦄ where
  -- The keys that `init` returns.
  abbrev pub initial_keys : KeyDuo K → KeyDuo K → Pb.KeyDelegation → IdentityKeys K
  initial_keys root device delegation = record {
    root = root;
    device = device;
    delegation = delegation;
    principal_id = Keys.principal_id root;
    retired = [];
    rotations = [];
  }

module _ {K : Type 0} ⦃c : DuoCodec K⦄ ⦃x : Jsons⦄ ⦃p : Primitives⦄ where
  -- The writes of `save` and `init`, in their order.
  unfoldable pub write_all_files : IdentityKeys K → Op (Unit {0})
  write_all_files keys = do
    write_duo root_file keys.root
    write_duo device_file keys.device
    write_delegation keys.delegation
    write_history (record { retired = keys.retired })
    write_rotations (record { rotations = keys.rotations })
    write_principal_id keys.principal_id

  -- `IdentityKeys::save`
  unfoldable pub save : IdentityKeys K → Op (Unit {0})
  save keys = do ensure_dir; reading lock_exclusive; write_all_files keys

module _ {K : Type 0} ⦃j : Jwk K⦄ ⦃c : DuoCodec K⦄ ⦃x : Jsons⦄ ⦃p : Primitives⦄ where
  -- `IdentityKeys::init`
  unfoldable pub init : KeyDuo K → KeyDuo K → ℤ → ℤ → Op (IdentityKeys K)
  init root device now ttl_seconds = do
    ensure_dir
    delegation ← lift (
        crypto_result (
          delegate_device root (Keys.principal_id root) device now
            (saturating_add now ttl_seconds)))
    reading lock_exclusive
    reading check_uninitialised
    write_all_files (initial_keys root device delegation)
    lift (ok (initial_keys root device delegation))

  -- The writes of `renew` that a new device needs, and the keys with that device.
  unfoldable pub replace_device : IdentityKeys K → Option (KeyDuo K) → ℤ → Op (IdentityKeys K)
  replace_device keys none now = lift (ok keys)
  replace_device keys (some new_device) now = do
    let retired = retire keys.retired keys.device now
    write_history (record { retired = retired })
    write_duo device_file new_device
    lift (ok (record keys { retired = retired; device = new_device }))

  -- The device that the new delegation names.
  abbrev pub next_device : IdentityKeys K → Option (KeyDuo K) → KeyDuo K
  next_device keys none = keys.device
  next_device keys (some new_device) = new_device

  -- `IdentityKeys::renew`: the replacement is the device generated for `new_device`, or `none`.
  unfoldable pub renew : ℤ → ℤ → Option (KeyDuo K) → Op (IdentityKeys K)
  renew now ttl_seconds replacement = do
    reading check_dir
    reading lock_exclusive
    keys ← reading load_files
    delegation ← lift (
        crypto_result (
          delegate_device keys.root keys.principal_id (next_device keys replacement) now
            (saturating_add now ttl_seconds)))
    keys ← replace_device keys replacement now
    write_delegation delegation
    lift (ok (record keys { delegation = delegation }))

  -- `IdentityKeys::rotate_device`
  abbrev pub rotate_device : ℤ → ℤ → KeyDuo K → Op (IdentityKeys K)
  rotate_device now ttl_seconds new_device = renew now ttl_seconds (some new_device)

  -- Whether the keys on the disk are other ones than those in memory.
  unfoldable pub differs : KeyDuo K → KeyDuo K → Bool
  differs a b = signing_public a != signing_public b || encryption_public a != encryption_public b

  -- The part of `renew_if_due` that a directory needs.
  unfoldable pub write_renewed : IdentityKeys K → Pb.KeyDelegation → Op (Unit {0})
  write_renewed keys delegation = do
    reading check_dir
    reading lock_exclusive
    disk_root ← reading (λ w. read_duo w root_file)
    disk_device ← reading (λ w. read_duo w device_file)
    lift (
        reject_if (differs disk_root keys.root || differs disk_device keys.device)
          delegation_mismatch)
    write_delegation delegation

  -- `IdentityKeys::renew_if_due`, which returns the keys that it mutates; `on_disk` says if `dir` is given
  unfoldable pub renew_if_due : IdentityKeys K → Bool → ℤ → ℤ → ℤ → Op (Bool × IdentityKeys K)
  renew_if_due keys on_disk now ttl_seconds margin_seconds =
      if not (renewal_due keys.delegation now margin_seconds) then lift (ok (false, keys)) else do
        delegation ← lift (
            crypto_result (
              delegate_device keys.root keys.principal_id keys.device now
                (saturating_add now ttl_seconds)))
        if on_disk then write_renewed keys delegation else lift (ok tt)
        lift (ok (true, record keys { delegation = delegation }))

  -- `IdentityKeys::rotate_root`
  unfoldable pub rotate_root : KeyDuo K → ℤ → Op Pb.RootRotation
  rotate_root new_root now = do
    reading check_dir
    reading lock_exclusive
    keys ← reading load_locked
    let current = to_pb (signing_public keys.root)
    let rotations = installed keys.rotations current
    signed ← lift (crypto_result (Keys.rotation keys.root keys.principal_id new_root now))
    write_rotations (record { rotations = rotations ++ (signed ∷ []) })
    write_duo root_file new_root
    lift (ok signed)
