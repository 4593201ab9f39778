-- ===== src/Keyfile/Store/Renewal.antt =====
-- `renew` of identity-keyfile/src/keys.rs where any of its writes fails or is the last.
use identity_crypto.Prelude.{◌≡◌, refl, Option, none, some}
use identity_crypto.Prelude.Int.{ℤ, saturating_add}
use identity_crypto.Primitives.{Primitives}
use identity_crypto.Pb
use identity_crypto.Jwk.{Jwk, KeyDuo}
use identity_crypto.Keys.{delegate_device}
use identity_crypto.Keyfile.Disk.{device_file, delegation_file, history_file, ok, World}
use identity_crypto.Keyfile.Outcome.{crypto_result}
use identity_crypto.Keyfile.Op.{After, After-follow, read-then, read-known, lift, ◌>>◌}
use identity_crypto.Keyfile.Files.{
  DuoCodec, DuoLaws, Jsons, JsonsLaws, check_dir, lock_exclusive, write_duo, write_delegation,
  write_history, write_json,
}
use identity_crypto.Keyfile.Files.Contents.{write_text-then}
use identity_crypto.Keyfile.Identity.{IdentityKeys, retire}
use identity_crypto.Keyfile.Load.{load_files}
use identity_crypto.Keyfile.Load.Reads.{
  Reads, load_files-Reads, Reads-load_files, Reads-fates, Reads-device, Reads-delegation,
  Reads-history,
}
use identity_crypto.Keyfile.Store.{renew, replace_device, next_device}

module _ {K : Type 0} ⦃j : Jwk K⦄ where
  -- The device of a directory while it is renewed: the old one, or the new one with the old one retired.
  pub data DeviceKept (old : IdentityKeys K) (now : ℤ) (replacement : Option (KeyDuo K))
      (keys : IdentityKeys K) : Type 0 where
    same_device : keys.device ≡ old.device → DeviceKept old now replacement keys
    new_device :
        (new : KeyDuo K)
        → replacement ≡ some new
        → keys.device ≡ new
        → keys.retired ≡ retire old.retired old.device now
        → DeviceKept old now replacement keys

  -- The keys of a directory whose renewal began with `old`.
  pub record Renewing (old : IdentityKeys K) (now : ℤ) (replacement : Option (KeyDuo K))
      (keys : IdentityKeys K) : Type 0 where
    pub root : keys.root ≡ old.root
    pub principal_id : keys.principal_id ≡ old.principal_id
    pub rotations : keys.rotations ≡ old.rotations
    pub device : DeviceKept old now replacement keys

module _ {K : Type 0} ⦃j : Jwk K⦄ ⦃c : DuoCodec K⦄ ⦃x : Jsons⦄ ⦃p : Primitives⦄
    (old : IdentityKeys K) (now : ℤ) (replacement : Option (KeyDuo K)) where
  abbrev Left : World → Type 0
  Left v = (keys : IdentityKeys K) × (load_files v ≡ ok keys) × Renewing old now replacement keys

  abbrev Kept : IdentityKeys K → World → Type 0
  Kept keys v = Reads keys v × Renewing old now replacement keys

  left : (keys : IdentityKeys K) (v : World) → Kept keys v → Left v
  left keys v k = (keys, Reads-load_files v keys k.0, k.1)

module _ {K : Type 0} ⦃j : Jwk K⦄ ⦃c : DuoCodec K⦄ ⦃x : Jsons⦄ ⦃p : Primitives⦄ (duo : DuoLaws c)
    (json : JsonsLaws x) where
  renewing_device :
      (old : IdentityKeys K) (now : ℤ) (replacement : Option (KeyDuo K)) (keys : IdentityKeys K)
      (d : Pb.KeyDelegation)
      → DeviceKept old now replacement keys
      → DeviceKept old now replacement (record keys { delegation = d })
  renewing_device old now replacement keys d (same_device e) = same_device e
  renewing_device old now replacement keys d (new_device new r e e') = new_device new r e e'

  replace_device-After :
      (old : IdentityKeys K) (now : ℤ) (replacement : Option (KeyDuo K)) (w : World)
      → Reads old w
      → After
          (Kept old now replacement)
          (Left old now replacement)
          (replace_device old replacement now w)
  unfolding replace_device write_history write_json write_duo
  replace_device-After old now none w r =
      (r, record { root = refl; principal_id = refl; rotations = refl; device = same_device refl })
  replace_device-After old now (some new) w r =
      write_text-then _ history_file _ _ _ _ w
        (λ f. left old now (some new) old _ (Reads-fates old w r f, same))
        (λ b f e. left old now (some new) _ _ (Reads-history old w r f json b _ e, same'))
        λ b f e.
          write_text-then _ device_file _ _ _ _ _
            (λ f'.
              left old now (some new) _ _
                (Reads-fates _ _ (Reads-history old w r f json b _ e) f', same'))
            (λ b' f' e'.
              left old now (some new) _ _
                (Reads-device _ _ (Reads-history old w r f json b _ e) f' duo b' new e', next))
            λ b' f' e'.
              (Reads-device _ _ (Reads-history old w r f json b _ e) f' duo b' new e', next)
    where
      same : Renewing old now (some new) old
      same = record {
        root = refl;
        principal_id = refl;
        rotations = refl;
        device = same_device refl;
      }

      same' :
          Renewing old now (some new) (record old { retired = retire old.retired old.device now })
      same' = record {
        root = refl;
        principal_id = refl;
        rotations = refl;
        device = same_device refl;
      }

      next :
          Renewing old now
            (some new)
            (record old { retired = retire old.retired old.device now; device = new })
      next = record {
        root = refl;
        principal_id = refl;
        rotations = refl;
        device = new_device new refl refl refl;
      }

  write_renewal :
      (old : IdentityKeys K) (now : ℤ) (replacement : Option (KeyDuo K)) (d : Pb.KeyDelegation)
      (keys : IdentityKeys K) (w : World)
      → Kept old now replacement keys w
      → After
          (λ keys v. (load_files v ≡ ok keys) × Renewing old now replacement keys)
          (Left old now replacement)
          ((write_delegation d >> lift (ok (record keys { delegation = d }))) w)
  unfolding write_delegation write_json
  write_renewal old now replacement d keys w k =
      let same : Renewing old now replacement (record keys { delegation = d }) = record {
        root = k.1.root;
        principal_id = k.1.principal_id;
        rotations = k.1.rotations;
        device = renewing_device old now replacement keys d k.1.device;
      } in
      write_text-then _ delegation_file _ _ _ _ w
        (λ f. left old now replacement keys _ (Reads-fates keys w k.0 f, k.1))
        (λ b f e. left old now replacement _ _ (Reads-delegation keys w k.0 f json b d e, same))
        λ b f e. (Reads-load_files _ _ (Reads-delegation keys w k.0 f json b d e), same)

  -- Whatever comes of its writes, `renew` leaves a directory whose files read: its root, its id and its
  -- rotations as before, and as its device the old one, or the new one with the old one in the history. If
  -- it returns keys, these are what the files read as. The codecs behave as documented.
  pub renew-Renewing :
      (old : IdentityKeys K) (now ttl : ℤ) (replacement : Option (KeyDuo K)) (before : World)
      → load_files before ≡ ok old
      → After
          (λ keys v. (load_files v ≡ ok keys) × Renewing old now replacement keys)
          (λ v.
            (keys : IdentityKeys K) × (load_files v ≡ ok keys) × Renewing old now replacement keys)
          (renew now ttl replacement before)
  unfolding renew
  renew-Renewing old now ttl replacement before h =
      let r = load_files-Reads before old h in
      let kept : Left old now replacement before = left old now replacement old before (
        r,
        record { root = refl; principal_id = refl; rotations = refl; device = same_device refl },
      ) in
      read-then _ (check_dir before) before _ (Left old now replacement) kept λ u1 e1.
        read-then _ (lock_exclusive before) before _ (Left old now replacement) kept λ u2 e2.
          read-known _ (load_files before) old before _ (Left old now replacement) h λ u3.
            read-then _
              (crypto_result (
                delegate_device old.root old.principal_id (next_device old replacement) now
                  (saturating_add now ttl)))
              before _ (Left old now replacement) kept
              λ d e3.
                After-follow _ (Kept old now replacement) _ (Left old now replacement)
                  (replace_device old replacement now before)
                  (replace_device-After old now replacement before r)
                  λ keys w k. write_renewal old now replacement d keys w k
