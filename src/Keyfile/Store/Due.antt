-- ===== src/Keyfile/Store/Due.antt =====
-- `renew_if_due` of identity-keyfile/src/keys.rs: the keys in memory and those of the directory.
use identity_crypto.Prelude.{◌≡◌, refl, Bool, true, false, not, ◌||◌, if◌then◌else◌}
use identity_crypto.Prelude.Int.{ℤ, saturating_add}
use identity_crypto.Primitives.{Primitives}
use identity_crypto.Error
use identity_crypto.Pb
use identity_crypto.Jwk.{Jwk}
use identity_crypto.Keys.{delegate_device, renewal_due}
use identity_crypto.Keyfile.Disk.{
  root_file, device_file, delegation_file, delegation_mismatch, ok, World,
}
use identity_crypto.Keyfile.Outcome.{reject_if, crypto_result, crypto_result-eq-ok}
use identity_crypto.Keyfile.Op.{After, After-follow, read-then, lift, ◌>>=◌, ◌>>◌}
use identity_crypto.Keyfile.Files.{
  DuoCodec, Jsons, JsonsLaws, read_duo, check_dir, lock_exclusive, write_delegation, write_json,
}
use identity_crypto.Keyfile.Files.Contents.{write_text-After}
use identity_crypto.Keyfile.Identity.{IdentityKeys}
use identity_crypto.Keyfile.Load.{load_files}
use identity_crypto.Keyfile.Load.Reads.{
  Reads, load_files-Reads, Reads-load_files, Reads-fates, Reads-delegation,
}
use identity_crypto.Keyfile.Store.{renew_if_due, write_renewed, differs}

module _ {K : Type 0} ⦃j : Jwk K⦄ ⦃p : Primitives⦄ where
  -- What `renew_if_due` returns: the keys as they were, not due; or the keys with a delegation of the same
  -- device from now on.
  pub data Renewed (keys : IdentityKeys K) (now ttl margin : ℤ)
      : Bool × IdentityKeys K → Type 0 where
    not_due :
        renewal_due keys.delegation now margin ≡ false → Renewed keys now ttl margin (false, keys)
    renewed :
        (d : Pb.KeyDelegation)
        → renewal_due keys.delegation now margin ≡ true
        → delegate_device keys.root keys.principal_id keys.device now (saturating_add now ttl)
          ≡ Error.ok d
        → Renewed keys now ttl margin (true, record keys { delegation = d })

module _ {K : Type 0} ⦃j : Jwk K⦄ ⦃c : DuoCodec K⦄ ⦃x : Jsons⦄ ⦃p : Primitives⦄ (json : JsonsLaws x)
    (keys : IdentityKeys K) (before : World) (r : Reads keys before) where
  -- The directory reads as the keys with some delegation.
  abbrev Left : World → Type 0
  Left v = (d : Pb.KeyDelegation) × (load_files v ≡ ok (record keys { delegation = d }))

  kept : Left before
  kept = (keys.delegation, Reads-load_files before keys r)

  write_renewed-After :
      (d : Pb.KeyDelegation)
      → After
          (λ (u : Unit {0}) v. load_files v ≡ ok (record keys { delegation = d }))
          Left
          (write_renewed keys d before)
  unfolding write_renewed write_delegation write_json
  write_renewed-After d = read-then _ (check_dir before) before _ Left kept λ u1 e1.
      read-then _ (lock_exclusive before) before _ Left kept λ u2 e2.
        read-then _ (read_duo before root_file) before _ Left kept λ root e3.
          read-then _ (read_duo before device_file) before _ Left kept λ device e4.
            read-then _
              (reject_if (differs root keys.root || differs device keys.device) delegation_mismatch)
              before _ Left kept
              λ u5 e5.
                write_text-After delegation_file _ Left (λ v g. (d, g)) _ _ before
                  (λ b f e. Reads-load_files _ _ (Reads-delegation keys before r f json b d e))
                  (λ f. (keys.delegation, Reads-load_files _ keys (Reads-fates keys before r f)))

module _ {K : Type 0} ⦃j : Jwk K⦄ ⦃c : DuoCodec K⦄ ⦃x : Jsons⦄ ⦃p : Primitives⦄
    (json : JsonsLaws x) where
  -- Whatever comes of its write, `renew_if_due` with the directory that holds the keys returns keys that the
  -- directory then reads as: the same ones where they are not due, or with a delegation of the same device that
  -- `delegate_device` gives; if it returns none, the directory reads as the same keys with some delegation. The
  -- codecs behave as documented.
  pub renew_if_due-Renewed :
      (keys : IdentityKeys K) (now ttl margin : ℤ) (before : World)
      → load_files before ≡ ok keys
      → After
          (λ out v. Renewed keys now ttl margin out × (load_files v ≡ ok out.1))
          (λ v. (d : Pb.KeyDelegation) × (load_files v ≡ ok (record keys { delegation = d })))
          (renew_if_due keys true now ttl margin before)
  unfolding renew_if_due
  renew_if_due-Renewed keys now ttl margin before h =
      let r = load_files-Reads before keys h in by_due (renewal_due keys.delegation now margin) refl
    where
      by_due :
          (due : Bool)
          → renewal_due keys.delegation now margin ≡ due
          → After
              (λ out v. Renewed keys now ttl margin out × (load_files v ≡ ok out.1))
              (λ v. (d : Pb.KeyDelegation) × (load_files v ≡ ok (record keys { delegation = d })))
              ((if not due then lift (ok (false, keys)) else (do
                delegation ← lift (
                    crypto_result (
                      delegate_device keys.root keys.principal_id keys.device now
                        (saturating_add now ttl)))
                write_renewed keys delegation
                lift (ok (true, record keys { delegation = delegation }))))
                before)
      by_due false e = (not_due e, h)
      by_due true e =
          let r = load_files-Reads before keys h in
          read-then _
            (crypto_result (
              delegate_device keys.root keys.principal_id keys.device now (saturating_add now ttl)))
            before _ (Left json keys before r) (kept json keys before r)
            λ d e1.
              After-follow _
                (λ (u : Unit {0}) v. load_files v ≡ ok (record keys { delegation = d })) _
                (Left json keys before r) (write_renewed keys d before)
                (write_renewed-After json keys before r d)
                λ u v g. (renewed d e (crypto_result-eq-ok _ e1), g)
