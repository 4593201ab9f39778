-- ===== src/Keyfile/Store/RoundTrip.antt =====
-- What `save` and `init` of identity-keyfile/src/keys.rs leave in the directory, before the operations
-- that read it.
use identity_crypto.Prelude.{◌≡◌, refl, ap, some, arith, option_beq_iff, nat_eq, option_eq}
use identity_crypto.Prelude.Int.{int_eq}
use identity_crypto.Primitives.{Primitives, HexLaws, IsBytes}
use identity_crypto.KeyTypes.{key_eq, principal_eq}
use identity_crypto.PublicKey.{IsKey, to_pb}
use identity_crypto.Pb
use identity_crypto.Pb.Equality.{wire_key_eq}
use identity_crypto.Principal.{to_string}
use identity_crypto.Jwk.{Jwk, KeyDuo}
use identity_crypto.Keys.{signing_public}
use identity_crypto.Keyfile.Disk.{
  root_file, device_file, delegation_file, agent_id_file, history_file, rotations_file, ok, content,
  World,
}
use identity_crypto.Keyfile.Outcome.{>>=-ok}
use identity_crypto.Keyfile.Op.{follow-elim, read-elim}
use identity_crypto.Keyfile.Files.{
  DuoCodec, DuoLaws, Jsons, JsonsLaws, read_delegation, read_history, read_rotations, check_dir,
  ensure_dir, ensure_at, lock_exclusive, lock_shared, write_duo, write_delegation, write_history,
  write_rotations, write_principal_id, write_json,
}
use identity_crypto.Keyfile.Files.Contents.{
  Holds, read_duo-Holds, parse_file-Holds, read_optional-Holds, read_principal_id-Holds,
  write_text-follow, write_private-last,
}
use identity_crypto.Keyfile.Identity.{IdentityKeys, check_delegation}
use identity_crypto.Keyfile.Load.{load_files, load_locked, load}
use identity_crypto.Keyfile.Store.{write_all_files, save}

pub check_dir-of_dir : (v w : World) → v.dir ≡ w.dir → check_dir w ≡ ok tt → check_dir v ≡ ok tt
unfolding check_dir
check_dir-of_dir v w e h = ground arith

pub lock_shared-of_lock :
    (v w : World) → v.lock ≡ w.lock → lock_exclusive w ≡ ok tt → lock_shared v ≡ ok tt
unfolding lock_shared lock_exclusive
lock_shared-of_lock v w e h = ground arith

pub ensure_dir-check_dir :
    (w : World) {u : Unit {0}} {v : World} → ensure_dir w ≡ (ok u, v) → check_dir v ≡ ok tt
unfolding ensure_dir ensure_at
ensure_dir-check_dir w h = ground arith

module _ {K : Type 0} ⦃c : DuoCodec K⦄ ⦃x : Jsons⦄ ⦃p : Primitives⦄ where
  -- Every file holds its part of the keys.
  pub record Written (keys : IdentityKeys K) (w : World) : Type 0 where
    pub root : Holds w root_file (c.export_key_duo_jwk keys.root)
    pub device : Holds w device_file (c.export_key_duo_jwk keys.device)
    pub delegation : Holds w delegation_file (x.delegation_json.to_string_pretty keys.delegation)
    pub history :
        Holds w history_file (x.history_json.to_string_pretty (record { retired = keys.retired }))
    pub rotations :
        Holds w rotations_file
          (x.rotations_json.to_string_pretty (record { rotations = keys.rotations }))
    pub agent_id : w.files agent_id_file ≡ content (to_string keys.principal_id)

  -- A run of the writes of `save` that succeeds leaves every file written.
  pub write_all_files-Written :
      (keys : IdentityKeys K) (w : World) {u : Unit {0}} {v : World}
      → write_all_files keys w ≡ (ok u, v)
      → Written keys v × (v.dir ≡ w.dir) × (v.lock ≡ w.lock)
  unfolding write_all_files write_duo write_delegation write_history write_rotations
      write_principal_id write_json
  write_all_files-Written keys w {v} h = write_text-follow _ _ _ root_file w h λ b1 f1 e1 h1.
      write_text-follow _ _ _ device_file _ h1 λ b2 f2 e2 h2.
        write_text-follow _ _ _ delegation_file _ h2 λ b3 f3 e3 h3.
          write_text-follow _ _ _ history_file _ h3 λ b4 f4 e4 h4.
            write_text-follow _ _ _ rotations_file _ h4 λ b5 f5 e5 h5.
              write_private-last agent_id_file _ _ h5 λ f6 e. (
                record {
                  root = record { bytes = b1; printed = e1; there = ap (λ x. x.files root_file) e };
                  device = record {
                    bytes = b2;
                    printed = e2;
                    there = ap (λ x. x.files device_file) e;
                  };
                  delegation = record {
                    bytes = b3;
                    printed = e3;
                    there = ap (λ x. x.files delegation_file) e;
                  };
                  history = record {
                    bytes = b4;
                    printed = e4;
                    there = ap (λ x. x.files history_file) e;
                  };
                  rotations = record {
                    bytes = b5;
                    printed = e5;
                    there = ap (λ x. x.files rotations_file) e;
                  };
                  agent_id = ap (λ x. x.files agent_id_file) e;
                },
                ap (λ x. x.dir) e,
                ap (λ x. x.lock) e,
              )

  -- Keys whose id is a validated key of bytes are read back from the files that hold them.
  pub load_files-Written :
      DuoLaws c
      → JsonsLaws x
      → HexLaws p
      → (keys : IdentityKeys K) (w : World) → IsKey keys.principal_id.genesis
      → IsBytes keys.principal_id.genesis.bytes
      → Written keys w
      → load_files w ≡ ok keys
  unfolding load_files read_delegation read_history read_rotations
  load_files-Written duo json hex keys w key bytes h =
      >>=-ok _ _ (read_duo-Holds duo w root_file keys.root h.root) (
        >>=-ok _ _ (read_duo-Holds duo w device_file keys.device h.device) (
          >>=-ok _ _
            (parse_file-Holds x.delegation_json json.delegation w delegation_file keys.delegation
              h.delegation)
            (>>=-ok _ _ (read_principal_id-Holds hex w keys.principal_id key bytes h.agent_id) (
              >>=-ok _ _
                (read_optional-Holds x.history_json json.history w history_file _ h.history _)
                (>>=-ok _ _
                  (read_optional-Holds x.rotations_json json.rotations w rotations_file _
                    h.rotations _)
                  refl)))))

  module _ ⦃j : Jwk K⦄ where
    check_delegation-ok :
        (device : KeyDuo K) (d : Pb.KeyDelegation)
        → d.delegated ≡ some (to_pb (signing_public device))
        → check_delegation device d ≡ ok tt
    unfolding check_delegation
    check_delegation-ok device d h =
        let e = option_beq_iff d.delegated (some (to_pb (signing_public device))) in ground arith

    -- Where the codecs behave as documented: keys whose delegation names the device, and whose id is a
    -- validated key of bytes, are loaded again from the directory that a successful `save` leaves.
    pub save-load :
        DuoLaws c
        → JsonsLaws x
        → HexLaws p
        → (keys : IdentityKeys K) (before after : World) → IsKey keys.principal_id.genesis
        → IsBytes keys.principal_id.genesis.bytes
        → keys.delegation.delegated ≡ some (to_pb (signing_public keys.device))
        → save keys before ≡ (ok tt, after)
        → load after ≡ ok keys
    unfolding save load load_locked check_delegation
    save-load duo json hex keys before after key bytes named h = follow-elim _ _ h λ u1 w1 e1 h1.
        read-elim _ (lock_exclusive w1) w1 h1 λ u2 e2 h2.
          let (files, dir, lock) = write_all_files-Written keys w1 h2 in
          let checked = check_dir-of_dir after w1 dir (ensure_dir-check_dir before e1) in
          >>=-ok _ _ checked (
            >>=-ok _ _ (lock_shared-of_lock after w1 lock e2) (
              >>=-ok _ _ checked (
                >>=-ok _ _ (load_files-Written duo json hex keys after key bytes files)
                  (>>=-ok _ _ (check_delegation-ok keys.device keys.delegation named) refl))))
