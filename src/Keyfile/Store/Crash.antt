-- ===== src/Keyfile/Store/Crash.antt =====
-- `init` of identity-keyfile/src/keys.rs where any of its writes fails or is the last.
use identity_crypto.Prelude.{◌≡◌, refl, ◌⊎◌, inl, inr, Bool, true, false, if◌then◌else◌}
use identity_crypto.Prelude.Int.{ℤ, saturating_add}
use identity_crypto.Primitives.{Primitives, HexLaws, IsBytes}
use identity_crypto.Jwk.{Jwk, JwkLaws, KeyDuo}
use identity_crypto.Keys.{signing_public}
use identity_crypto.Keyfile.Disk
use identity_crypto.Keyfile.Disk.{
  File, root_file, device_file, delegation_file, agent_id_file, history_file, rotations_file,
  KeyfileError, Outcome, ok, err, World, Fate, replaced,
}
use identity_crypto.Keyfile.Outcome.{>>=-ok, crypto_result-eq-ok}
use identity_crypto.Keyfile.Op.{After, After-follow, After-mono, read-then}
use identity_crypto.Keyfile.Files.{
  DuoCodec, DuoLaws, Jsons, JsonsLaws, exists, check_dir, ensure_dir, ensure_at, fresh_dir,
  write_duo, write_delegation, write_history, write_rotations, write_principal_id, write_json,
}
use identity_crypto.Keyfile.Files.Contents.{write_text-then, write_private-After}
use identity_crypto.Keyfile.Identity.{IdentityKeys}
use identity_crypto.Keyfile.Load.{load_verified}
use identity_crypto.Keyfile.Store.{init, initial_keys, check_uninitialised, write_all_files}
use identity_crypto.Keyfile.Store.RoundTrip.{
  Written, check_dir-of_dir, lock_shared-of_lock, load_files-Written,
}
use identity_crypto.Keyfile.Store.Initial.{initial_keys-verify_identity}

-- There is no `agent_id`.
abbrev Unmarked : World → Type 0
Unmarked w = exists w agent_id_file ≡ false

After-read :
    {T : Type 0} (r : Outcome T) (w : World) (holds : T → World → Type 0) (failed : World → Type 0)
    → failed w
    → ((t : T) → r ≡ ok t → holds t w)
    → After holds failed (r, w)
After-read (ok t) w holds failed kept done = done t refl
After-read (err e) w holds failed kept done = kept
After-read Disk.panic w holds failed kept done = kept

ensure_dir-After :
    (w : World)
    → Unmarked w
    → After (λ (u : Unit {0}) v. Unmarked v × (check_dir v ≡ ok tt)) Unmarked (ensure_dir w)
unfolding ensure_dir ensure_at exists
ensure_dir-After w h = by_dir w.dir w h
  where
    checked :
        (w : World)
        → Unmarked w
        → After (λ (u : Unit {0}) v. Unmarked v × (check_dir v ≡ ok tt)) Unmarked (check_dir w, w)
    checked w h =
        After-read (check_dir w) w (λ u v. Unmarked v × (check_dir v ≡ ok tt)) Unmarked h
          λ u e. (h, e)

    made :
        (b : Bool) (w : World)
        → Unmarked w
        → After
            (λ (u : Unit {0}) v. Unmarked v × (check_dir v ≡ ok tt))
            Unmarked
            (if b then (check_dir (fresh_dir w), fresh_dir w) else (err (Disk.io Disk.at_dir), w))
    made true w h = checked (fresh_dir w) refl
    made false w h = h

    by_dir :
        (d : Disk.Dir) (w : World)
        → Unmarked w
        → After (λ (u : Unit {0}) v. Unmarked v × (check_dir v ≡ ok tt)) Unmarked (ensure_at d w)
    by_dir Disk.nothing w h = made w.creates w h
    by_dir Disk.hidden w h = h
    by_dir Disk.other w h = checked w h
    by_dir (Disk.directory mode) w h = checked w h

module _ {K : Type 0} ⦃c : DuoCodec K⦄ ⦃x : Jsons⦄ ⦃p : Primitives⦄ where
  -- The writes of `save` into a directory without an `agent_id`: they are all done, or there is none.
  write_all_files-After :
      (keys : IdentityKeys K) (w : World)
      → Unmarked w
      → After
          (λ (u : Unit {0}) v. Written keys v × (v.dir ≡ w.dir) × (v.lock ≡ w.lock))
          (λ v. Unmarked v ⊎ (Written keys v × (v.dir ≡ w.dir) × (v.lock ≡ w.lock)))
          (write_all_files keys w)
  unfolding write_all_files write_duo write_delegation write_history write_rotations
      write_principal_id write_json exists
  write_all_files-After keys w h =
      write_text-then _ root_file _ _ _ _ w (λ f. inl h) (λ b f e. inl h)
        λ b1 f1 e1.
          write_text-then _ device_file _ _ _ _ _ (λ f. inl h) (λ b f e. inl h)
            λ b2 f2 e2.
              write_text-then _ delegation_file _ _ _ _ _ (λ f. inl h) (λ b f e. inl h)
                λ b3 f3 e3.
                  write_text-then _ history_file _ _ _ _ _ (λ f. inl h) (λ b f e. inl h)
                    λ b4 f4 e4.
                      write_text-then _ rotations_file _ _ _ _ _ (λ f. inl h) (λ b f e. inl h)
                        λ b5 f5 e5.
                          write_private-After agent_id_file _ _ (λ v done. inr done) _ _
                            (λ f. (
                              record {
                                root = record { bytes = b1; printed = e1; there = refl };
                                device = record { bytes = b2; printed = e2; there = refl };
                                delegation = record { bytes = b3; printed = e3; there = refl };
                                history = record { bytes = b4; printed = e4; there = refl };
                                rotations = record { bytes = b5; printed = e5; there = refl };
                                agent_id = refl;
                              },
                              refl,
                              refl,
                            ))
                            (λ f. inl h)

  module _ ⦃j : Jwk K⦄ (laws : JwkLaws K) where
    -- Whatever comes of its writes, `init` in a directory without an `agent_id` leaves none, or it leaves a
    -- directory that `load_verified` accepts; if it returns keys, `load_verified` gives them. The codecs
    -- behave as documented, and the root's public key is bytes.
    pub init-load_verified_or_unmarked :
        DuoLaws c
        → JsonsLaws x
        → HexLaws p
        → (root device : KeyDuo K) (now ttl : ℤ) (before : World)
        → IsBytes (signing_public root).bytes
        → exists before agent_id_file ≡ false
        → After
            (λ keys v. load_verified v ≡ ok keys)
            (λ v.
              (exists v agent_id_file ≡ false)
              ⊎ ((keys : IdentityKeys K) × (load_verified v ≡ ok keys)))
            (init root device now ttl before)
    unfolding init load_verified
    init-load_verified_or_unmarked duo json hex root device now ttl before bytes h =
        After-follow _ (λ (u : Unit {0}) v. Unmarked v × (check_dir v ≡ ok tt)) _ Left
          (ensure_dir before)
          (After-mono _ _ Unmarked Left (ensure_dir before) (λ u v g. g) (λ v g. inl g)
            (ensure_dir-After before h))
          λ u w g. read-then _ _ w _ Left (inl g.0) λ d e1.
            read-then _ _ w _ Left (inl g.0) λ u2 e2.
              read-then _ (check_uninitialised w) w _ Left (inl g.0) λ u3 e3.
                let keys = initial_keys root device d in
                let verified : (v : World)
                    → Written keys v × (v.dir ≡ w.dir) × (v.lock ≡ w.lock)
                    → load_verified v ≡ ok keys =
                  λ v g'. >>=-ok _ _ (check_dir-of_dir v w g'.1 g.1) (
                    >>=-ok _ _ (lock_shared-of_lock v w g'.2 e2) (
                      >>=-ok _ _
                        (load_files-Written duo json hex keys v (laws.is_key root.signing_key_pair)
                          bytes g'.0)
                        (>>=-ok _ _
                          (initial_keys-verify_identity laws root device now
                            (saturating_add now ttl) d (crypto_result-eq-ok _ e1))
                          refl))) in
                After-follow _ (λ (u : Unit {0}) v. load_verified v ≡ ok keys) _ Left
                  (write_all_files keys w)
                  (After-mono _ _ _ Left (write_all_files keys w) (λ u v g'. verified v g')
                    (λ v g'. elim g' [ inl a ↦ inl a | inr b ↦ inr (keys, verified v b) ])
                    (write_all_files-After keys w g.0))
                  λ u v l. l
      where
        Left : World → Type 0
        Left v =
            (exists v agent_id_file ≡ false)
            ⊎ ((keys : IdentityKeys K) × (load_verified v ≡ ok keys))
