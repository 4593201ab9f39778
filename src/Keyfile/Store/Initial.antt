-- ===== src/Keyfile/Store/Initial.antt =====
-- `init` of identity-keyfile/src/keys.rs before `load_verified`.
use identity_crypto.Prelude.{◌≡◌, refl, sym, ap, ◌∙◌, some, [], ◌∷◌, not_ne_of_eq, option_eq}
use identity_crypto.Prelude.Int.{ℤ, int_eq, saturating_add}
use identity_crypto.Primitives.{Primitives, HexLaws, IsBytes}
use identity_crypto.KeyTypes.{PublicKey, key_eq, principal_eq}
use identity_crypto.PublicKey.{to_pb, try_from-to_pb}
use identity_crypto.Error
use identity_crypto.Pb
use identity_crypto.Pb.Equality.{wire_key_eq}
use identity_crypto.Signature.{verify_p256-Signed}
use identity_crypto.Jwk.{Jwk, JwkLaws, KeyDuo}
use identity_crypto.Transcripts.Keys.{key_delegation_transcript, write_key_delegation}
use identity_crypto.Authority.{from_rotations, rotation_roots, rotate_all, head, chain_principal}
use identity_crypto.Registry.Checks.{device_purpose}
use identity_crypto.Session.Accepted.{sign-Signed}
use identity_crypto.Keys
use identity_crypto.Keys.{
  signing_public, encryption_public, delegate_device, device_delegation, sign_key_delegation,
}
use identity_crypto.Keyfile.Disk.{ok, World}
use identity_crypto.Keyfile.Outcome.{
  >>=-ok, reject_if-ok, ok_or-ok, or_verify_failed-ok, crypto_result-ok, crypto_result-eq-ok,
}
use identity_crypto.Keyfile.Op.{follow-elim, read-elim}
use identity_crypto.Keyfile.Files.{DuoCodec, DuoLaws, Jsons, JsonsLaws}
use identity_crypto.Keyfile.Identity.{IdentityKeys, verify_identity}
use identity_crypto.Keyfile.Load.{load_verified}
use identity_crypto.Keyfile.Store.{init, check_uninitialised, initial_keys}
use identity_crypto.Keyfile.Store.RoundTrip.{
  check_dir-of_dir, lock_shared-of_lock, ensure_dir-check_dir, load_files-Written,
  write_all_files-Written,
}

genesis_only-from_rotations :
    ⦃p : Primitives⦄ (genesis : PublicKey)
    → from_rotations genesis [] ≡ Error.ok (record { roots = genesis ∷ []; rotations = [] })
unfolding from_rotations rotation_roots rotate_all Error.◌>>=◌
genesis_only-from_rotations genesis = refl

genesis_only-head :
    (genesis : PublicKey)
    → head (record { roots = genesis ∷ []; rotations = [] }) ≡ Error.ok genesis
unfolding head Error.expect
genesis_only-head genesis = refl

genesis_only-principal :
    (genesis : PublicKey)
    → chain_principal (record { roots = genesis ∷ []; rotations = [] })
      ≡ Error.ok (record { genesis = genesis })
unfolding chain_principal Error.expect Error.◌>>=◌
genesis_only-principal genesis = refl

module _ {K : Type 0} ⦃p : Primitives⦄ ⦃j : Jwk K⦄ (laws : JwkLaws K) where
  pub initial_keys-verify_identity :
      (root device : KeyDuo K) (now end : ℤ) (d : Pb.KeyDelegation)
      → delegate_device root (Keys.principal_id root) device now end ≡ Error.ok d
      → verify_identity (initial_keys root device d) ≡ ok tt
  unfolding delegate_device sign_key_delegation device_delegation verify_identity
      key_delegation_transcript write_key_delegation
  initial_keys-verify_identity root device now end d h =
      let genesis = signing_public root in
      let key = laws.is_key root.signing_key_pair in
      Error.>>=-elim _ _ h λ _ span h1. Error.>>=-elim _ _ h1 λ t e1 h2.
        Error.>>=-elim _ _ h2 λ s e2 h3. rw (← (Error.ok-injective h3)) (
          >>=-ok _ _ (ok_or-ok _ _ refl) (
            >>=-ok _ _ (or_verify_failed-ok _ _ (try_from-to_pb genesis key)) (
              >>=-ok _ _ (or_verify_failed-ok _ _ (genesis_only-from_rotations genesis)) (
                >>=-ok _ _ (crypto_result-ok _ (genesis_only-head genesis)) (
                  >>=-ok _ _ (reject_if-ok _ _ (not_ne_of_eq genesis genesis refl)) (
                    >>=-ok _ _ (crypto_result-ok _ (genesis_only-principal genesis)) (
                      >>=-ok _ _
                        (reject_if-ok _ _
                          (not_ne_of_eq (Keys.principal_id root) (Keys.principal_id root) refl))
                        (>>=-ok _ _ (ok_or-ok _ _ refl) (
                          >>=-ok _ _
                            (reject_if-ok _ _ (not_ne_of_eq (to_pb genesis) (to_pb genesis) refl))
                            (>>=-ok _ _
                              (reject_if-ok _ _
                                (not_ne_of_eq (some (to_pb (signing_public device))) _ refl))
                              (>>=-ok _ _
                                (reject_if-ok _ _
                                  (not_ne_of_eq (some (to_pb (encryption_public device))) _ refl))
                                (>>=-ok _ _
                                  (reject_if-ok _ _
                                    (not_ne_of_eq device_purpose device_purpose refl))
                                  (>>=-ok _ _ (or_verify_failed-ok _ _ e1) (
                                    >>=-ok _ _
                                      (or_verify_failed-ok _ _ (
                                        verify_p256-Signed genesis t s
                                          (sign-Signed laws root.signing_key_pair t s e2)))
                                      refl))))))))))))))

  -- Where the codecs behave as documented and the root's public key is bytes: the keys that a successful
  -- `init` returns are those that `load_verified` reads from the directory that it leaves.
  pub init-load_verified :
      ⦃c : DuoCodec K⦄ ⦃x : Jsons⦄
      → DuoLaws c
      → JsonsLaws x
      → HexLaws p
      → (root device : KeyDuo K) (now ttl : ℤ) (before after : World) (keys : IdentityKeys K)
      → IsBytes (signing_public root).bytes
      → init root device now ttl before ≡ (ok keys, after)
      → load_verified after ≡ ok keys
  unfolding init load_verified
  init-load_verified duo json hex root device now ttl before after keys bytes h =
      follow-elim _ _ h λ u1 w e1 h1. read-elim _ _ w h1 λ d e2 h2. read-elim _ _ w h2 λ u3 e3 h3.
        read-elim _ (check_uninitialised w) w h3 λ u4 e4 h4. follow-elim _ _ h4 λ u5 v e5 h5.
          let (files, dir, lock) = write_all_files-Written (initial_keys root device d) w e5 in
          let key = laws.is_key root.signing_key_pair in
          ap load_verified (sym (ap (λ r. r.1) h5))
          ∙ >>=-ok _ _ (check_dir-of_dir v w dir (ensure_dir-check_dir before e1)) (
              >>=-ok _ _ (lock_shared-of_lock v w lock e3) (
                >>=-ok _ _
                  (load_files-Written duo json hex (initial_keys root device d) v key bytes files)
                  (>>=-ok _ _
                    (initial_keys-verify_identity root device now (saturating_add now ttl) d
                      (crypto_result-eq-ok _ e2))
                    refl)))
          ∙ ap (λ r. r.0) h5
