-- ===== src/Keyfile/Load/Parts.antt =====
-- `read_principal` and the loading of the device keys in identity-keyfile/src/keys.rs, before the loading of
-- all keys.
use identity_crypto.Prelude.{
  ◌≡◌, refl, sym, ap, ◌∙◌, true, some, arith, nat_eq, option_eq, eq_of_not_ne, not_ne_of_eq,
}
use identity_crypto.Prelude.Int.{int_eq}
use identity_crypto.Primitives.{Primitives}
use identity_crypto.KeyTypes.{PublicKey, PrincipalId, key_eq, principal_eq}
use identity_crypto.PublicKey.{IsKey, to_pb, try_from, try_from-to_pb}
use identity_crypto.Error
use identity_crypto.Pb
use identity_crypto.Pb.Equality.{wire_key_eq}
use identity_crypto.Jwk.{Jwk, JwkLaws}
use identity_crypto.Authority.{}
use identity_crypto.Keys.{signing_public}
use identity_crypto.Keyfile.Disk.{agent_id_file, ok, World}
use identity_crypto.Keyfile.Outcome.{
  ◌>>=◌, >>=-elim, >>=-ok, ok-injective, reject_if-ok, reject_if-eq-ok, or_verify_failed-ok,
  to_verify_failed,
}
use identity_crypto.Keyfile.Files.{
  DuoCodec, Jsons, exists, read_bytes, read_principal_id, check_dir,
}
use identity_crypto.Keyfile.Identity.{IdentityKeys, verify_identity}
use identity_crypto.Keyfile.Load.{
  load_verified, load, load_locked, load_device, read_principal, read_marked_principal,
  principal_of, marker,
}
use identity_crypto.Keyfile.Load.Reads.{load_files-Reads}

module _ ⦃p : Primitives⦄ where
  exists-read_principal_id :
      (w : World) (id : PrincipalId) → read_principal_id w ≡ ok id → exists w agent_id_file ≡ true
  unfolding read_principal_id read_bytes exists
  exists-read_principal_id w id h = >>=-elim _ _ h λ b e h1. ground arith

marker-true : (w : World) → check_dir w ≡ ok tt → exists w agent_id_file ≡ true → marker w ≡ ok true
unfolding marker check_dir ◌>>=◌
marker-true w h e = ground arith

module _ {K : Type 0} ⦃p : Primitives⦄ ⦃j : Jwk K⦄ where
  module _ ⦃c : DuoCodec K⦄ ⦃x : Jsons⦄ where
    verify_identity-principal_of :
        (keys : IdentityKeys K)
        → IsKey (signing_public keys.root)
        → verify_identity keys ≡ ok tt
        → principal_of keys.principal_id keys.delegation
            (ok (record { rotations = keys.rotations }))
          ≡ ok keys.principal_id
    unfolding verify_identity principal_of to_verify_failed
    verify_identity-principal_of keys key h = >>=-elim _ _ h λ wire e1 h1.
        >>=-elim _ _ h1 λ genesis e2 h2. >>=-elim _ _ h2 λ c e3 h3. >>=-elim _ _ h3 λ root e4 h4.
          >>=-elim _ _ h4 λ _ e5 h5. >>=-elim _ _ h5 λ id e6 h6. >>=-elim _ _ h6 λ _ e7 h7.
            >>=-elim _ _ h7 λ root_wire e8 h8. >>=-elim _ _ h8 λ _ e9 h9.
              >>=-elim _ _ h9 λ _ e10 h10. >>=-elim _ _ h10 λ _ e11 h11.
                >>=-elim _ _ h11 λ _ e12 h12. >>=-elim _ _ h12 λ t e13 h13.
                  >>=-elim _ _ h13 λ v e14 h14.
                    let same : signing_public keys.root ≡ root =
                      eq_of_not_ne _ root (reject_if-eq-ok _ _ e5) in
                    >>=-ok _ _ e1 (
                      >>=-ok _ _ e2 (
                        >>=-ok _ _ refl (
                          >>=-ok _ _ e3 (
                            >>=-ok _ _ e6 (
                              >>=-ok _ _ e7 (
                                >>=-ok _ _ e8 (
                                  >>=-ok _ _
                                    (or_verify_failed-ok _ _ (
                                      root_key root_wire root (signing_public keys.root) same key (
                                        eq_of_not_ne root_wire (to_pb root)
                                          (reject_if-eq-ok _ _ e9))))
                                    (>>=-ok _ _ e4 (
                                      >>=-ok _ _ (reject_if-ok _ _ (not_ne_of_eq root root refl)) (
                                        >>=-ok _ _ e12
                                          (>>=-ok _ _ e13 (>>=-ok _ _ e14 refl))))))))))))
      where
        root_key :
            (wire : Pb.PublicKey) (root k : PublicKey)
            → k ≡ root
            → IsKey k
            → wire ≡ to_pb root
            → try_from wire ≡ Error.ok root
        root_key wire root k e key w =
            ap try_from (w ∙ ap to_pb (sym e)) ∙ try_from-to_pb k key ∙ ap Error.ok e

    -- Where `load_verified` gives keys, `read_principal` gives their principal, from `agent_id`, the delegation
    -- and the rotations alone.
    pub read_principal-load_verified :
        JwkLaws K
        → (w : World) (keys : IdentityKeys K) → load_verified w ≡ ok keys
        → read_principal w ≡ ok (some keys.principal_id)
    unfolding load_verified read_principal read_marked_principal
    read_principal-load_verified laws w keys h = >>=-elim _ _ h λ u1 e1 h1.
        >>=-elim _ _ h1 λ u2 e2 h2. >>=-elim _ _ h2 λ k e3 h3. >>=-elim _ _ h3 λ u4 e4 h4.
          let r = load_files-Reads w k e3 in
          >>=-ok _ _ (marker-true w e1 (exists-read_principal_id w k.principal_id r.agent_id)) (
            >>=-ok _ _ r.agent_id (
              >>=-ok _ _ r.delegation (
                >>=-ok _ _
                  (ap (principal_of k.principal_id k.delegation) r.rotations
                    ∙ verify_identity-principal_of k (laws.is_key k.root.signing_key_pair) e4)
                  (ap (λ (k : IdentityKeys K). ok (some k.principal_id)) (ok-injective h4)))))

    -- Where `load` gives keys, loading the device alone gives the same device, delegation, principal and
    -- history.
    pub load_device-load :
        (w : World) (keys : IdentityKeys K)
        → load w ≡ ok keys
        → load_device w
          ≡ ok (record {
            device = keys.device;
            delegation = keys.delegation;
            principal_id = keys.principal_id;
            retired = keys.retired;
          })
    unfolding load load_locked load_device
    load_device-load w keys h = >>=-elim _ _ h λ u1 e1 h1. >>=-elim _ _ h1 λ u2 e2 h2.
        >>=-elim _ _ h2 λ u3 e3 h3. >>=-elim _ _ h3 λ k e4 h4. >>=-elim _ _ h4 λ u5 e5 h5.
          let r = load_files-Reads w k e4 in
          >>=-ok _ _ e1 (
            >>=-ok _ _ e2 (
              >>=-ok _ _ r.device (
                >>=-ok _ _ r.delegation (
                  >>=-ok _ _ r.agent_id (
                    >>=-ok _ _ r.history (
                      >>=-ok _ _ e5 (
                        ap
                          (λ (k : IdentityKeys K). ok (record {
                            device = k.device;
                            delegation = k.delegation;
                            principal_id = k.principal_id;
                            retired = k.retired;
                          }))
                          (ok-injective h5))))))))
