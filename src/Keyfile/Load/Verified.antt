-- ===== src/Keyfile/Load/Verified.antt =====
-- `load_verified` in identity-keyfile/src/keys.rs.
use identity_crypto.Prelude.{◌≡◌, sym, ap, ◌∙◌, some, List, last?, nat_eq, option_eq, eq_of_not_ne}
use identity_crypto.Prelude.Int.{int_eq}
use identity_crypto.Primitives.{Bytes, Primitives}
use identity_crypto.KeyTypes.{PublicKey, PrincipalId, key_eq, principal_eq}
use identity_crypto.PublicKey.{to_pb, try_from-eq-ok}
use identity_crypto.Error
use identity_crypto.Pb
use identity_crypto.Pb.Equality.{wire_key_eq}
use identity_crypto.Signature.{Signed, verify_p256, verify_p256-eq-ok}
use identity_crypto.Jwk.{Jwk}
use identity_crypto.Transcripts.Keys.{key_delegation_transcript}
use identity_crypto.Authority.{
  AuthorityChain, from_rotations, rotation_roots, head, chain_principal, first?,
}
use identity_crypto.Authority.Chains.{RootChain, rotation_roots-RootChain, RootChain-first}
use identity_crypto.Registry.Checks.{device_purpose}
use identity_crypto.Keys.{signing_public, encryption_public}
use identity_crypto.Keyfile.Disk.{ok, World}
use identity_crypto.Keyfile.Outcome.{
  >>=-elim, ok-injective, reject_if-eq-ok, ok_or-eq-ok, crypto_result-eq-ok, or_verify_failed-eq-ok,
}
use identity_crypto.Keyfile.Files.{DuoCodec, Jsons}
use identity_crypto.Keyfile.Identity.{IdentityKeys, verify_identity}
use identity_crypto.Keyfile.Load.{load_verified}

head-last : (c : AuthorityChain) (k : PublicKey) → head c ≡ Error.ok k → last? c.roots ≡ some k
unfolding head
head-last c k h = Error.expect-eq-ok _ h

principal-first :
    (c : AuthorityChain) (id : PrincipalId)
    → chain_principal c ≡ Error.ok id
    → first? c.roots ≡ some id.genesis
unfolding chain_principal
principal-first c id h = Error.>>=-elim _ _ h λ k e h1.
    Error.expect-eq-ok _ e ∙ ap (λ (i : PrincipalId). some i.genesis) (Error.ok-injective h1)

module _ ⦃p : Primitives⦄ where
  from_rotations-roots :
      (genesis : PublicKey) (rs : List Pb.RootRotation) (c : AuthorityChain)
      → from_rotations genesis rs ≡ Error.ok c
      → rotation_roots genesis rs ≡ Error.ok c.roots
  unfolding from_rotations
  from_rotations-roots genesis rs c h =
      Error.>>=-elim _ _ h
        λ roots e1 h1. e1 ∙ ap (λ (c : AuthorityChain). Error.ok c.roots) (Error.ok-injective h1)

  chain_genesis :
      (genesis : PublicKey) (rs : List Pb.RootRotation) (c : AuthorityChain) (id : PrincipalId)
      → from_rotations genesis rs ≡ Error.ok c
      → chain_principal c ≡ Error.ok id
      → genesis ≡ id.genesis
  chain_genesis genesis rs c id h e =
      let (rest, f) =
        RootChain-first
          (rotation_roots-RootChain genesis rs c.roots (from_rotations-roots genesis rs c h)) in
      some-injective (ap first? (sym f) ∙ principal-first c id e)
    where
      some-injective : {a b : PublicKey} → some a ≡ some b → a ≡ b
      some-injective h = cc

module _ {K : Type 0} ⦃p : Primitives⦄ ⦃j : Jwk K⦄ where
  -- Keys that belong together: the chain of the principal ends at the root, and the root has signed the
  -- delegation of both halves of the device.
  pub record Verified (keys : IdentityKeys K) : Type 0 where
    pub roots : List PublicKey
    pub chain : RootChain keys.principal_id.genesis keys.rotations roots
    pub is_last : last? roots ≡ some (signing_public keys.root)
    pub of_principal : keys.delegation.principal_genesis ≡ some (to_pb keys.principal_id.genesis)
    pub of_root : keys.delegation.signing_root ≡ some (to_pb (signing_public keys.root))
    pub of_device : keys.delegation.delegated ≡ some (to_pb (signing_public keys.device))
    pub of_encryption :
        keys.delegation.delegated_encryption ≡ some (to_pb (encryption_public keys.device))
    pub of_purpose : keys.delegation.purpose ≡ device_purpose
    pub transcript : Bytes
    pub covers : key_delegation_transcript keys.delegation ≡ Error.ok transcript
    pub signed : Signed (signing_public keys.root) transcript keys.delegation.signature

  verify_identity-Verified : (keys : IdentityKeys K) → verify_identity keys ≡ ok tt → Verified keys
  unfolding verify_identity
  verify_identity-Verified keys h = >>=-elim _ _ h λ wire e1 h1. >>=-elim _ _ h1 λ genesis e2 h2.
      >>=-elim _ _ h2 λ c e3 h3. >>=-elim _ _ h3 λ root e4 h4. >>=-elim _ _ h4 λ _ e5 h5.
        >>=-elim _ _ h5 λ id e6 h6. >>=-elim _ _ h6 λ _ e7 h7. >>=-elim _ _ h7 λ root_wire e8 h8.
          >>=-elim _ _ h8 λ _ e9 h9. >>=-elim _ _ h9 λ _ e10 h10. >>=-elim _ _ h10 λ _ e11 h11.
            >>=-elim _ _ h11 λ _ e12 h12. >>=-elim _ _ h12 λ t e13 h13.
              >>=-elim _ _ h13 λ v e14 h14.
                let chain = or_verify_failed-eq-ok _ _ e3 in
                let same_root : signing_public keys.root ≡ root =
                  eq_of_not_ne _ root (reject_if-eq-ok _ _ e5) in
                let same_id : keys.principal_id ≡ id =
                  eq_of_not_ne keys.principal_id id (reject_if-eq-ok _ _ e7) in
                let same_genesis : genesis ≡ keys.principal_id.genesis =
                  chain_genesis genesis keys.rotations c id chain (crypto_result-eq-ok _ e6)
                  ∙ ap (λ i. i.genesis) (sym same_id) in
                record {
                  roots = c.roots;
                  chain =
                      rotation_roots-RootChain keys.principal_id.genesis keys.rotations c.roots (
                        ap (λ g. rotation_roots g keys.rotations) (sym same_genesis)
                        ∙ from_rotations-roots genesis keys.rotations c chain);
                  is_last = head-last c root (crypto_result-eq-ok _ e4) ∙ ap some (sym same_root);
                  of_principal =
                      ok_or-eq-ok _ _ e1
                      ∙ ap some (
                          (try_from-eq-ok wire genesis (or_verify_failed-eq-ok _ _ e2)).1
                          ∙ ap to_pb same_genesis);
                  of_root =
                      ok_or-eq-ok _ _ e8
                      ∙ ap some (
                          eq_of_not_ne root_wire (to_pb root) (reject_if-eq-ok _ _ e9)
                          ∙ ap to_pb (sym same_root));
                  of_device = eq_of_not_ne keys.delegation.delegated _ (reject_if-eq-ok _ _ e10);
                  of_encryption =
                      eq_of_not_ne keys.delegation.delegated_encryption _ (reject_if-eq-ok _ _ e11);
                  of_purpose =
                      eq_of_not_ne keys.delegation.purpose device_purpose (reject_if-eq-ok _ _ e12);
                  transcript = t;
                  covers = or_verify_failed-eq-ok _ _ e13;
                  signed =
                      verify_p256-eq-ok (signing_public keys.root) t keys.delegation.signature (
                        ap (λ k. verify_p256 k t keys.delegation.signature) same_root
                        ∙ or_verify_failed-eq-ok _ _ e14);
                }

  module _ ⦃c : DuoCodec K⦄ ⦃x : Jsons⦄ where
    -- Keys that `load_verified` gives belong together: a root chain goes from the principal's genesis by the
    -- rotations to the root, and the root has signed a delegation of the device to the principal.
    pub load_verified-Verified :
        (w : World) (keys : IdentityKeys K) → load_verified w ≡ ok keys → Verified keys
    unfolding load_verified
    load_verified-Verified w keys h = >>=-elim _ _ h λ u1 e1 h1. >>=-elim _ _ h1 λ u2 e2 h2.
        >>=-elim _ _ h2 λ k e3 h3.
          >>=-elim _ _ h3 λ u4 e4 h4. rw (← (ok-injective h4)) (verify_identity-Verified k e4)
