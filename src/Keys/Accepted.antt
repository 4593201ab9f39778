-- ===== src/Keys/Accepted.antt =====
-- The documents that src/keys.rs builds, under the verifiers of src/verify.rs and src/authority.rs.
use identity_crypto.Prelude.{
  ◌≡◌, ◌≢◌, refl, sym, ap, ◌∙◌, false, some, List, [], ◌∷◌, ◌++◌, arith, contains, last?, ◌==◌,
  nat_eq, list_eq, option_eq, not_ne_of_eq,
}
use identity_crypto.Prelude.Int.{ℤ, pos, ◌≤ℤ◌, int_eq, saturating_add}
use identity_crypto.Primitives.{Primitives}
use identity_crypto.KeyTypes.{PublicKey, PrincipalId, key_eq}
use identity_crypto.Kind.{PrincipalKind}
use identity_crypto.PublicKey.{IsKey}
use identity_crypto.Error.{ok, >>=-elim, >>=-ok, reject_if-ok, ok-injective}
use identity_crypto.Pb
use identity_crypto.Jwk.{Jwk, JwkLaws, KeyDuo}
use identity_crypto.Signature.{verify_p256-Signed}
use identity_crypto.Transcripts.Enc.Keys.{req-to_pb}
use identity_crypto.Transcripts.Keys.{
  key_delegation_transcript, write_key_delegation, root_rotation_transcript,
}
use identity_crypto.Authority.{rotate}
use identity_crypto.Registry.Types.{VerifiedEntry, current_signing}
use identity_crypto.Registry.Checks.{device_purpose}
use identity_crypto.Resolver.{Resolver, is_revoked}
use identity_crypto.Session.Accepted.{sign-Signed}
use identity_crypto.Keys.{
  device_delegation, signing_public, delegate_device, sign_key_delegation, rotation,
}
use identity_crypto.Verify.Chain.{device_current, unlisted_device, device_listed}

not_zero : (n : ℤ) → n ≢ pos 0 → (n == pos 0) ≡ false
not_zero n h = ground arith

device_listed-unlisted :
    (d : Pb.KeyDelegation) (e : VerifiedEntry) (r : Resolver) (at : ℤ) (device : PublicKey)
    → e.kind ≢ PrincipalKind.human
    → unlisted_device d at ≡ ok tt
    → device_listed d e r at device ≡ ok tt
unfolding device_listed
device_listed-unlisted d e r at device h u = ground arith

module _ {K : Type 0} ⦃p : Primitives⦄ ⦃j : Jwk K⦄ (laws : JwkLaws K) where
  -- A rotation that `rotation` builds goes on from a root chain whose last root is the old root, and
  -- gives the chain the new root: where the new root is in the chain not yet.
  pub rotation-rotate :
      (old_root : KeyDuo K) (genesis : PrincipalId) (new_root : KeyDuo K) (issued_at : ℤ)
      (r : Pb.RootRotation) (roots : List PublicKey)
      → IsKey genesis.genesis
      → rotation old_root genesis new_root issued_at ≡ ok r
      → last? roots ≡ some (signing_public old_root)
      → contains roots (signing_public new_root) ≡ false
      → rotate genesis.genesis roots r ≡ ok (roots ++ (signing_public new_root ∷ []))
  unfolding rotation rotate root_rotation_transcript
  rotation-rotate old genesis new issued r roots is_key h last fresh = >>=-elim _ _ h λ t e1 h1.
      >>=-elim _ _ h1 λ s e2 h2. rw (← (ok-injective h2)) (
        >>=-ok _ _ (req-to_pb genesis.genesis _ is_key) (
          >>=-ok _ _ (reject_if-ok _ _ (not_ne_of_eq genesis.genesis genesis.genesis refl)) (
            >>=-ok _ _ (req-to_pb (signing_public old) _ (laws.is_key old.signing_key_pair)) (
              >>=-ok _ _ (req-to_pb (signing_public new) _ (laws.is_key new.signing_key_pair)) (
                >>=-ok _ _
                  (reject_if-ok _ _
                    (not_ne_of_eq (some (signing_public old)) (last? roots) (sym last)))
                  (>>=-ok _ _ (reject_if-ok _ _ fresh) (
                    >>=-ok _ _ e1 (
                      >>=-ok _ _
                        (verify_p256-Signed (signing_public old) t s
                          (sign-Signed laws old.signing_key_pair t s e2))
                        refl))))))))

  -- A delegation that `delegate_device` builds makes the device current for every principal that is not a
  -- human, under its current root, from 30 seconds before the issue until the end: where the end is not 0,
  -- neither the root nor the device is revoked, and the principal's key is valid.
  pub delegate_device-device_current :
      (root : KeyDuo K) (genesis : PrincipalId) (device : KeyDuo K) (issued_at not_after : ℤ)
      (d : Pb.KeyDelegation) (e : VerifiedEntry) (r : Resolver) (at : ℤ)
      → IsKey genesis.genesis
      → delegate_device root genesis device issued_at not_after ≡ ok d
      → e.id ≡ genesis
      → e.kind ≢ PrincipalKind.human
      → current_signing e ≡ some (signing_public root)
      → is_revoked r genesis (signing_public root) at ≡ false
      → is_revoked r genesis (signing_public device) at ≡ false
      → not_after ≢ pos 0
      → issued_at ≤ℤ saturating_add at (pos 30)
      → at ≤ℤ not_after
      → device_current d e r at ≡ ok (signing_public device)
  unfolding delegate_device sign_key_delegation device_current device_delegation
      key_delegation_transcript write_key_delegation unlisted_device
  delegate_device-device_current root genesis device issued na d e r at is_key h id kind current r1
        r2 nonzero early late =
      >>=-elim _ _ h λ _ span h1. >>=-elim _ _ h1 λ t e1 h2. >>=-elim _ _ h2 λ s e2 h3.
        rw (← (ok-injective h3)) (
          >>=-ok _ _ (req-to_pb genesis.genesis _ is_key) (
            >>=-ok _ _
              (reject_if-ok _ _
                (not_ne_of_eq genesis.genesis e.id.genesis (ap (λ x. x.genesis) (sym id))))
              (>>=-ok _ _ (req-to_pb (signing_public root) _ (laws.is_key root.signing_key_pair)) (
                >>=-ok _ _
                  (reject_if-ok _ _
                    (not_ne_of_eq (some (signing_public root)) (current_signing e) (sym current)))
                  (>>=-ok _ _
                    (reject_if-ok _ _ (ap (λ x. is_revoked r x (signing_public root) at) id ∙ r1))
                    (>>=-ok _ _ (reject_if-ok _ _ (not_ne_of_eq device_purpose device_purpose refl))
                      (>>=-ok _ _ e1 (
                        >>=-ok _ _
                          (verify_p256-Signed (signing_public root) t s
                            (sign-Signed laws root.signing_key_pair t s e2))
                          (>>=-ok _ _
                            (req-to_pb (signing_public device) _
                              (laws.is_key device.signing_key_pair))
                            (>>=-ok _ _
                              (reject_if-ok _ _
                                (ap (λ x. is_revoked r x (signing_public device) at) id ∙ r2))
                              (>>=-ok _ _ (reject_if-ok _ _ (not_zero na nonzero)) (
                                >>=-ok _ _
                                  (device_listed-unlisted _ e r at (signing_public device) kind (
                                    >>=-ok _ _ span (
                                      >>=-ok _ _ (reject_if-ok _ _ (ground arith))
                                        (reject_if-ok _ _ (ground arith)))))
                                  refl))))))))))))
