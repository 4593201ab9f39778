-- ===== src/Verify/Chain/Restrict.antt =====
-- The chains of src/verify.rs against a resolver with one more peer revocation.
use identity_crypto.Prelude.{◌≡◌, refl, false, Option, none, some}
use identity_crypto.Prelude.Int.{ℤ}
use identity_crypto.Primitives.{Primitives}
use identity_crypto.KeyTypes.{PublicKey, PrincipalId}
use identity_crypto.Kind.{PrincipalKind}
use identity_crypto.Error.Restricts.{
  Restricts, Restricts-refl, Restricts-bind, Restricts-then, Restricts-reject_if,
}
use identity_crypto.Pb
use identity_crypto.Registry.Types.{VerifiedEntry, VerifiedBinding}
use identity_crypto.Resolver.{Resolver, VerifiedPeerRevocation, binding, is_frozen}
use identity_crypto.Resolver.Peer.{with_peer, frozen-with_peer, revoked-with_peer}
use identity_crypto.Verify.Time.{When, time_of}
use identity_crypto.Verify.Chain.{
  host_is_frozen, bound_device, unlisted_device, device_listed, device_current, host_of,
  verify_self_rooted, verify_host_vouched, verify_chain,
}

module _ (r : Resolver) (rev : VerifiedPeerRevocation) where
  host_frozen-with_peer :
      (b : VerifiedBinding) (at : ℤ)
      → host_is_frozen (with_peer r rev) b at ≡ false
      → host_is_frozen r b at ≡ false
  unfolding host_is_frozen
  host_frozen-with_peer b at = go b.host
    where
      go :
          (o : Option PrincipalId)
          → (elim o [ none ↦ false | some h ↦ is_frozen (with_peer r rev) h at ]) ≡ false
          → (elim o [ none ↦ false | some h ↦ is_frozen r h at ]) ≡ false
      go none h = refl
      go (some i) h = frozen-with_peer r rev i at h

  bound_device-Restricts :
      (d : Pb.KeyDelegation) (e : VerifiedEntry) (at : ℤ) (device : PublicKey)
      → Restricts (bound_device d e (with_peer r rev) at device) (bound_device d e r at device)
  unfolding bound_device binding
  bound_device-Restricts d e at device = Restricts-then _ λ b.
      Restricts-then _ λ _. Restricts-then _ λ _. Restricts-reject_if _ (host_frozen-with_peer b at)

  device_listed-Restricts :
      (d : Pb.KeyDelegation) (e : VerifiedEntry) (at : ℤ) (device : PublicKey)
      → Restricts (device_listed d e (with_peer r rev) at device) (device_listed d e r at device)
  unfolding device_listed
  device_listed-Restricts d e at device = go e.kind
    where
      go :
          (k : PrincipalKind)
          → Restricts
              (elim k [
                | PrincipalKind.human ↦ bound_device d e (with_peer r rev) at device
                | _ ↦ unlisted_device d at
              ])
              (elim k [
                | PrincipalKind.human ↦ bound_device d e r at device
                | _ ↦ unlisted_device d at
              ])
      go PrincipalKind.human = bound_device-Restricts d e at device
      go _ = Restricts-refl _

  module _ ⦃p : Primitives⦄ where
    device_current-Restricts :
        (d : Pb.KeyDelegation) (e : VerifiedEntry) (at : ℤ)
        → Restricts (device_current d e (with_peer r rev) at) (device_current d e r at)
    unfolding device_current
    device_current-Restricts d e at = Restricts-then _ λ principal. Restricts-then _ λ _.
        Restricts-then _ λ root. Restricts-then _ λ _.
          Restricts-bind (Restricts-reject_if _ (revoked-with_peer r rev e.id at root)) λ _.
            Restricts-then _ λ _. Restricts-then _ λ _. Restricts-then _ λ _.
              Restricts-then _ λ device.
                Restricts-bind (Restricts-reject_if _ (revoked-with_peer r rev e.id at device)) λ _.
                  Restricts-then _ λ _.
                    Restricts-bind (device_listed-Restricts d e at device) λ _. Restricts-refl _

    verify_self_rooted-Restricts :
        (s : Pb.SelfRooted) (at : ℤ)
        → Restricts (verify_self_rooted s (with_peer r rev) at) (verify_self_rooted s r at)
    unfolding verify_self_rooted host_of binding
    verify_self_rooted-Restricts s at = Restricts-then _ λ d. Restricts-then _ λ cert.
        Restricts-then _ λ principal. Restricts-then _ λ e. Restricts-then _ λ _.
          Restricts-bind (Restricts-reject_if _ (frozen-with_peer r rev principal at)) λ _.
            Restricts-then _
              λ _. Restricts-bind (device_current-Restricts d e at) λ device. Restricts-refl _

    verify_host_vouched-Restricts :
        (h : Pb.HostVouched) (at : ℤ)
        → Restricts (verify_host_vouched h (with_peer r rev) at) (verify_host_vouched h r at)
    unfolding verify_host_vouched
    verify_host_vouched-Restricts h at = Restricts-then _ λ d. Restricts-then _ λ cert.
        Restricts-then _ λ host. Restricts-then _ λ host_entry. Restricts-then _ λ _.
          Restricts-bind (Restricts-reject_if _ (frozen-with_peer r rev host at)) λ _.
            Restricts-then _ λ _. Restricts-then _ λ _. Restricts-then _ λ _.
              Restricts-then _ λ subject. Restricts-then _ λ _. Restricts-then _ λ agent.
                Restricts-then _ λ agent_entry. Restricts-then _ λ _.
                  Restricts-bind (Restricts-reject_if _ (frozen-with_peer r rev agent at)) λ _.
                    Restricts-then _ λ _.
                      Restricts-bind (device_current-Restricts d host_entry at)
                        λ _. Restricts-refl _

    pub verify_chain-Restricts :
        (s : Pb.SignerChain) (when : When)
        → Restricts (verify_chain s (with_peer r rev) when) (verify_chain s r when)
    unfolding verify_chain
    verify_chain-Restricts s when = Restricts-then _ λ chain. go chain
      where
        go :
            (c : Pb.Chain)
            → Restricts
                (elim c [
                  | Pb.self_rooted s ↦ verify_self_rooted s (with_peer r rev) (time_of when)
                  | Pb.host_vouched h ↦ verify_host_vouched h (with_peer r rev) (time_of when)
                ])
                (elim c [
                  | Pb.self_rooted s ↦ verify_self_rooted s r (time_of when)
                  | Pb.host_vouched h ↦ verify_host_vouched h r (time_of when)
                ])
        go (Pb.self_rooted s) = verify_self_rooted-Restricts s (time_of when)
        go (Pb.host_vouched h) = verify_host_vouched-Restricts h (time_of when)
