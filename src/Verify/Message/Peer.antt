-- ===== src/Verify/Message/Peer.antt =====
-- What a peer revocation (src/resolver.rs) does to the messages that src/verify.rs accepts.
use identity_crypto.Prelude.{◌≡◌, ◌≢◌, refl, false, none, some}
use identity_crypto.Prelude.Int.{ℤ, ◌≤ℤ◌}
use identity_crypto.Primitives.{Str, Primitives}
use identity_crypto.Error.{ok}
use identity_crypto.Error.Restricts.{Restricts, Restricts-refl, Restricts-then, Restricts-bind}
use identity_crypto.Pb
use identity_crypto.Registry.Types.{VerifiedEntry}
use identity_crypto.Resolver.{
  Resolver, VerifiedPeerRevocation, with_peer_revocation, entry, is_frozen,
}
use identity_crypto.Resolver.Peer.{with_peer, with_peer_revocation-eq-ok, with_peer-freezes}
use identity_crypto.Verify.Time.{When, time_of}
use identity_crypto.Verify.Chain.{VerifiedChain}
use identity_crypto.Verify.Chain.Restrict.{verify_chain-Restricts}
use identity_crypto.Verify.Chain.Accepts.{AcceptedChain}
use identity_crypto.Verify.Message.Sound.{verify_signed_message-AcceptedMessage}
use identity_crypto.Verify.Message.{VerifiedMessage, verify_signed_message}

module _ ⦃p : Primitives⦄ where
  message-Restricts :
      (msg : Pb.SignedMessage) (audience : Str) (r : Resolver) (rev : VerifiedPeerRevocation)
      (when : When)
      → Restricts
          (verify_signed_message msg audience (with_peer r rev) when)
          (verify_signed_message msg audience r when)
  unfolding verify_signed_message
  message-Restricts msg audience r rev when = Restricts-then _ λ _.
      Restricts-then _ λ signer.
        Restricts-bind (verify_chain-Restricts r rev signer when) λ chain. Restricts-refl _

  -- Where a resolver takes up a peer revocation, a message that is accepted afterwards is accepted
  -- without the revocation too, at the same time and for the same audience, with the same result.
  pub with_peer_revocation-restricts_messages :
      (r r' : Resolver) (rev : VerifiedPeerRevocation) (msg : Pb.SignedMessage) (audience : Str)
      (when : When) (v : VerifiedMessage)
      → with_peer_revocation r rev ≡ ok r'
      → verify_signed_message msg audience r' when ≡ ok v
      → verify_signed_message msg audience r when ≡ ok v
  with_peer_revocation-restricts_messages r r' rev msg audience when v h hv =
      let (same, _) = with_peer_revocation-eq-ok r r' rev h in
      (message-Restricts msg audience r rev when).at v (rw (← same) hv)

  accepted_principal-unfrozen :
      {signer : Pb.SignerChain} {r : Resolver} {at : ℤ} {v : VerifiedChain}
      → AcceptedChain signer r at v
      → is_frozen r v.principal at ≡ false
  accepted_principal-unfrozen (AcceptedChain.of_root s e x) = x.unfrozen
  accepted_principal-unfrozen (AcceptedChain.of_host s e x) = x.agent_unfrozen

  -- A peer revocation without a key that a resolver has taken up, of a principal of the registry,
  -- takes effect: from the time of its acceptance no message of that principal is accepted.
  pub with_peer_revocation-silences :
      (r r' : Resolver) (rev : VerifiedPeerRevocation) (e : VerifiedEntry)
      → with_peer_revocation r rev ≡ ok r'
      → entry r rev.target ≡ some e
      → rev.revoked ≡ none
      → (msg : Pb.SignedMessage) (audience : Str) (when : When) (v : VerifiedMessage)
      → rev.accepted_at ≤ℤ time_of when
      → verify_signed_message msg audience r' when ≡ ok v
      → v.chain.principal ≢ rev.target
  with_peer_revocation-silences r r' rev e h he hr msg audience when v ha hv same =
      let (extended, _) = with_peer_revocation-eq-ok r r' rev h in
      let accepted = verify_signed_message-AcceptedMessage msg audience r' when v hv in
      let unfrozen = accepted_principal-unfrozen accepted.chain in
      let frozen = with_peer-freezes r rev rev.target (time_of when) e he refl hr ha in
      cc (frozen, extended, same, unfrozen)
