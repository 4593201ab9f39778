-- ===== src/Verify/Approval/Sound.antt =====
-- What an accepted approval and an accepted peer revocation of src/verify.rs guarantee.
use identity_crypto.Prelude.{
  ◌≡◌, refl, sym, ap, ◌∙◌, true, false, not, ◌&&◌, some, arith, ◌!=◌, list_eq, nat_eq, option_eq,
  eq_of_not_ne, negated, both_false,
}
use identity_crypto.Prelude.Int.{ℤ, ◌≤ℤ◌, ltb_ℤ}
use identity_crypto.Primitives.{Bytes, Str, Primitives}
use identity_crypto.KeyTypes.{PublicKey, PrincipalId, key_eq, principal_eq}
use identity_crypto.Kind.{PrincipalKind, kind_eq}
use identity_crypto.PublicKey.{to_pb}
use identity_crypto.Error.{ok, >>=-elim, reject_if-eq-ok, ok_or-eq-ok, expect-eq-ok, ok-injective}
use identity_crypto.Pb
use identity_crypto.Signature.{Signed, verify_p256-eq-ok}
use identity_crypto.Transcripts.Enc.Keys.{req-eq-ok, opt_pb, opt_try-eq-ok}
use identity_crypto.Transcripts.Messages.{approval_transcript, peer_revocation_transcript, is_some}
use identity_crypto.Registry.Types.{
  VerifiedEntry, VerifiedBinding, approval_key, approval_delegation, is_self_rooted,
}
use identity_crypto.Resolver.{
  Resolver, VerifiedPeerRevocation, entry, binding, is_frozen, is_revoked,
}
use identity_crypto.Verify.Time.{When, time_of, check_skew}
use identity_crypto.Verify.Chain.{VerifiedChain}
use identity_crypto.Verify.Chain.Accepts.{principal_at-eq-ok}
use identity_crypto.Verify.Approval.{
  VerifiedApproval, approval_binding, verify_approval, verify_peer_revocation,
}

unexpired_at : (at not_after : ℤ) → ltb_ℤ not_after at ≡ false → at ≤ℤ not_after
unexpired_at at not_after h = ground arith

module _ ⦃p : Primitives⦄ where
  -- An approval by the human of the session, for its device, with the approval key of that device.
  pub record Approved (a : Pb.Approval) (audience request : Str) (session : VerifiedChain)
      (digest : Bytes) (r : Resolver) (when : When) (v : VerifiedApproval) : Type 0 where
    pub bound : VerifiedBinding
    pub delegation : Pb.KeyDelegation
    pub transcript : Bytes
    pub of_human : session.kind ≡ PrincipalKind.human
    pub by_session : v.principal ≡ session.principal
    pub names_principal : a.principal_genesis ≡ some (to_pb session.principal.genesis)
    pub names_device : a.device ≡ some (to_pb session.device)
    pub names_key : a.approval_key ≡ some (to_pb v.approval_key)
    pub unfrozen : is_frozen r session.principal (time_of when) ≡ false
    pub found : binding r session.principal session.device ≡ some bound
    pub key_of_device : approval_key bound ≡ some v.approval_key
    pub has_delegation : approval_delegation bound ≡ some delegation
    pub unexpired : time_of when ≤ℤ delegation.not_after_unix_seconds
    pub unrevoked : is_revoked r session.principal v.approval_key (time_of when) ≡ false
    pub for_audience : a.audience ≡ audience
    pub for_request : (a.request_id ≡ request) × (a.request_digest ≡ digest)
    pub covers : approval_transcript a ≡ ok transcript
    pub signed : Signed v.approval_key transcript a.signature
    pub in_window : check_skew when a.issued_at_unix_seconds ≡ ok tt
    pub decision :
        (v.accept ≡ a.accept) × (v.request_id ≡ request) × (v.issued_at ≡ a.issued_at_unix_seconds)

  -- An approval that `verify_approval` accepts names the session's principal, a human that is not
  -- frozen, and the session's device; its key is the approval key bound to that very device, unexpired
  -- and not revoked, and signed the approval's transcript; audience, request and digest are the
  -- expected ones, the time is in the window, and the decision returned is the approval's.
  pub verify_approval-Approved :
      (a : Pb.Approval) (audience request : Str) (session : VerifiedChain) (digest : Bytes)
      (r : Resolver) (when : When) (v : VerifiedApproval)
      → verify_approval a audience request session digest r when ≡ ok v
      → Approved a audience request session digest r when v
  unfolding verify_approval
  verify_approval-Approved a audience request session digest r when v h = >>=-elim _ _ h λ _ e1 h1.
      >>=-elim _ _ h1 λ principal e2 h2. >>=-elim _ _ h2 λ _ e3 h3. >>=-elim _ _ h3 λ _ e4 h4.
        >>=-elim _ _ h4 λ _ e5 h5. >>=-elim _ _ h5 λ device e6 h6. >>=-elim _ _ h6 λ _ e7 h7.
          >>=-elim _ _ h7 λ key e8 h8. >>=-elim _ _ h8 λ b e9 h9. >>=-elim _ _ h9 λ _ e10 h10.
            >>=-elim _ _ h10 λ d e11 h11. >>=-elim _ _ h11 λ _ e12 h12.
              >>=-elim _ _ h12 λ _ e13 h13. >>=-elim _ _ h13 λ _ e14 h14.
                >>=-elim _ _ h14 λ _ e15 h15. >>=-elim _ _ h15 λ t e16 h16.
                  >>=-elim _ _ h16 λ _ e17 h17. >>=-elim _ _ h17 λ _ e18 h18.
                    let same : principal ≡ session.principal =
                      eq_of_not_ne principal session.principal (reject_if-eq-ok _ _ e3) in
                    let same_device : device ≡ session.device =
                      eq_of_not_ne device session.device (reject_if-eq-ok _ _ e7) in
                    let (other_request, other_digest) =
                      both_false (a.request_id != request) (a.request_digest != digest)
                        (reject_if-eq-ok _ _ e15) in
                    let same_request : a.request_id ≡ request =
                      eq_of_not_ne a.request_id request other_request in
                    rw (← (ok-injective h18)) (record {
                      bound = b;
                      delegation = d;
                      transcript = t;
                      of_human =
                          eq_of_not_ne session.kind PrincipalKind.human (reject_if-eq-ok _ _ e4);
                      by_session = same;
                      names_principal = cc (principal_at-eq-ok _ _ principal e2, same);
                      names_device = cc ((req-eq-ok _ _ device e6).1, same_device);
                      names_key = (req-eq-ok _ _ key e8).1;
                      unfrozen = rw (← same) (reject_if-eq-ok _ _ e5);
                      found = rw (← same, ← same_device) (ok_or-eq-ok _ _ e9);
                      key_of_device =
                          eq_of_not_ne (approval_key b) (some key) (reject_if-eq-ok _ _ e10);
                      has_delegation = expect-eq-ok _ e11;
                      unexpired =
                          unexpired_at (time_of when) d.not_after_unix_seconds
                            (reject_if-eq-ok _ _ e12);
                      unrevoked = rw (← same) (reject_if-eq-ok _ _ e13);
                      for_audience = eq_of_not_ne a.audience audience (reject_if-eq-ok _ _ e14);
                      for_request =
                          (same_request, eq_of_not_ne a.request_digest digest other_digest);
                      covers = e16;
                      signed = verify_p256-eq-ok key t a.signature e17;
                      in_window = e18;
                      decision = (refl, same_request, refl);
                    })

  -- A revocation by the authority, with the approval key of one of its devices, of this document.
  pub record PeerRevoked (rev : Pb.PeerRevocation) (r : Resolver) (when : When)
      (v : VerifiedPeerRevocation) : Type 0 where
    pub key : PublicKey
    pub authority_entry : VerifiedEntry
    pub bound : VerifiedBinding
    pub delegation : Pb.KeyDelegation
    pub target_entry : VerifiedEntry
    pub transcript : Bytes
    pub enabled : r.allow_peer_revocation ≡ true
    pub of_document : (rev.document_id ≡ r.document_id) × (v.document_id ≡ r.document_id)
    pub by_authority : rev.revoker_genesis ≡ some (to_pb r.authority.genesis)
    pub unfrozen : is_frozen r r.authority (time_of when) ≡ false
    pub names_key : rev.approval_key ≡ some (to_pb key)
    pub has_entry : entry r r.authority ≡ some authority_entry
    pub found : approval_binding key authority_entry.bindings ≡ some bound
    pub has_delegation : approval_delegation bound ≡ some delegation
    pub unexpired : time_of when ≤ℤ delegation.not_after_unix_seconds
    pub unrevoked :
        (is_revoked r r.authority key (time_of when) ≡ false)
        × (is_revoked r r.authority bound.device_key (time_of when) ≡ false)
    pub names_target : rev.target_genesis ≡ some (to_pb v.target.genesis)
    pub has_target : entry r v.target ≡ some target_entry
    pub names_revoked : rev.revoked ≡ opt_pb v.revoked
    pub key_of_rooted : (is_some v.revoked && not (is_self_rooted target_entry)) ≡ false
    pub covers : peer_revocation_transcript rev ≡ ok transcript
    pub signed : Signed key transcript rev.signature
    pub in_window : check_skew when rev.issued_at_unix_seconds ≡ ok tt
    pub accepted_at : v.accepted_at ≡ time_of when

  -- A peer revocation that `verify_peer_revocation` accepts is of the resolver's document, whose
  -- registry allows it; the revoker is the authority, not frozen; the key is the unexpired approval
  -- key of one of the authority's devices, where neither it nor the device is revoked, and signed the
  -- revocation's transcript; the target has an entry, with a root of its own if a key is revoked; the
  -- time is in the window, and the result takes effect at the time of the check.
  pub verify_peer_revocation-PeerRevoked :
      (rev : Pb.PeerRevocation) (r : Resolver) (when : When) (v : VerifiedPeerRevocation)
      → verify_peer_revocation rev r when ≡ ok v
      → PeerRevoked rev r when v
  unfolding verify_peer_revocation
  verify_peer_revocation-PeerRevoked rev r when v h = >>=-elim _ _ h λ _ e1 h1.
      >>=-elim _ _ h1 λ _ e2 h2. >>=-elim _ _ h2 λ _ e3 h3. >>=-elim _ _ h3 λ revoker e4 h4.
        >>=-elim _ _ h4 λ _ e5 h5. >>=-elim _ _ h5 λ _ e6 h6. >>=-elim _ _ h6 λ key e7 h7.
          >>=-elim _ _ h7 λ e e8 h8. >>=-elim _ _ h8 λ b e9 h9. >>=-elim _ _ h9 λ d e10 h10.
            >>=-elim _ _ h10 λ _ e11 h11. >>=-elim _ _ h11 λ _ e12 h12.
              >>=-elim _ _ h12 λ target e13 h13. >>=-elim _ _ h13 λ target_entry e14 h14.
                >>=-elim _ _ h14 λ revoked e15 h15. >>=-elim _ _ h15 λ _ e16 h16.
                  >>=-elim _ _ h16 λ t e17 h17. >>=-elim _ _ h17 λ _ e18 h18.
                    >>=-elim _ _ h18 λ _ e19 h19.
                      let same : revoker ≡ r.authority =
                        eq_of_not_ne revoker r.authority (reject_if-eq-ok _ _ e5) in
                      let valid =
                        both_false (is_revoked r revoker key (time_of when))
                          (is_revoked r revoker b.device_key (time_of when))
                          (reject_if-eq-ok _ _ e12) in
                      rw (← (ok-injective h19)) (record {
                        key = key;
                        authority_entry = e;
                        bound = b;
                        delegation = d;
                        target_entry = target_entry;
                        transcript = t;
                        enabled = negated _ (reject_if-eq-ok _ _ e2);
                        of_document = (
                          eq_of_not_ne rev.document_id r.document_id (reject_if-eq-ok _ _ e3),
                          refl,
                        );
                        by_authority = cc (principal_at-eq-ok _ _ revoker e4, same);
                        unfrozen =
                            ap (λ (x : PrincipalId). is_frozen r x (time_of when)) (sym same)
                            ∙ reject_if-eq-ok _ _ e6;
                        names_key = (req-eq-ok _ _ key e7).1;
                        has_entry =
                            ap (λ (x : PrincipalId). entry r x) (sym same) ∙ expect-eq-ok _ e8;
                        found = ok_or-eq-ok _ _ e9;
                        has_delegation = expect-eq-ok _ e10;
                        unexpired =
                            unexpired_at (time_of when) d.not_after_unix_seconds
                              (reject_if-eq-ok _ _ e11);
                        unrevoked = (
                          ap (λ (x : PrincipalId). is_revoked r x key (time_of when)) (sym same)
                              ∙ valid.0,
                          ap (λ (x : PrincipalId). is_revoked r x b.device_key (time_of when))
                                (sym same)
                              ∙ valid.1,
                        );
                        names_target = principal_at-eq-ok _ _ target e13;
                        has_target = ok_or-eq-ok _ _ e14;
                        names_revoked = opt_try-eq-ok _ _ e15;
                        key_of_rooted = reject_if-eq-ok _ _ e16;
                        covers = e17;
                        signed = verify_p256-eq-ok key t rev.signature e18;
                        in_window = e19;
                        accepted_at = refl;
                      })
