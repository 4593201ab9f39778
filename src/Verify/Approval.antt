-- ===== src/Verify/Approval.antt =====
-- src/verify.rs: approvals and peer revocations.
pub mod Sound
use identity_crypto.Prelude.{
  ℕ, Bool, true, false, not, ◌&&◌, ◌||◌, Option, none, some, List, [], ◌∷◌, is_empty, find, ◌==◌,
  ◌!=◌, nat_eq, list_eq, option_eq,
}
use identity_crypto.Prelude.Int.{ℤ, ltb_ℤ}
use identity_crypto.Primitives.{Bytes, Str, Primitives}
use identity_crypto.KeyTypes.{PublicKey, PrincipalId, key_eq, principal_eq}
use identity_crypto.Kind.{PrincipalKind, kind_eq}
use identity_crypto.Error.{
  Result, ok, err, ◌>>=◌, ◌>>◌, reject_if, ok_or, expect, empty_signature, chain_mismatch,
  wrong_kind, frozen, not_bound, expired, key_revoked, wrong_audience, digest_mismatch,
  peer_revocation_disabled, stale_peer_revocation, not_authority, unknown_principal,
}
use identity_crypto.Pb
use identity_crypto.Signature.{verify_p256}
use identity_crypto.Transcripts.Enc.{req, opt_try}
use identity_crypto.Transcripts.Messages.{approval_transcript, peer_revocation_transcript, is_some}
use identity_crypto.Registry.Types.{
  VerifiedBinding, approval_key, approval_delegation, is_self_rooted,
}
use identity_crypto.Resolver.{
  Resolver, VerifiedPeerRevocation, entry, binding, is_frozen, is_revoked,
}
use identity_crypto.Verify.Time.{When, time_of, check_skew}
use identity_crypto.Verify.Chain.{VerifiedChain, principal_at}

pub record VerifiedApproval : Type 0 where
  pub principal : PrincipalId
  pub approval_key : PublicKey
  pub request_id : Str
  pub accept : Bool
  pub issued_at : ℤ

-- The first binding with this approval key.
unfoldable pub approval_binding : PublicKey → List VerifiedBinding → Option VerifiedBinding
approval_binding k bs = find (λ b. approval_key b == some k) bs

module _ ⦃p : Primitives⦄ where
  unfoldable pub verify_approval :
      Pb.Approval → Str → Str → VerifiedChain → Bytes → Resolver → When → Result VerifiedApproval
  verify_approval a expected_audience expected_request_id session digest r when = do
    reject_if (is_empty a.signature) empty_signature
    let at = time_of when
    principal ← principal_at a.principal_genesis "principal_genesis"
    reject_if (principal != session.principal) (chain_mismatch "approval.principal_genesis")
    reject_if (session.kind != PrincipalKind.human) wrong_kind
    reject_if (is_frozen r principal at) frozen
    device ← req a.device "device"
    reject_if (device != session.device) (chain_mismatch "approval.device")
    key ← req a.approval_key "approval_key"
    b ← ok_or (binding r principal device) not_bound
    reject_if (approval_key b != some key) not_bound
    delegation ← expect (approval_delegation b)
    reject_if (ltb_ℤ delegation.not_after_unix_seconds at) (expired "approval delegation")
    reject_if (is_revoked r principal key at) key_revoked
    reject_if (a.audience != expected_audience) wrong_audience
    reject_if (a.request_id != expected_request_id || a.request_digest != digest) digest_mismatch
    transcript ← approval_transcript a
    verify_p256 key transcript a.signature
    check_skew when a.issued_at_unix_seconds
    ok (record {
      principal = principal;
      approval_key = key;
      request_id = a.request_id;
      accept = a.accept;
      issued_at = a.issued_at_unix_seconds;
    })

  unfoldable pub verify_peer_revocation :
      Pb.PeerRevocation → Resolver → When → Result VerifiedPeerRevocation
  verify_peer_revocation rev r when = do
    reject_if (is_empty rev.signature) empty_signature
    let at = time_of when
    reject_if (not r.allow_peer_revocation) peer_revocation_disabled
    reject_if (rev.document_id != r.document_id) stale_peer_revocation
    revoker ← principal_at rev.revoker_genesis "revoker_genesis"
    reject_if (revoker != r.authority) not_authority
    reject_if (is_frozen r revoker at) frozen
    key ← req rev.approval_key "approval_key"
    e ← expect (entry r revoker)
    b ← ok_or (approval_binding key e.bindings) not_bound
    delegation ← expect (approval_delegation b)
    reject_if (ltb_ℤ delegation.not_after_unix_seconds at) (expired "approval delegation")
    reject_if (is_revoked r revoker key at || is_revoked r revoker b.device_key at) key_revoked
    target ← principal_at rev.target_genesis "target_genesis"
    target_entry ← ok_or (entry r target) unknown_principal
    revoked ← opt_try rev.revoked
    reject_if (is_some revoked && not (is_self_rooted target_entry)) wrong_kind
    transcript ← peer_revocation_transcript rev
    verify_p256 key transcript rev.signature
    check_skew when rev.issued_at_unix_seconds
    ok (record {
      target = target;
      revoked = revoked;
      accepted_at = at;
      document_id = r.document_id;
    })
