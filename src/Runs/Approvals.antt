-- ===== src/Runs/Approvals.antt =====
-- Approvals and peer revocations of src/verify.rs on concrete data.
use identity_crypto.Prelude.{[], arith, ◌≡◌, refl, none, true}
use identity_crypto.Transcripts.Messages.Approvals.{
  unsigned_approval, approval_transcript-injective,
}
use identity_crypto.Prelude.Int.{pos, abs_diff}
use identity_crypto.Primitives.{Bytes, Str}
use identity_crypto.Kind.{PrincipalKind}
use identity_crypto.Error.{ok, ◌>>=◌}
use identity_crypto.Pb
use identity_crypto.Principal.{ascii}
use identity_crypto.PublicKey.{or_invalid_key, p256, try_from}
use identity_crypto.Signature.{verify_p256}
use identity_crypto.Map.{get}
use identity_crypto.Transcripts.Enc
use identity_crypto.Transcripts.Enc.{req, opt_try, non_empty}
use identity_crypto.Transcripts.Messages.{approval_transcript, peer_revocation_transcript}
use identity_crypto.Resolver.{binding, find_binding, is_frozen, is_revoked}
use identity_crypto.Verify.Time.{When, check_skew}
use identity_crypto.Verify.Chain.{Host, VerifiedChain, principal_at}
use identity_crypto.Verify.Approval.{
  VerifiedApproval, approval_binding, verify_approval, verify_peer_revocation,
}
use identity_crypto.Verify.Approval.Sound.{
  Approved, PeerRevoked, verify_approval-Approved, verify_peer_revocation-PeerRevoked,
}
use identity_crypto.Runs.{toy, key, wire, copies, signature, alice, room, resolver, freeze_bob}

abbrev now : When
now = When.live (pos 2_010)

abbrev session : VerifiedChain
session = record {
  principal = alice;
  kind = PrincipalKind.human;
  host = Host.hostless;
  subject = none;
  device = key 3;
  session_key = key 4;
  session_not_after = pos 5_000;
}

abbrev request : Str
request = ascii "request"

abbrev digest : Bytes
digest = copies 32 5

abbrev approval : Pb.Approval
approval = record {
  principal_genesis = wire 1;
  approval_key = wire 8;
  device = wire 3;
  audience = room;
  request_id = request;
  request_digest = digest;
  accept = true;
  issued_at_unix_seconds = pos 2_005;
  signature = signature 8;
}

abbrev approved : VerifiedApproval
approved = record {
  principal = alice;
  approval_key = key 8;
  request_id = request;
  accept = true;
  issued_at = pos 2_005;
}

approval_is_accepted :
    verify_approval approval room request session digest resolver now ≡ ok approved
unfolding verify_approval principal_at is_frozen is_revoked binding find_binding get req try_from
    p256 or_invalid_key verify_p256 approval_transcript non_empty check_skew abs_diff Enc.key Enc.u8
    Enc.var Enc.fixed Enc.i64 ◌>>=◌
approval_is_accepted = refl

verify_approval-Approved_example :
    Approved approval room request session digest resolver now approved
verify_approval-Approved_example =
    verify_approval-Approved approval room request session digest resolver now approved
      approval_is_accepted

abbrev revocation : Pb.PeerRevocation
revocation = record {
  revoker_genesis = wire 1;
  approval_key = wire 8;
  target_genesis = wire 20;
  revoked = none;
  issued_at_unix_seconds = pos 1_490;
  signature = signature 8;
  document_id = copies 32 9;
}

revocation_is_accepted :
    verify_peer_revocation revocation resolver (When.live (pos 1_500)) ≡ ok freeze_bob
unfolding verify_peer_revocation approval_binding principal_at is_frozen is_revoked get req opt_try
    try_from p256 or_invalid_key verify_p256 peer_revocation_transcript check_skew abs_diff Enc.key
    Enc.opt_key Enc.absent Enc.fixed Enc.i64 Enc.u8 Enc.var ◌>>=◌
revocation_is_accepted = refl

verify_peer_revocation-PeerRevoked_example :
    PeerRevoked revocation resolver (When.live (pos 1_500)) freeze_bob
verify_peer_revocation-PeerRevoked_example =
    verify_peer_revocation-PeerRevoked revocation resolver (When.live (pos 1_500)) freeze_bob
      revocation_is_accepted

-- The approval with another signature.
abbrev forged : Pb.Approval
forged = record approval { signature = [] }

abbrev transcript : Bytes
transcript = elim (approval_transcript approval) [ ok t ↦ t | _ ↦ [] ]

approval_covers : approval_transcript approval ≡ ok transcript
unfolding req try_from p256 or_invalid_key approval_transcript non_empty Enc.key Enc.u8 Enc.var
    Enc.fixed Enc.i64 ◌>>=◌
approval_covers = refl

forged_covers : approval_transcript forged ≡ ok transcript
unfolding req try_from p256 or_invalid_key approval_transcript non_empty Enc.key Enc.u8 Enc.var
    Enc.fixed Enc.i64 ◌>>=◌
forged_covers = refl

approval_transcript-injective_example : unsigned_approval approval ≡ unsigned_approval forged
approval_transcript-injective_example =
    approval_transcript-injective approval forged (ground arith) (ground arith) approval_covers
      forged_covers
