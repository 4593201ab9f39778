-- ===== src/Runs/Messages.antt =====
-- The verifiers of src/verify.rs on concrete messages.
use identity_crypto.Prelude.{[], arith, ◌≡◌, ◌≢◌, refl, none, some, ◌∷◌}
use identity_crypto.Primitives.{Bytes}
use identity_crypto.Runs.{
  cert, toy, key, chain, room, message, resolver, bob, bob_entry, freeze_bob, resolver_without_bob,
}
use identity_crypto.Pb
use identity_crypto.Transcripts.Messages.Signed.{
  unsigned_message, message_cert, signed_message_transcript-injective,
}
use identity_crypto.Prelude.Int.{pos, saturating_add, saturating_sub, abs_diff}
use identity_crypto.Kind.{PrincipalKind}
use identity_crypto.Error.{ok, ◌>>=◌}
use identity_crypto.Pb.Equality.{delegation_beq}
use identity_crypto.Resolver.{with_peer_revocation, binding, find_binding, is_frozen, is_revoked}
use identity_crypto.Verify.Time.{When, check_session_span, check_skew}
use identity_crypto.Verify.Chain.{
  Host, VerifiedChain, verify_chain, verify_self_rooted, principal_at, host_of, device_current,
  check_cert, device_listed, bound_device, host_is_frozen,
}
use identity_crypto.Verify.Chain.Accepts.{AcceptedChain, verify_chain-AcceptedChain}
use identity_crypto.Verify.Message.{
  VerifiedMessage, VerifiedTrustedMessage, AuthorDevices, verify_signed_message,
  verify_signed_message_trusted_devices, check_message_under_session, self_rooted_cert,
}
use identity_crypto.Verify.Message.Sound.{
  AcceptedMessage, TrustedMessage, verify_signed_message-AcceptedMessage,
  verify_signed_message_trusted_devices-TrustedMessage,
}
use identity_crypto.Verify.Message.Peer.{
  with_peer_revocation-restricts_messages, with_peer_revocation-silences,
}
use identity_crypto.PublicKey.{or_invalid_key, p256, try_from}
use identity_crypto.Signature.{verify_p256}
use identity_crypto.Map.{get}
use identity_crypto.Transcripts.Enc
use identity_crypto.Transcripts.Enc.{req, opt_try, non_empty}
use identity_crypto.Transcripts.Keys.{key_delegation_transcript, signing_purpose, encryption_half}
use identity_crypto.Transcripts.Messages.{
  session_delegation_transcript, encode_cert_body, host_and_subject, opt_var,
  signed_message_transcript, opt_fixed, chain_cert,
}

abbrev now : When
now = When.live (pos 2010)

abbrev verified_chain : VerifiedChain
verified_chain = record {
  principal = record { genesis = key 1 };
  kind = PrincipalKind.human;
  host = Host.hostless;
  subject = none;
  device = key 3;
  session_key = key 4;
  session_not_after = pos 5000;
}

chain_is_accepted : verify_chain chain resolver now ≡ ok verified_chain
unfolding verify_chain verify_self_rooted principal_at host_of device_current check_cert
    device_listed bound_device host_is_frozen binding find_binding get is_frozen is_revoked req
    opt_try try_from p256 or_invalid_key verify_p256 key_delegation_transcript signing_purpose
    encryption_half session_delegation_transcript encode_cert_body host_and_subject opt_var Enc.var
    Enc.u8 Enc.key Enc.absent Enc.present Enc.opt_key Enc.i64 check_session_span saturating_add
    saturating_sub delegation_beq ◌>>=◌
chain_is_accepted = refl

abbrev verified : VerifiedMessage
verified = record {
  chain = verified_chain;
  nonce = message.nonce;
  issued_at = pos 2_000;
  in_reply_to_nonce = none;
  body_type = message.body_type;
  body = message.body;
}

message_is_accepted : verify_signed_message message room resolver now ≡ ok verified
unfolding chain_cert verify_signed_message check_message_under_session signed_message_transcript
    non_empty opt_fixed Enc.fixed check_skew abs_diff verify_chain verify_self_rooted principal_at
    host_of device_current check_cert device_listed bound_device host_is_frozen binding find_binding
    get is_frozen is_revoked req opt_try try_from p256 or_invalid_key verify_p256
    key_delegation_transcript signing_purpose encryption_half session_delegation_transcript
    encode_cert_body host_and_subject opt_var Enc.var Enc.u8 Enc.key Enc.absent Enc.present
    Enc.opt_key Enc.i64 check_session_span saturating_add saturating_sub delegation_beq ◌>>=◌
message_is_accepted = refl

bob_is_frozen : with_peer_revocation resolver freeze_bob ≡ ok resolver_without_bob
unfolding with_peer_revocation ◌>>=◌
bob_is_frozen = refl

message_after_freeze : verify_signed_message message room resolver_without_bob now ≡ ok verified
unfolding chain_cert verify_signed_message check_message_under_session signed_message_transcript
    non_empty opt_fixed Enc.fixed check_skew abs_diff verify_chain verify_self_rooted principal_at
    host_of device_current check_cert device_listed bound_device host_is_frozen binding find_binding
    get is_frozen is_revoked req opt_try try_from p256 or_invalid_key verify_p256
    key_delegation_transcript signing_purpose encryption_half session_delegation_transcript
    encode_cert_body host_and_subject opt_var Enc.var Enc.u8 Enc.key Enc.absent Enc.present
    Enc.opt_key Enc.i64 check_session_span saturating_add saturating_sub delegation_beq ◌>>=◌
message_after_freeze = refl

abbrev alice_devices : AuthorDevices
alice_devices = record { author_genesis = key 1; devices = key 3 ∷ [] }

abbrev trusted : VerifiedTrustedMessage
trusted = record {
  author_genesis = key 1;
  device = key 3;
  session_key = key 4;
  session_not_after = pos 5_000;
  nonce = message.nonce;
  issued_at = pos 2_000;
  in_reply_to_nonce = none;
  body_type = message.body_type;
  body = message.body;
}

trusted_is_accepted :
    verify_signed_message_trusted_devices message room alice_devices now ≡ ok trusted
unfolding verify_signed_message_trusted_devices self_rooted_cert chain_cert verify_signed_message
    check_message_under_session signed_message_transcript non_empty opt_fixed Enc.fixed check_skew
    abs_diff verify_chain verify_self_rooted principal_at host_of device_current check_cert
    device_listed bound_device host_is_frozen binding find_binding get is_frozen is_revoked req
    opt_try try_from p256 or_invalid_key verify_p256 key_delegation_transcript signing_purpose
    encryption_half session_delegation_transcript encode_cert_body host_and_subject opt_var Enc.var
    Enc.u8 Enc.key Enc.absent Enc.present Enc.opt_key Enc.i64 check_session_span saturating_add
    saturating_sub delegation_beq ◌>>=◌
trusted_is_accepted = refl

verify_chain-AcceptedChain_example : AcceptedChain chain resolver (pos 2_010) verified_chain
verify_chain-AcceptedChain_example =
    verify_chain-AcceptedChain chain resolver now verified_chain chain_is_accepted

verify_signed_message-AcceptedMessage_example : AcceptedMessage message room resolver now verified
verify_signed_message-AcceptedMessage_example =
    verify_signed_message-AcceptedMessage message room resolver now verified message_is_accepted

verify_signed_message_trusted_devices-TrustedMessage_example :
    TrustedMessage message room alice_devices now trusted
verify_signed_message_trusted_devices-TrustedMessage_example =
    verify_signed_message_trusted_devices-TrustedMessage message room alice_devices now trusted
      trusted_is_accepted

with_peer_revocation-restricts_messages_example :
    verify_signed_message message room resolver now ≡ ok verified
with_peer_revocation-restricts_messages_example =
    with_peer_revocation-restricts_messages resolver resolver_without_bob freeze_bob message room
      now verified bob_is_frozen message_after_freeze

bob_has_an_entry : get bob resolver.entries ≡ some bob_entry
unfolding get
bob_has_an_entry = refl

with_peer_revocation-silences_example : verified.chain.principal ≢ bob
with_peer_revocation-silences_example =
    with_peer_revocation-silences resolver resolver_without_bob freeze_bob bob_entry bob_is_frozen
      bob_has_an_entry refl message room now verified (ground arith) message_after_freeze

-- The message with another signature.
abbrev forged : Pb.SignedMessage
forged = record message { signature = [] }

abbrev transcript : Bytes
transcript = elim (signed_message_transcript message) [ ok t ↦ t | _ ↦ [] ]

message_covers : signed_message_transcript message ≡ ok transcript
unfolding signed_message_transcript chain_cert req try_from p256 or_invalid_key non_empty opt_fixed
    Enc.key Enc.u8 Enc.var Enc.fixed Enc.absent Enc.i64 ◌>>=◌
message_covers = refl

forged_covers : signed_message_transcript forged ≡ ok transcript
unfolding signed_message_transcript chain_cert req try_from p256 or_invalid_key non_empty opt_fixed
    Enc.key Enc.u8 Enc.var Enc.fixed Enc.absent Enc.i64 ◌>>=◌
forged_covers = refl

message_has_cert : message_cert message ≡ some cert
unfolding chain_cert
message_has_cert = refl

forged_has_cert : message_cert forged ≡ some cert
unfolding chain_cert
forged_has_cert = refl

signed_message_transcript-injective_example :
    (unsigned_message message ≡ unsigned_message forged)
    × (cert.principal_genesis ≡ cert.principal_genesis)
    × (cert.session ≡ cert.session)
signed_message_transcript-injective_example =
    signed_message_transcript-injective message forged cert cert (ground arith) (ground arith)
      message_has_cert forged_has_cert message_covers forged_covers
