-- ===== src/Verify/Message.antt =====
-- src/verify.rs: signed messages, against a resolver and against a set of trusted devices.
pub mod Sound
pub mod Peer
pub mod Timely
use identity_crypto.Prelude.{
  ℕ, Bool, true, false, not, Option, none, some, List, [], ◌∷◌, is_empty, contains, ◌==◌, ◌!=◌,
  nat_eq, list_eq,
}
use identity_crypto.Prelude.Int.{ℤ}
use identity_crypto.Primitives.{Bytes, Str, Primitives}
use identity_crypto.KeyTypes.{PublicKey, key_eq}
use identity_crypto.Error.{
  Result, ok, err, ◌>>=◌, ◌>>◌, reject_if, ok_or, empty_signature, missing_field, wrong_audience,
  chain_mismatch, not_bound,
}
use identity_crypto.Pb
use identity_crypto.Signature.{verify_p256}
use identity_crypto.Transcripts.Enc.{req}
use identity_crypto.Transcripts.Messages.{signed_message_transcript}
use identity_crypto.Resolver.{Resolver}
use identity_crypto.Verify.Time.{When, time_of, check_skew}
use identity_crypto.Verify.Chain.{VerifiedChain, verify_chain, check_cert}

pub record VerifiedMessage : Type 0 where
  pub chain : VerifiedChain
  pub nonce : Bytes
  pub issued_at : ℤ
  pub in_reply_to_nonce : Option Bytes
  pub body_type : Str
  pub body : Bytes

pub record AuthorDevices : Type 0 where
  pub author_genesis : PublicKey
  pub devices : List PublicKey

pub record VerifiedTrustedMessage : Type 0 where
  pub author_genesis : PublicKey
  pub device : PublicKey
  pub session_key : PublicKey
  pub session_not_after : ℤ
  pub nonce : Bytes
  pub issued_at : ℤ
  pub in_reply_to_nonce : Option Bytes
  pub body_type : Str
  pub body : Bytes

-- The cert of the chain that the trusted-devices verifier accepts.
unfoldable pub self_rooted_cert : Pb.Chain → Result Pb.DelegationCert
self_rooted_cert (Pb.self_rooted s) = ok_or s.session (missing_field "self_rooted.session")
self_rooted_cert (Pb.host_vouched h) = err (chain_mismatch "signer.host_vouched")

module _ ⦃p : Primitives⦄ where
  unfoldable pub check_message_under_session :
      Pb.SignedMessage → Str → PublicKey → When → Result (Unit {0})
  check_message_under_session msg expected_audience session_key when = do
    reject_if (msg.audience != expected_audience) wrong_audience
    transcript ← signed_message_transcript msg
    verify_p256 session_key transcript msg.signature
    check_skew when msg.issued_at_unix_seconds

  unfoldable pub verify_signed_message :
      Pb.SignedMessage → Str → Resolver → When → Result VerifiedMessage
  verify_signed_message msg expected_audience r when = do
    reject_if (is_empty msg.signature) empty_signature
    signer ← ok_or msg.signer (missing_field "signer")
    chain ← verify_chain signer r when
    check_message_under_session msg expected_audience chain.session_key when
    ok (record {
      chain = chain;
      nonce = msg.nonce;
      issued_at = msg.issued_at_unix_seconds;
      in_reply_to_nonce = msg.in_reply_to_nonce;
      body_type = msg.body_type;
      body = msg.body;
    })

  unfoldable pub verify_signed_message_trusted_devices :
      Pb.SignedMessage → Str → AuthorDevices → When → Result VerifiedTrustedMessage
  verify_signed_message_trusted_devices msg expected_audience author when = do
    reject_if (is_empty msg.signature) empty_signature
    signer ← ok_or msg.signer (missing_field "signer")
    chain ← ok_or signer.chain (missing_field "chain")
    cert ← self_rooted_cert chain
    reject_if (cert.mode != 0) (chain_mismatch "session.mode")
    principal ← req cert.principal_genesis "session.principal_genesis"
    reject_if (principal != author.author_genesis) (chain_mismatch "session.principal_genesis")
    device ← req cert.device "session.device"
    reject_if (not (contains author.devices device)) not_bound
    (session_key, session_not_after) ← check_cert cert device (time_of when)
    check_message_under_session msg expected_audience session_key when
    ok (record {
      author_genesis = author.author_genesis;
      device = device;
      session_key = session_key;
      session_not_after = session_not_after;
      nonce = msg.nonce;
      issued_at = msg.issued_at_unix_seconds;
      in_reply_to_nonce = msg.in_reply_to_nonce;
      body_type = msg.body_type;
      body = msg.body;
    })
