-- ===== src/Session.antt =====
-- src/session.rs: session certificates and messages signed under them. The session's key pair, which
-- the source generates, is an argument.
pub mod Accepted
pub mod Delegated
use Prim.Native.String
use identity_crypto.Prelude.{Option, none, some, [], inl, inr, ◌⊎◌}
use identity_crypto.Prelude.Int.{ℤ}
use identity_crypto.Primitives.{Bytes, Str, Primitives}
use identity_crypto.KeyTypes.{PublicKey}
use identity_crypto.PublicKey.{to_pb}
use identity_crypto.Error.{Result, ok, err, invalid_key, ◌>>=◌, ◌>>◌}
use identity_crypto.Pb
use identity_crypto.Jwk.{Jwk, from_key_pair}
use identity_crypto.Transcripts.Messages.{session_delegation_transcript, signed_message_transcript}
use identity_crypto.Verify.Time.{check_session_span}

pub record SessionCredential (K : Type 0) : Type 0 where
  pub cert : Pb.DelegationCert
  pub key : K

module _ {K : Type 0} ⦃j : Jwk K⦄ where
  -- `sign`
  unfoldable pub sign : K → Bytes → Result Bytes
  sign key message = elim (j.sign_bytes key message) [
    | inl e ↦ err (invalid_key (String.◌++◌ "cannot sign with this key pair: " e))
    | inr s ↦ ok s
  ]

  -- The certificate of `mint_session` before it is signed.
  abbrev pub cert_to_sign : K → PublicKey → ℤ → ℤ → K → Pb.DelegationCert
  cert_to_sign device principal_genesis not_before not_after key = record {
    not_before_unix_seconds = not_before;
    not_after_unix_seconds = not_after;
    signature = [];
    principal_genesis = some (to_pb principal_genesis);
    mode = 0;
    device = some (to_pb (from_key_pair device));
    session = some (to_pb (from_key_pair key));
    host_genesis = none;
    subject = none;
  }

  -- `SessionCredential::session_public_key`
  abbrev pub session_public_key : SessionCredential K → PublicKey
  session_public_key c = from_key_pair c.key

  -- The message of `sign_message` before it is signed.
  abbrev pub message_to_sign :
      SessionCredential K
      → Option Pb.KeyDelegation
      → Str
      → Bytes
      → ℤ
      → Option Bytes
      → Str
      → Bytes
      → Pb.SignedMessage
  message_to_sign c device audience nonce issued_at in_reply_to body_type body = record {
    signer = some (record {
      chain = some (Pb.self_rooted (record { device = device; session = some c.cert }));
    });
    audience = audience;
    nonce = nonce;
    issued_at_unix_seconds = issued_at;
    in_reply_to_nonce = in_reply_to;
    body_type = body_type;
    body = body;
    signature = [];
  }

  module _ ⦃p : Primitives⦄ where
    -- `mint_session`
    unfoldable pub mint_session : K → PublicKey → ℤ → ℤ → K → Result (SessionCredential K)
    mint_session device principal_genesis not_before not_after key = do
      check_session_span not_before not_after
      let cert = cert_to_sign device principal_genesis not_before not_after key
      transcript ← session_delegation_transcript cert
      signature ← sign device transcript
      ok (record { cert = record cert { signature = signature }; key = key })

    -- `SessionCredential::sign_message`; the source's nonces are arrays of 16 bytes.
    unfoldable pub sign_message :
        SessionCredential K
        → Option Pb.KeyDelegation
        → Str
        → Bytes
        → ℤ
        → Option Bytes
        → Str
        → Bytes
        → Result Pb.SignedMessage
    sign_message c device audience nonce issued_at in_reply_to body_type body = do
      let message = message_to_sign c device audience nonce issued_at in_reply_to body_type body
      transcript ← signed_message_transcript message
      signature ← sign c.key transcript
      ok (record message { signature = signature })
