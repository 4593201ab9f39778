-- ===== src/Transcripts/Messages.antt =====
-- src/transcripts.rs: the transcripts over session certificates, messages, documents, approvals and
-- peer revocations.
pub mod Documents
pub mod Approvals
pub mod Signed
use identity_crypto.Prelude.{
  ℕ, Bool, true, false, Option, none, some, ◌==◌, ltb, nat_eq, if◌then◌else◌, String,
}
use identity_crypto.Prelude.Int.{ℤ, pos}
use identity_crypto.Primitives.{Bytes, Str, Primitives}
use identity_crypto.KeyTypes.{PublicKey, key_eq}
use identity_crypto.Error.{
  Result, ok, ◌>>=◌, ◌>>◌, reject_if, ok_or, invalid_field, missing_field, not_distinct,
}
use identity_crypto.Pb
use identity_crypto.Transcripts.Enc
use identity_crypto.Transcripts.Enc.{Enc, non_empty, req, opt_try}
use identity_crypto.Transcripts.Tags.{
  session_delegation_tag, signed_message_tag, signed_document_tag, approval_tag,
  peer_revocation_tag,
}

abbrev pub is_some {ℓ} : {A : Type ℓ} → Option A → Bool
is_some none = false
is_some (some a) = true

-- `match host { Some(h) => { e.present(); e.principal(h)? }, None => e.absent() }`
abbrev pub opt_principal : Enc → Option PublicKey → Result Enc
opt_principal = Enc.opt_key

-- `match subject { Some(s) => { e.present(); e.var(s)? }, None => e.absent() }`
unfoldable pub opt_var : Enc → Option Bytes → Result Enc
opt_var e none = ok (Enc.absent e)
opt_var e (some s) = Enc.var (Enc.present e) s

-- `match nonce { Some(n) => { e.present(); e.fixed(field, n, 16)? }, None => e.absent() }`
unfoldable pub opt_fixed : Enc → String → Option Bytes → ℕ → Result Enc
opt_fixed e field none n = ok (Enc.absent e)
opt_fixed e field (some x) n = Enc.fixed (Enc.present e) field x n

-- `i64::from(bool)`
abbrev pub bool_number : Bool → ℤ
bool_number true = pos 1
bool_number false = pos 0

-- The cert of a signer chain, with the three field paths of its error messages.
unfoldable pub chain_cert : Pb.Chain → Option Pb.DelegationCert × String × String × String
chain_cert (Pb.self_rooted s) = (
  s.session, "signer.self_rooted.session", "signer.self_rooted.session.principal_genesis",
  "signer.self_rooted.session.session",
)
chain_cert (Pb.host_vouched h) = (
  h.session, "signer.host_vouched.session", "signer.host_vouched.session.principal_genesis",
  "signer.host_vouched.session.session",
)

module _ ⦃p : Primitives⦄ where
  -- The host and the subject that the mode of a cert asks for.
  unfoldable pub host_and_subject : Pb.DelegationCert → Result (Option PublicKey × Option Str)
  host_and_subject c =
      if c.mode == 0
      then (do
        reject_if (is_some c.host_genesis) (invalid_field "host_genesis" "forbidden in mode 0")
        reject_if (is_some c.subject) (invalid_field "subject" "forbidden in mode 0")
        ok (none, none))
      else (do
        host ← req c.host_genesis "host_genesis"
        subject ← ok_or c.subject (missing_field "subject")
        non_empty "subject" subject
        ok (some host, some subject))

  unfoldable pub write_cert_body :
      Enc
      → PublicKey
      → Option PublicKey × Option Str
      → PublicKey
      → PublicKey
      → Pb.DelegationCert
      → Result Enc
  write_cert_body e principal (host, subject) device session c = do
    e ← Enc.u8 e "mode" (pos c.mode)
    e ← Enc.principal e principal
    e ← opt_principal e host
    e ← opt_var e subject
    e ← Enc.key e device
    e ← Enc.key e session
    let e = Enc.i64 e c.not_before_unix_seconds
    let e = Enc.i64 e c.not_after_unix_seconds
    ok e

  -- `encode_cert_body`
  unfoldable pub encode_cert_body : Enc → Pb.DelegationCert → Result Enc
  unfolding write_cert_body
  encode_cert_body e c = do
    reject_if (ltb 1 c.mode) (invalid_field "mode" "must be 0 or 1")
    principal ← req c.principal_genesis "principal_genesis"
    parts ← host_and_subject c
    device ← req c.device "device"
    session ← req c.session "session"
    reject_if (device == session) (not_distinct "device, session")
    write_cert_body e principal parts device session c

  unfoldable pub session_delegation_transcript : Pb.DelegationCert → Result Bytes
  session_delegation_transcript c = encode_cert_body (Enc.new session_delegation_tag) c

  unfoldable pub signed_message_transcript : Pb.SignedMessage → Result Bytes
  signed_message_transcript m = do
    signer ← ok_or m.signer (missing_field "signer")
    chain ← ok_or signer.chain (missing_field "signer.chain")
    let (session_cert, path, principal_path, session_path) = chain_cert chain
    cert ← ok_or session_cert (missing_field path)
    principal ← req cert.principal_genesis principal_path
    session ← req cert.session session_path
    non_empty "audience" m.audience
    non_empty "body_type" m.body_type
    e ← Enc.principal (Enc.new signed_message_tag) principal
    e ← Enc.key e session
    e ← Enc.var e m.audience
    e ← Enc.fixed e "nonce" m.nonce 16
    let e = Enc.i64 e m.issued_at_unix_seconds
    e ← opt_fixed e "in_reply_to_nonce" m.in_reply_to_nonce 16
    e ← Enc.var e m.body_type
    Enc.var e m.body

  unfoldable pub signed_document_transcript : Pb.SignedDocument → Result Bytes
  signed_document_transcript d = do
    signer ← req d.signer_genesis "signer_genesis"
    signing ← req d.signing "signing"
    non_empty "document_type" d.document_type
    e ← Enc.principal (Enc.new signed_document_tag) signer
    e ← Enc.key e signing
    e ← Enc.var e d.document_type
    let e = Enc.u64 e d.version
    let e = Enc.i64 e d.issued_at_unix_seconds
    let e = Enc.i64 e d.expires_at_unix_seconds
    Enc.var e d.body

  unfoldable pub approval_transcript : Pb.Approval → Result Bytes
  approval_transcript a = do
    principal ← req a.principal_genesis "principal_genesis"
    approval_key ← req a.approval_key "approval_key"
    device ← req a.device "device"
    reject_if (approval_key == device) (not_distinct "approval_key, device")
    non_empty "audience" a.audience
    e ← Enc.principal (Enc.new approval_tag) principal
    e ← Enc.key e approval_key
    e ← Enc.key e device
    e ← Enc.var e a.audience
    e ← Enc.var e a.request_id
    e ← Enc.fixed e "request_digest" a.request_digest 32
    e ← Enc.u8 e "accept" (bool_number a.accept)
    let e = Enc.i64 e a.issued_at_unix_seconds
    ok e

  unfoldable pub peer_revocation_transcript : Pb.PeerRevocation → Result Bytes
  peer_revocation_transcript r = do
    revoker ← req r.revoker_genesis "revoker_genesis"
    approval_key ← req r.approval_key "approval_key"
    target ← req r.target_genesis "target_genesis"
    revoked ← opt_try r.revoked
    e ← Enc.principal (Enc.new peer_revocation_tag) revoker
    e ← Enc.key e approval_key
    e ← Enc.principal e target
    e ← Enc.opt_key e revoked
    let e = Enc.i64 e r.issued_at_unix_seconds
    Enc.fixed e "document_id" r.document_id 32
