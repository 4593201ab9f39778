-- ===== src/Transcripts/Requests.antt =====
-- src/transcripts.rs: the delivery attestation, the request digests and the message nonce.
use identity_crypto.Prelude.{Option, none, some, List, [], ◌∷◌, not, ◌&&◌, length, take}
use identity_crypto.Prelude.Int.{pos, leb_ℤ}
use identity_crypto.Primitives.{Bytes, Str, Primitives}
use identity_crypto.KeyTypes.{PrincipalId}
use identity_crypto.PublicKey.{try_from}
use identity_crypto.Error.{Result, ok, ◌>>=◌, ◌>>◌, reject_if, ok_or, invalid_field, missing_field}
use identity_crypto.Pb
use identity_crypto.Transcripts.Enc
use identity_crypto.Transcripts.Enc.{Enc, non_empty, req}
use identity_crypto.Transcripts.Messages.{encode_cert_body, opt_var}
use identity_crypto.Transcripts.Tags.{
  delivery_attestation_tag, request_digest_tag, client_request_digest_tag,
}

pub record RequestDigestInput : Type 0 where
  pub requester : PrincipalId
  pub host : PrincipalId
  pub subject : Option Str
  pub instance_id : Str
  pub action_id : Str
  pub parameters : Bytes
  pub request_id : Str
  pub target : PrincipalId

pub record ClientRequestDigestInput : Type 0 where
  pub requester : PrincipalId
  pub host : Option PrincipalId
  pub resource : Option (Str × Str)
  pub message_kind : Str
  pub body : Bytes
  pub request_id : Str
  pub target : PrincipalId

-- `if let Some(subject) = i.subject { non_empty("subject", …)? }`
unfoldable pub check_subject : Option Str → Result (Unit {0})
check_subject none = ok tt
check_subject (some s) = non_empty "subject" s

unfoldable pub check_resource : Option (Str × Str) → Result (Unit {0})
check_resource none = ok tt
check_resource (some (kind, id)) = do non_empty "resource_kind" kind; non_empty "resource_id" id

unfoldable pub request_digest_transcript : RequestDigestInput → Result Bytes
request_digest_transcript i = do
  check_subject i.subject
  non_empty "instance_id" i.instance_id
  non_empty "action_id" i.action_id
  non_empty "request_id" i.request_id
  e ← Enc.principal (Enc.new request_digest_tag) i.requester.genesis
  e ← Enc.principal e i.host.genesis
  e ← opt_var e i.subject
  e ← Enc.var e i.instance_id
  e ← Enc.var e i.action_id
  e ← Enc.var e i.parameters
  e ← Enc.var e i.request_id
  Enc.principal e i.target.genesis

unfoldable pub opt_host : Enc → Option PrincipalId → Result Enc
opt_host e none = ok (Enc.absent e)
opt_host e (some h) = Enc.principal (Enc.present e) h.genesis

unfoldable pub opt_resource : Enc → Option (Str × Str) → Result Enc
opt_resource e none = ok (Enc.absent e)
opt_resource e (some (kind, id)) = do e ← Enc.var (Enc.present e) kind; Enc.var e id

unfoldable pub client_request_digest_transcript : ClientRequestDigestInput → Result Bytes
client_request_digest_transcript i = do
  check_resource i.resource
  non_empty "message_kind" i.message_kind
  non_empty "request_id" i.request_id
  e ← Enc.principal (Enc.new client_request_digest_tag) i.requester.genesis
  e ← opt_host e i.host
  e ← opt_resource e i.resource
  e ← Enc.var e i.message_kind
  e ← Enc.var e i.body
  e ← Enc.var e i.request_id
  Enc.principal e i.target.genesis

module _ ⦃p : Primitives⦄ where
  -- `for r in &a.recipient_devices`
  unfoldable pub encode_devices : Enc → List Pb.PublicKey → Result Enc
  encode_devices e [] = ok e
  encode_devices e (w ∷ ws) = do k ← try_from w; e ← Enc.key e k; encode_devices e ws

  unfoldable pub encode_message : Enc → Pb.AttestedMessage → Result Enc
  encode_message e m = do
    e ← Enc.var e m.message_id
    e ← Enc.var e m.room_id
    author ← req m.author_genesis "messages.author_genesis"
    cert ← ok_or m.delegation_cert (missing_field "messages.delegation_cert")
    e ← Enc.key e author
    e ← Enc.var e m.body_text
    e ← encode_cert_body e cert
    Enc.var e cert.signature

  -- `for m in &a.messages`
  unfoldable pub encode_messages : Enc → List Pb.AttestedMessage → Result Enc
  encode_messages e [] = ok e
  encode_messages e (m ∷ ms) = do e ← encode_message e m; encode_messages e ms

  unfoldable pub delivery_attestation_transcript : Pb.DeliveryAttestation → Result Bytes
  delivery_attestation_transcript a = do
    e ← Enc.u32 (Enc.new delivery_attestation_tag) "recipient_devices" (length a.recipient_devices)
    e ← encode_devices e a.recipient_devices
    e ← Enc.var e a.key_id
    let e = Enc.u64 e a.batch_sequence
    at ← ok_or a.attested_at (missing_field "attested_at")
    reject_if (not (leb_ℤ (pos 0) at.nanos && leb_ℤ at.nanos (pos 999_999_999)))
        (invalid_field "attested_at.nanos" "out of range")
    let e = Enc.i64 e at.seconds
    let e = Enc.i32 e at.nanos
    e ← Enc.u32 e "messages" (length a.messages)
    encode_messages e a.messages

  -- The first 16 bytes of SHA-256 over the message id.
  unfoldable pub message_nonce : Str → Bytes
  message_nonce id = take 16 (p.sha256 id)

  unfoldable pub request_digest : RequestDigestInput → Result Bytes
  request_digest i = do t ← request_digest_transcript i; ok (p.sha256 t)

  unfoldable pub client_request_digest : ClientRequestDigestInput → Result Bytes
  client_request_digest i = do t ← client_request_digest_transcript i; ok (p.sha256 t)
