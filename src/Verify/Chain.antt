-- ===== src/Verify/Chain.antt =====
-- src/verify.rs: `verify_chain` and its steps.
pub mod Sound
pub mod Restrict
pub mod Accepts
use identity_crypto.Prelude.{
  ℕ, ◌+◌, Bool, true, false, ◌&&◌, ◌||◌, not, Option, none, some, List, [], ◌∷◌, ◌++◌, String,
  length, take, any, ◌==◌, ◌!=◌, nat_eq, list_eq, option_eq, if◌then◌else◌,
}
use identity_crypto.Prelude.Int.{ℤ, pos, ltb_ℤ, int_eq, saturating_add, saturating_sub}
use identity_crypto.Primitives.{Bytes, Str, Primitives}
use identity_crypto.KeyTypes.{PublicKey, PrincipalId, key_eq, principal_eq}
use identity_crypto.Kind.{PrincipalKind, kind_eq}
use identity_crypto.Error.{
  Result, ok, err, ◌>>=◌, ◌>>◌, reject_if, ok_or, chain_mismatch, key_revoked, invalid_field,
  not_bound, expired, host_frozen, not_yet_valid, missing_field, unknown_principal, wrong_kind,
  frozen, not_vouched,
}
use identity_crypto.Pb
use identity_crypto.Pb.Equality.{delegation_eq}
use identity_crypto.Principal.{short_id, short_id_to_string, ascii}
use identity_crypto.Signature.{verify_p256}
use identity_crypto.Transcripts.Enc.{req}
use identity_crypto.Transcripts.Keys.{key_delegation_transcript}
use identity_crypto.Transcripts.Messages.{session_delegation_transcript}
use identity_crypto.Registry.Types.{
  VerifiedEntry, VerifiedBinding, AllowedHost, is_self_rooted, current_signing,
}
use identity_crypto.Registry.Checks.{device_purpose}
use identity_crypto.Resolver.{Resolver, entry, binding, is_frozen, is_revoked}
use identity_crypto.Verify.Time.{
  When, time_of, skew_seconds, check_session_span, check_unlisted_span,
}

pub data Host : Type 0 where
  daemon : PrincipalId → Host
  hostless unhosted : Host

pub record VerifiedChain : Type 0 where
  pub principal : PrincipalId
  pub kind : PrincipalKind
  pub host : Host
  pub subject : Option Str
  pub device : PublicKey
  pub session_key : PublicKey
  pub session_not_after : ℤ

-- The frozen host of a binding.
unfoldable pub host_is_frozen : Resolver → VerifiedBinding → ℤ → Bool
host_is_frozen r b at = elim b.host [ none ↦ false | some h ↦ is_frozen r h at ]

-- The arms of the last match of `device_current`: a human's device is a bound one.
unfoldable pub bound_device :
    Pb.KeyDelegation → VerifiedEntry → Resolver → ℤ → PublicKey → Result (Unit {0})
bound_device d e r at device = do
  b ← ok_or (binding r e.id device) not_bound
  reject_if (b.device != d) (chain_mismatch "device delegation differs from the bound one")
  reject_if (ltb_ℤ d.not_after_unix_seconds at) (expired "device delegation")
  reject_if (host_is_frozen r b at) host_frozen

-- The device of a daemon, an agent or a service is listed nowhere.
unfoldable pub unlisted_device : Pb.KeyDelegation → ℤ → Result (Unit {0})
unlisted_device d at = do
  check_unlisted_span "device.not_after_unix_seconds" d.issued_at_unix_seconds
      d.not_after_unix_seconds
  reject_if (ltb_ℤ (saturating_add at (pos skew_seconds)) d.issued_at_unix_seconds)
      (not_yet_valid "device delegation")
  reject_if (ltb_ℤ d.not_after_unix_seconds at) (expired "device delegation")

unfoldable pub device_listed :
    Pb.KeyDelegation → VerifiedEntry → Resolver → ℤ → PublicKey → Result (Unit {0})
device_listed d e r at device = elim e.kind [
  | PrincipalKind.human ↦ bound_device d e r at device
  | _ ↦ unlisted_device d at
]

-- `subject.starts_with(prefix)`
unfoldable pub starts_with : Str → Str → Bool
starts_with s prefix = take (length prefix) s == prefix

unfoldable pub allows : PrincipalId → AllowedHost → Bool
allows host AllowedHost.any = true
allows host (AllowedHost.daemon id) = id == host

module _ ⦃p : Primitives⦄ where
  unfoldable pub device_current : Pb.KeyDelegation → VerifiedEntry → Resolver → ℤ → Result PublicKey
  device_current d e r at = do
    principal ← req d.principal_genesis "device.principal_genesis"
    reject_if (principal != e.id.genesis) (chain_mismatch "device.principal_genesis")
    root ← req d.signing_root "device.signing_root"
    reject_if (some root != current_signing e) (chain_mismatch "device.signing_root")
    reject_if (is_revoked r e.id root at) key_revoked
    reject_if (d.purpose != device_purpose) (chain_mismatch "device.purpose")
    transcript ← key_delegation_transcript d
    verify_p256 root transcript d.signature
    device ← req d.delegated "device.delegated"
    reject_if (is_revoked r e.id device at) key_revoked
    reject_if (d.not_after_unix_seconds == pos 0)
        (invalid_field "device.not_after_unix_seconds" "0 is not an expiry")
    device_listed d e r at device
    ok device

  unfoldable pub check_cert : Pb.DelegationCert → PublicKey → ℤ → Result (PublicKey × ℤ)
  check_cert c device at = do
    signer ← req c.device "session.device"
    reject_if (signer != device) (chain_mismatch "session.device")
    transcript ← session_delegation_transcript c
    verify_p256 device transcript c.signature
    check_session_span c.not_before_unix_seconds c.not_after_unix_seconds
    reject_if (ltb_ℤ at (saturating_sub c.not_before_unix_seconds (pos skew_seconds)))
        (not_yet_valid "session cert")
    reject_if (ltb_ℤ c.not_after_unix_seconds at) (expired "session cert")
    session ← req c.session "session.session"
    ok (session, c.not_after_unix_seconds)

  -- `Option<PrincipalId>` of a key field, as `PrincipalId::from_genesis(key(…)?)`.
  unfoldable pub principal_at : Option Pb.PublicKey → String → Result PrincipalId
  principal_at k field = do genesis ← req k field; ok (record { genesis = genesis })

  -- The host of a self-rooted chain.
  unfoldable pub host_of : Resolver → VerifiedEntry → PrincipalId → PublicKey → Host
  host_of r e principal device = elim e.kind [
    | PrincipalKind.human ↦ elim (binding r principal device) [
      | none ↦ hostless
      | some b ↦ elim b.host [ none ↦ hostless | some h ↦ daemon h ]
    ]
    | PrincipalKind.daemon ↦ daemon principal
    | PrincipalKind.agent ↦ unhosted
    | PrincipalKind.service ↦ hostless
  ]

  -- The arm `Chain::SelfRooted` of `verify_chain`.
  unfoldable pub verify_self_rooted : Pb.SelfRooted → Resolver → ℤ → Result VerifiedChain
  verify_self_rooted s r at = do
    d ← ok_or s.device (missing_field "self_rooted.device")
    cert ← ok_or s.session (missing_field "self_rooted.session")
    principal ← principal_at cert.principal_genesis "session.principal_genesis"
    e ← ok_or (entry r principal) unknown_principal
    reject_if (not (is_self_rooted e)) wrong_kind
    reject_if (is_frozen r principal at) frozen
    reject_if (cert.mode != 0) (chain_mismatch "session.mode")
    device ← device_current d e r at
    (session_key, session_not_after) ← check_cert cert device at
    ok (record {
      principal = principal;
      kind = e.kind;
      host = host_of r e principal device;
      subject = none;
      device = device;
      session_key = session_key;
      session_not_after = session_not_after;
    })

  -- The subject of a vouched session begins with the daemon's short id and a slash.
  unfoldable pub vouched_prefix : PrincipalId → Str
  vouched_prefix id = short_id_to_string (short_id id) ++ ascii "/"

  -- The arm `Chain::HostVouched` of `verify_chain`.
  unfoldable pub verify_host_vouched : Pb.HostVouched → Resolver → ℤ → Result VerifiedChain
  verify_host_vouched h r at = do
    d ← ok_or h.host_device (missing_field "host_vouched.host_device")
    cert ← ok_or h.session (missing_field "host_vouched.session")
    host ← principal_at d.principal_genesis "host_device.principal_genesis"
    host_entry ← ok_or (entry r host) unknown_principal
    reject_if (host_entry.kind != PrincipalKind.daemon) wrong_kind
    reject_if (is_frozen r host at) frozen
    reject_if (cert.mode != 1) (chain_mismatch "session.mode")
    host_genesis ← req cert.host_genesis "session.host_genesis"
    reject_if (host_genesis != host.genesis) (chain_mismatch "session.host_genesis")
    subject ← ok_or cert.subject (missing_field "session.subject")
    reject_if (not (starts_with subject (vouched_prefix host))) not_vouched
    agent ← principal_at cert.principal_genesis "session.principal_genesis"
    agent_entry ← ok_or (entry r agent) unknown_principal
    reject_if (agent_entry.kind != PrincipalKind.agent || is_self_rooted agent_entry) wrong_kind
    reject_if (is_frozen r agent at) frozen
    reject_if (not (any (allows host) agent_entry.allowed_hosts)) not_vouched
    device ← device_current d host_entry r at
    (session_key, session_not_after) ← check_cert cert device at
    ok (record {
      principal = agent;
      kind = PrincipalKind.agent;
      host = daemon host;
      subject = some subject;
      device = device;
      session_key = session_key;
      session_not_after = session_not_after;
    })

  unfoldable pub verify_chain : Pb.SignerChain → Resolver → When → Result VerifiedChain
  verify_chain signer r when = do
    chain ← ok_or signer.chain (missing_field "chain")
    elim chain [
      | Pb.self_rooted s ↦ verify_self_rooted s r (time_of when)
      | Pb.host_vouched h ↦ verify_host_vouched h r (time_of when)
    ]
