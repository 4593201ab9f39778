-- ===== src/Pb.antt =====
-- proto/identitycrypto/v1/identity.proto: the wire types as the generated Rust structs hold them.
-- An `enum` field is an i32, a message field an `Option`, `bytes` and `string` are byte lists.
pub mod Equality
use identity_crypto.Prelude.{ℕ, Bool, Option, List}
use identity_crypto.Prelude.Int.{ℤ}
use identity_crypto.Primitives.{Bytes, Str}

pub record PublicKey : Type 0 where
  pub scheme : ℤ
  pub key : Bytes

pub record DelegationCert : Type 0 where
  pub not_before_unix_seconds : ℤ
  pub not_after_unix_seconds : ℤ
  pub signature : Bytes
  pub principal_genesis : Option PublicKey
  pub mode : ℕ
  pub device : Option PublicKey
  pub session : Option PublicKey
  pub host_genesis : Option PublicKey
  pub subject : Option Str

pub record PublicKeyDuo : Type 0 where
  pub signing : Option PublicKey
  pub encryption : Option PublicKey

pub record KeyDelegation : Type 0 where
  pub principal_genesis : Option PublicKey
  pub signing_root : Option PublicKey
  pub purpose : ℤ
  pub delegated : Option PublicKey
  pub delegated_encryption : Option PublicKey
  pub issued_at_unix_seconds : ℤ
  pub not_after_unix_seconds : ℤ
  pub signature : Bytes

pub record RootRotation : Type 0 where
  pub principal_genesis : Option PublicKey
  pub old_root : Option PublicKey
  pub new_root : Option PublicKey
  pub issued_at_unix_seconds : ℤ
  pub signature : Bytes

pub record KeyRevocation : Type 0 where
  pub principal_genesis : Option PublicKey
  pub revoked : Option PublicKey
  pub revoked_by : Option PublicKey
  pub revoked_at_unix_seconds : ℤ
  pub signature : Bytes

pub record SelfRooted : Type 0 where
  pub device : Option KeyDelegation
  pub session : Option DelegationCert

pub record HostVouched : Type 0 where
  pub host_device : Option KeyDelegation
  pub session : Option DelegationCert

pub data Chain : Type 0 where
  self_rooted : SelfRooted → Chain
  host_vouched : HostVouched → Chain

pub record SignerChain : Type 0 where
  pub chain : Option Chain

pub record SignedMessage : Type 0 where
  pub signer : Option SignerChain
  pub audience : Str
  pub nonce : Bytes
  pub issued_at_unix_seconds : ℤ
  pub in_reply_to_nonce : Option Bytes
  pub body_type : Str
  pub body : Bytes
  pub signature : Bytes

pub record SignedDocument : Type 0 where
  pub signer_genesis : Option PublicKey
  pub signing : Option PublicKey
  pub document_type : Str
  pub version : ℕ
  pub issued_at_unix_seconds : ℤ
  pub expires_at_unix_seconds : ℤ
  pub body : Bytes
  pub signature : Bytes
  pub signer_rotations : List RootRotation

pub record Approval : Type 0 where
  pub principal_genesis : Option PublicKey
  pub approval_key : Option PublicKey
  pub device : Option PublicKey
  pub audience : Str
  pub request_id : Str
  pub request_digest : Bytes
  pub accept : Bool
  pub issued_at_unix_seconds : ℤ
  pub signature : Bytes

pub record PeerRevocation : Type 0 where
  pub revoker_genesis : Option PublicKey
  pub approval_key : Option PublicKey
  pub target_genesis : Option PublicKey
  pub revoked : Option PublicKey
  pub issued_at_unix_seconds : ℤ
  pub signature : Bytes
  pub document_id : Bytes

pub record AttestedMessage : Type 0 where
  pub message_id : Str
  pub room_id : Str
  pub body_text : Str
  pub delegation_cert : Option DelegationCert
  pub author_genesis : Option PublicKey

pub record Timestamp : Type 0 where
  pub seconds : ℤ
  pub nanos : ℤ

pub record DeliveryAttestation : Type 0 where
  pub key_id : Str
  pub batch_sequence : ℕ
  pub attested_at : Option Timestamp
  pub messages : List AttestedMessage
  pub signature : Bytes
  pub recipient_devices : List PublicKey

pub record DeviceBinding : Type 0 where
  pub device : Option KeyDelegation
  pub approval : Option KeyDelegation
  pub host_daemon_id : Option Str

pub record RegistryEntry : Type 0 where
  pub principal_id : Str
  pub kind : ℤ
  pub name : Option Str
  pub frozen : Bool
  pub current_root : Option PublicKeyDuo
  pub rotations : List RootRotation
  pub revocations : List KeyRevocation
  pub devices : List DeviceBinding
  pub allowed_hosts : List Str

pub record PrincipalRegistry : Type 0 where
  pub entries : List RegistryEntry
  pub allow_peer_revocation : Bool

pub record AcceptedPrincipal : Type 0 where
  pub principal_id : Str
  pub kind : ℤ
  pub rotations : List RootRotation

pub record AcceptedChains : Type 0 where
  pub principals : List AcceptedPrincipal

-- A device that an agent used to have, by its public halves.
pub record RetiredDevice : Type 0 where
  pub signing : Option PublicKey
  pub encryption : Option PublicKey
  pub retired_at_unix_seconds : ℤ

pub record DeviceHistory : Type 0 where
  pub retired : List RetiredDevice

pub record RootRotations : Type 0 where
  pub rotations : List RootRotation
