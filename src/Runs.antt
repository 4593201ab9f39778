-- ===== src/Runs.antt =====
-- Concrete data: a model of the foreign primitives, keys, a human with a device, messages, documents.
pub mod Messages
pub mod Approvals
pub mod Documents
pub mod Registries
pub mod Encodings
pub mod Tables
pub mod Keyfiles
pub mod Sessions
pub mod Agents
use identity_crypto.Prelude.{
  ℕ, zero, suc, ◌+◌, ◌-◌, ◌*◌, ◌/◌, ◌%◌, Bool, true, false, ◌&&◌, ◌⊎◌, inl, inr, Option, none, some,
  List, [], ◌∷◌, ◌++◌, String, length, take, drop, ltb, leb, ◌==◌, nat_eq, list_eq, if◌then◌else◌,
}
use identity_crypto.Prelude.Int.{ℤ, pos}
use identity_crypto.Primitives.{Bytes, Str, Primitives}
use identity_crypto.KeyTypes.{PublicKey, PrincipalId, PublicKeyDuo, ecdsa_p256}
use identity_crypto.Kind.{PrincipalKind}
use identity_crypto.PublicKey.{to_pb}
use identity_crypto.Principal.{ascii}
use identity_crypto.Pb
use identity_crypto.Registry.Types.{VerifiedEntry, VerifiedBinding}
use identity_crypto.Resolver.{Resolver, VerifiedPeerRevocation}

abbrev pub copies : ℕ → ℕ → Bytes
copies zero b = []
copies (suc n) b = b ∷ copies n b

abbrev pub hex_digit : ℕ → ℕ
hex_digit d = if ltb d 10 then b'0' + d else b'a' + (d - 10)

abbrev pub hex : Bytes → Str
hex [] = []
hex (b ∷ bs) = hex_digit (b / 16) ∷ hex_digit (b % 16) ∷ hex bs

abbrev pub digit_value : ℕ → ℕ
digit_value c = if leb c b'9' then c - b'0' else c - b'a' + 10

abbrev pub unhex : Str → String ⊎ Bytes
unhex [] = inr []
unhex (a ∷ []) = inl "odd length"
unhex (a ∷ b ∷ s) = elim (unhex s) [
  | inl e ↦ inl e
  | inr bs ↦ inr ((digit_value a * 16 + digit_value b) ∷ bs)
]

-- Every key imports; a signature of a key is the 64 bytes behind the key's first byte.
instance abbrev pub toy : Primitives
toy = record {
  import_p256 = λ b. inr tt;
  import_public_key_raw = λ b. inr tt;
  verify_bytes = λ k s m. s == drop 1 k;
  sha256 = λ b. take 32 (drop 1 b ++ copies 32 0);
  hex_encode = hex;
  hex_decode = unhex;
}

abbrev pub key : ℕ → PublicKey
key n = record { scheme = ecdsa_p256; bytes = 4 ∷ copies 64 n }

abbrev pub signature : ℕ → Bytes
signature n = copies 64 n

abbrev pub wire : ℕ → Option Pb.PublicKey
wire n = some (to_pb (key n))

abbrev pub alice : PrincipalId
alice = record { genesis = key 1 }

-- Alice's device 3, under her root 1.
abbrev pub device : Pb.KeyDelegation
device = record {
  principal_genesis = wire 1;
  signing_root = wire 1;
  purpose = pos 2;
  delegated = wire 3;
  delegated_encryption = wire 5;
  issued_at_unix_seconds = pos 100;
  not_after_unix_seconds = pos 9000;
  signature = signature 1;
}

-- The approval key 8 of the device.
abbrev pub approval_delegation : Pb.KeyDelegation
approval_delegation = record {
  principal_genesis = wire 1;
  signing_root = wire 1;
  purpose = pos 3;
  delegated = wire 8;
  delegated_encryption = none;
  issued_at_unix_seconds = pos 100;
  not_after_unix_seconds = pos 9_000;
  signature = signature 1;
}

-- Session 4 of the device.
abbrev pub cert : Pb.DelegationCert
cert = record {
  not_before_unix_seconds = pos 1000;
  not_after_unix_seconds = pos 5000;
  signature = signature 3;
  principal_genesis = wire 1;
  mode = 0;
  device = wire 3;
  session = wire 4;
  host_genesis = none;
  subject = none;
}

abbrev pub chain : Pb.SignerChain
chain = record {
  chain = some (Pb.self_rooted (record { device = some device; session = some cert }));
}

abbrev pub room : Str
room = ascii "room"

abbrev pub message : Pb.SignedMessage
message = record {
  signer = some chain;
  audience = room;
  nonce = copies 16 7;
  issued_at_unix_seconds = pos 2000;
  in_reply_to_nonce = none;
  body_type = ascii "text";
  body = ascii "hi";
  signature = signature 4;
}

abbrev pub alice_entry : VerifiedEntry
alice_entry = record {
  id = alice;
  kind = PrincipalKind.human;
  name = some (ascii "alice");
  frozen = false;
  current_root = some (record { signing = key 1; encryption = key 2 });
  roots = key 1 ∷ [];
  rotations = [];
  revocations = [];
  bindings =
      record {
        device = device;
        device_key = key 3;
        approval = some (approval_delegation, key 8);
        host = none;
      }
      ∷ [];
  allowed_hosts = [];
}

abbrev pub bob : PrincipalId
bob = record { genesis = key 20 }

abbrev pub bob_entry : VerifiedEntry
bob_entry = record {
  id = bob;
  kind = PrincipalKind.service;
  name = some (ascii "bob");
  frozen = false;
  current_root = some (record { signing = key 21; encryption = key 22 });
  roots = key 20 ∷ key 21 ∷ [];
  rotations = [];
  revocations = [];
  bindings = [];
  allowed_hosts = [];
}

abbrev pub resolver : Resolver
resolver = record {
  authority = alice;
  document_version = 1;
  document_id = copies 32 9;
  allow_peer_revocation = true;
  entries = (alice, alice_entry) ∷ (bob, bob_entry) ∷ [];
  peer = [];
}

-- Bob is frozen from second 1500 on.
abbrev pub freeze_bob : VerifiedPeerRevocation
freeze_bob = record {
  target = bob;
  revoked = none;
  accepted_at = pos 1_500;
  document_id = copies 32 9;
}

abbrev pub resolver_without_bob : Resolver
resolver_without_bob = record resolver { peer = freeze_bob ∷ [] }

-- Alice's root goes from 1 to 6.
abbrev pub rotation : Pb.RootRotation
rotation = record {
  principal_genesis = wire 1;
  old_root = wire 1;
  new_root = wire 6;
  issued_at_unix_seconds = pos 3_000;
  signature = signature 1;
}

abbrev pub document : Pb.SignedDocument
document = record {
  signer_genesis = wire 1;
  signing = wire 6;
  document_type = ascii "registry";
  version = 7;
  issued_at_unix_seconds = pos 4_000;
  expires_at_unix_seconds = pos 90_000;
  body = ascii "body";
  signature = signature 6;
  signer_rotations = rotation ∷ [];
}
