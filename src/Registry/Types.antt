-- ===== src/Registry/Types.antt =====
-- src/registry.rs: the types of the registry.
use identity_crypto.Prelude.{Bool, true, false, Option, none, some, List, String}
use identity_crypto.Prelude.Int.{ℤ}
use identity_crypto.Primitives.{Str}
use identity_crypto.KeyTypes.{PublicKey, PrincipalId, PublicKeyDuo}
use identity_crypto.Kind.{PrincipalKind}
use identity_crypto.Error.{Error, invalid_registry}
use identity_crypto.Pb
use identity_crypto.Map.{Map}

pub data AllowedHost : Type 0 where
  any : AllowedHost
  daemon : PrincipalId → AllowedHost

pub record VerifiedBinding : Type 0 where
  pub device : Pb.KeyDelegation
  pub device_key : PublicKey
  pub approval : Option (Pb.KeyDelegation × PublicKey)
  pub host : Option PrincipalId

abbrev pub approval_delegation : VerifiedBinding → Option Pb.KeyDelegation
approval_delegation b = elim b.approval [ none ↦ none | some (d, k) ↦ some d ]

abbrev pub approval_key : VerifiedBinding → Option PublicKey
approval_key b = elim b.approval [ none ↦ none | some (d, k) ↦ some k ]

pub record VerifiedEntry : Type 0 where
  pub id : PrincipalId
  pub kind : PrincipalKind
  pub name : Option Str
  pub frozen : Bool
  pub current_root : Option PublicKeyDuo
  pub roots : List PublicKey
  pub rotations : List Pb.RootRotation
  pub revocations : List (PublicKey × ℤ)
  pub bindings : List VerifiedBinding
  pub allowed_hosts : List AllowedHost

abbrev pub is_self_rooted : VerifiedEntry → Bool
is_self_rooted e = elim e.current_root [ none ↦ false | some d ↦ true ]

-- `entry.current_root().map(|c| c.signing())`
abbrev pub current_signing : VerifiedEntry → Option PublicKey
current_signing e = elim e.current_root [ none ↦ none | some d ↦ some d.signing ]

pub record CheckedRegistry : Type 0 where
  pub entries : Map VerifiedEntry
  pub allow_peer_revocation : Bool

-- An entry with its id and its kind; `none` is a kind that this version does not know.
pub record Parsed : Type 0 where
  pub entry : Pb.RegistryEntry
  pub id : PrincipalId
  pub kind : Option PrincipalKind

abbrev pub bad : String → String → Error
bad = invalid_registry
