-- ===== src/Accepted.antt =====
-- src/accepted.rs: every principal that a receiver has accepted, with its root chain.
pub mod History
use identity_crypto.Prelude.{
  ℕ, Bool, true, false, not, ◌&&◌, Option, none, some, List, [], ◌∷◌, map, leb, length, take, ◌==◌,
  ◌!=◌, nat_eq, list_eq, if◌then◌else◌,
}
use identity_crypto.Prelude.Int.{ℤ}
use identity_crypto.Primitives.{Bytes, Str, Primitives}
use identity_crypto.KeyTypes.{PublicKey, PrincipalId, key_eq, principal_eq}
use identity_crypto.Kind.{PrincipalKind, WireKind, wire_kind, kind_to_pb, kind_eq}
use identity_crypto.Error.{
  Result, ok, err, ◌>>=◌, ◌>>◌, reject_if, invalid_field, kind_changed, root_fork,
}
use identity_crypto.Pb
use identity_crypto.Principal.{parse_canonical, to_string}
use identity_crypto.Authority.{rotation_roots, prefix_of}
use identity_crypto.Map.{Map, get, insert, values}
use identity_crypto.Registry.Types.{VerifiedEntry, is_self_rooted}
use identity_crypto.Resolver.{Resolver}

pub record Accepted : Type 0 where
  pub kind : PrincipalKind
  pub roots : List PublicKey
  pub rotations : List Pb.RootRotation

abbrev pub AcceptedChains : Type 0
AcceptedChains = Map Accepted

-- The kinds that an accepted principal may have.
unfoldable pub accepted_kind : ℤ → Result PrincipalKind
accepted_kind n = elim (wire_kind n) [
  | some (WireKind.known k) ↦ ok k
  | _ ↦ err (invalid_field "principals.kind" "unknown or unspecified")
]

-- What `check_successor` records of an entry.
unfoldable pub recorded : VerifiedEntry → Accepted
recorded e =
    if is_self_rooted e
    then record { kind = e.kind; roots = e.roots; rotations = e.rotations }
    else record { kind = e.kind; roots = e.id.genesis ∷ []; rotations = [] }

-- An entry of a principal that was accepted before as `previous`.
unfoldable pub extend_entry : AcceptedChains → VerifiedEntry → Accepted → Result AcceptedChains
extend_entry updated e previous = do
  reject_if (previous.kind != e.kind) (kind_changed e.id)
  reject_if (is_self_rooted e && not (prefix_of previous.roots (recorded e).roots)) (root_fork e.id)
  ok (if is_self_rooted e then insert e.id (recorded e) updated else updated)

-- One round of the loop of `check_successor`.
unfoldable pub accept_entry : PrincipalId → AcceptedChains → VerifiedEntry → Result AcceptedChains
accept_entry authority updated e =
    if e.id == authority then ok updated else elim (get e.id updated) [
      | none ↦ ok (insert e.id (recorded e) updated)
      | some previous ↦ extend_entry updated e previous
    ]

unfoldable pub accept_entries :
    PrincipalId → AcceptedChains → List VerifiedEntry → Result AcceptedChains
accept_entries authority updated [] = ok updated
accept_entries authority updated (e ∷ es) = do
  updated ← accept_entry authority updated e
  accept_entries authority updated es

-- `Resolver::check_successor`
unfoldable pub check_successor : Resolver → AcceptedChains → Result AcceptedChains
check_successor r accepted = accept_entries r.authority accepted (values r.entries)

module _ ⦃p : Primitives⦄ where
  unfoldable pub load_principal : Pb.AcceptedPrincipal → AcceptedChains → Result AcceptedChains
  load_principal principal accepted = do
    id ← parse_canonical principal.principal_id
    kind ← accepted_kind principal.kind
    roots ← rotation_roots id.genesis principal.rotations
    elim (get id accepted) [
      | some previous ↦ err (invalid_field "principals.principal_id" "repeated")
      | none ↦ ok (
          insert id (record { kind = kind; roots = roots; rotations = principal.rotations })
            accepted)
    ]

  unfoldable pub load_principals :
      List Pb.AcceptedPrincipal → AcceptedChains → Result AcceptedChains
  load_principals [] accepted = ok accepted
  load_principals (x ∷ xs) accepted = do
    accepted ← load_principal x accepted
    load_principals xs accepted

  -- `AcceptedChains::from_proto`
  unfoldable pub from_proto : Pb.AcceptedChains → Result AcceptedChains
  from_proto proto = load_principals proto.principals []

  unfoldable pub principals_to_proto : AcceptedChains → List Pb.AcceptedPrincipal
  principals_to_proto [] = []
  principals_to_proto ((id, a) ∷ m) =
      record { principal_id = to_string id; kind = kind_to_pb a.kind; rotations = a.rotations }
      ∷ principals_to_proto m

  -- `AcceptedChains::to_proto`
  unfoldable pub to_proto : AcceptedChains → Pb.AcceptedChains
  to_proto accepted = record { principals = principals_to_proto accepted }
