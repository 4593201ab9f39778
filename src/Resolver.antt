-- ===== src/Resolver.antt =====
-- src/resolver.rs: a verified registry with verified peer revocations.
pub mod Peer
pub mod Carrier
use identity_crypto.Prelude.{
  ℕ, zero, suc, ◌+◌, Bool, true, false, ◌&&◌, ◌||◌, not, Option, none, some, List, [], ◌∷◌, ◌++◌,
  length, any, find, ◌==◌, ◌!=◌, nat_eq, list_eq, option_eq, if◌then◌else◌,
}
use identity_crypto.Prelude.Int.{ℤ, leb_ℤ}
use identity_crypto.Primitives.{Bytes, Str, Primitives}
use identity_crypto.KeyTypes.{PublicKey, PrincipalId, key_eq, principal_eq}
use identity_crypto.Error.{
  Result, ok, err, panic, ◌>>=◌, ◌>>◌, reject_if, ok_or, wrong_document_type, stale_peer_revocation,
}
use identity_crypto.Pb
use identity_crypto.Authority.{VerifiedDocument, chain_principal}
use identity_crypto.Map.{Map, get, values}
use identity_crypto.Registry.{check_registry}
use identity_crypto.Registry.Types.{VerifiedEntry, VerifiedBinding, current_signing, bad}

-- What `prost` gives: the next field key (tag, wire type) with the bytes behind it, the bytes behind
-- a field's value, and the decoded carrier. `none` is a decoding error.
pub record Prost : Type 0 where
  pub decode_key : Bytes → Option (ℕ × ℕ × Bytes)
  pub skip_field : ℕ → ℕ → Bytes → Option Bytes
  pub decode_registry_carrier : Bytes → Option (Option Pb.PrincipalRegistry)

pub record VerifiedPeerRevocation : Type 0 where
  pub target : PrincipalId
  pub revoked : Option PublicKey
  pub accepted_at : ℤ
  pub document_id : Bytes

pub record Resolver : Type 0 where
  pub authority : PrincipalId
  pub document_version : ℕ
  pub document_id : Bytes
  pub allow_peer_revocation : Bool
  pub entries : Map VerifiedEntry
  pub peer : List VerifiedPeerRevocation

module _ ⦃w : Prost⦄ where
  -- The loop of `decode_carrier`: how often field 1 occurs. The fuel is the number of bytes.
  unfoldable pub count_registry : ℕ → Bytes → ℕ → Result ℕ
  count_registry fuel [] count = ok count
  count_registry zero (b ∷ bs) count = panic
  count_registry (suc fuel) (b ∷ bs) count = do
    (tag, wire_type, rest) ← ok_or (w.decode_key (b ∷ bs)) (bad "body" "not protobuf")
    rest ← ok_or (w.skip_field wire_type tag rest) (bad "body" "not protobuf")
    count_registry fuel rest (if tag == 1 then count + 1 else count)

  unfoldable pub decode_carrier : Bytes → Result Pb.PrincipalRegistry
  decode_carrier body = do
    count ← count_registry (length body) body 0
    reject_if (count != 1) (bad "body" "the registry must be field 1, exactly once")
    registry ← ok_or (w.decode_registry_carrier body) (bad "body" "not protobuf")
    ok_or registry (bad "body" "registry missing")

  module _ ⦃p : Primitives⦄ where
    -- `Resolver::from_document`
    unfoldable pub from_document : VerifiedDocument → Str → Result Resolver
    from_document doc registry_type = do
      reject_if (doc.document_type != registry_type) wrong_document_type
      registry ← decode_carrier doc.body
      checked ← check_registry registry doc.chain
      authority ← chain_principal doc.chain
      ok (record {
        authority = authority;
        document_version = doc.version;
        document_id = doc.id;
        allow_peer_revocation = checked.allow_peer_revocation;
        entries = checked.entries;
        peer = [];
      })

-- `Resolver::with_peer_revocation`
unfoldable pub with_peer_revocation : Resolver → VerifiedPeerRevocation → Result Resolver
with_peer_revocation r rev = do
  reject_if (rev.document_id != r.document_id) stale_peer_revocation
  ok (record r { peer = r.peer ++ (rev ∷ []) })

-- `Resolver::entry`
abbrev pub entry : Resolver → PrincipalId → Option VerifiedEntry
entry r id = get id r.entries

-- The bindings of an entry that hold this device.
unfoldable pub find_binding : PublicKey → List VerifiedBinding → Option VerifiedBinding
find_binding device bs = find (λ b. b.device_key == device) bs

-- `Resolver::binding`
unfoldable pub binding : Resolver → PrincipalId → PublicKey → Option VerifiedBinding
binding r principal device = elim (entry r principal) [
  | none ↦ none
  | some e ↦ find_binding device e.bindings
]

-- A peer revocation that freezes `principal`, whose current root is `current`, at `at`.
abbrev pub freezes : PrincipalId → Option PublicKey → ℤ → VerifiedPeerRevocation → Bool
freezes principal current at p =
    p.target == principal
    && leb_ℤ p.accepted_at at
    && (elim p.revoked [ none ↦ true | some k ↦ some k == current ])

abbrev pub revokes : PrincipalId → PublicKey → ℤ → VerifiedPeerRevocation → Bool
revokes principal key at p =
    p.target == principal && p.revoked == some key && leb_ℤ p.accepted_at at

-- `Resolver::is_frozen`
unfoldable pub is_frozen : Resolver → PrincipalId → ℤ → Bool
is_frozen r principal at = elim (entry r principal) [
  | none ↦ false
  | some e ↦ e.frozen || any (freezes principal (current_signing e) at) r.peer
]

-- `Resolver::is_revoked`
unfoldable pub is_revoked : Resolver → PrincipalId → PublicKey → ℤ → Bool
is_revoked r principal key at = elim (entry r principal) [
  | none ↦ false
  | some e ↦
      any (λ (x : PublicKey × ℤ). x.0 == key && leb_ℤ x.1 at) e.revocations
      || any (revokes principal key at) r.peer
]

-- The entries named `name` that are not frozen, in the order of the map.
unfoldable pub named : Resolver → Str → ℤ → List VerifiedEntry → List PrincipalId
named r name at [] = []
named r name at (e ∷ es) =
    let rest = named r name at es in
    if e.name == some name && not (is_frozen r e.id at) then e.id ∷ rest else rest

-- `Resolver::resolve_name`
unfoldable pub resolve_name : Resolver → Str → ℤ → List PrincipalId
resolve_name r name at = named r name at (values r.entries)
