-- ===== src/Registry/Entry.antt =====
-- src/registry.rs: one round of the main loop of `check_registry`, and the loop.
use identity_crypto.Prelude.{
  Bool, true, false, not, ◌&&◌, ◌||◌, Option, none, some, List, [], ◌∷◌, if◌then◌else◌, ◌==◌, ◌!=◌,
  list_eq, option_eq, is_empty, last?,
}
use identity_crypto.Primitives.{Primitives}
use identity_crypto.KeyTypes.{PublicKey, PrincipalId, PublicKeyDuo, key_eq, principal_eq}
use identity_crypto.Kind.{PrincipalKind, kind_eq}
use identity_crypto.PublicKey.{try_from_duo}
use identity_crypto.Error.{Result, ok, ◌>>=◌, ◌>>◌, reject_if, ok_or, map_err}
use identity_crypto.Pb
use identity_crypto.Authority.{AuthorityChain, rotation_roots}
use identity_crypto.Map.{Map, insert}
use identity_crypto.Registry.Types.{VerifiedEntry, Parsed, bad}
use identity_crypto.Registry.Checks.{
  KeySet, add, add_all, kind_rules, check_bindings, check_revocations, check_allowed_hosts,
}

-- The variables of the loop: `keys`, `entries` and `authority_seen`.
pub record Check : Type 0 where
  pub keys : KeySet
  pub entries : Map VerifiedEntry
  pub authority_seen : Bool

-- What the roots of an entry are: genesis to current, with the current duo.
pub record Roots : Type 0 where
  pub roots : List PublicKey
  pub current_root : Option PublicKeyDuo
  pub keys : KeySet

abbrev pub self_rooted_kind : PrincipalKind → Pb.RegistryEntry → Bool
self_rooted_kind PrincipalKind.agent e = elim e.current_root [ none ↦ false | some d ↦ true ]
self_rooted_kind _ e = true

-- The authority's entry is HUMAN and not frozen.
unfoldable pub authority_rules : Bool → PrincipalKind → Pb.RegistryEntry → Result (Unit {0})
authority_rules is_authority kind e = do
  reject_if (is_authority && not (kind == PrincipalKind.human))
      (bad "entries" "the authority's entry is not HUMAN")
  reject_if (is_authority && e.frozen)
      (bad "entries.frozen" "the authority cannot freeze itself in its own document")

module _ ⦃p : Primitives⦄ where
  unfoldable pub root_chain :
      Bool → AuthorityChain → PrincipalId → Pb.RegistryEntry → Result (List PublicKey)
  root_chain is_authority chain id e =
      if is_authority
      then (do
        reject_if (not (is_empty e.rotations))
            (bad "entries.rotations" "must be empty for the authority")
        ok chain.roots)
      else map_err (rotation_roots id.genesis e.rotations)
          (bad "entries.rotations" "not a valid chain from the genesis key")

  unfoldable pub check_roots :
      Bool → Bool → AuthorityChain → PrincipalId → Pb.RegistryEntry → KeySet → Result Roots
  check_roots self_rooted is_authority chain id e keys =
      if self_rooted
      then (do
        d ← ok_or e.current_root (bad "entries.current_root" "missing")
        duo ←
            map_err (try_from_duo d) (bad "entries.current_root" "invalid, or its halves are equal")
        roots ← root_chain is_authority chain id e
        reject_if (some duo.signing != last? roots)
            (bad "entries.current_root" "is not the end of the root chain")
        keys ← add_all keys roots
        keys ← add keys duo.encryption
        ok (record { roots = roots; current_root = some duo; keys = keys }))
      else (do
        reject_if (not (is_empty e.rotations) || not (is_empty e.revocations))
            (bad "entries.rotations" "rotations and revocations are only for self-rooted entries")
        keys ← add keys id.genesis
        ok (record { roots = []; current_root = none; keys = keys }))

  -- An entry of a known kind.
  unfoldable pub check_known :
      PrincipalId
      → AuthorityChain
      → List PrincipalId
      → Check
      → Pb.RegistryEntry
      → PrincipalId
      → PrincipalKind
      → Result Check
  check_known authority chain daemons st e id kind = do
    let is_authority = id == authority
    authority_rules is_authority kind e
    let self_rooted = self_rooted_kind kind e
    kind_rules kind self_rooted e
    r ← check_roots self_rooted is_authority chain id e st.keys
    (bindings, keys, own) ← check_bindings id (last? r.roots) daemons e.devices r.keys r.roots
    revocations ← check_revocations id kind r.roots own e.revocations
    allowed_hosts ← check_allowed_hosts e.allowed_hosts
    ok (record {
      keys = keys;
      entries =
          insert id
            (record {
              id = id;
              kind = kind;
              name = e.name;
              frozen = e.frozen;
              current_root = r.current_root;
              roots = r.roots;
              rotations = e.rotations;
              revocations = revocations;
              bindings = bindings;
              allowed_hosts = allowed_hosts;
            })
            st.entries;
      authority_seen = st.authority_seen || is_authority;
    })

  -- One round: an entry of an unknown kind only counts its genesis key.
  unfoldable pub check_entry :
      PrincipalId → AuthorityChain → List PrincipalId → Check → Parsed → Result Check
  check_entry authority chain daemons st x = elim x.kind [
    | none ↦ (do keys ← add st.keys x.id.genesis; ok (record st { keys = keys }))
    | some kind ↦ check_known authority chain daemons st x.entry x.id kind
  ]

  unfoldable pub check_entries :
      PrincipalId → AuthorityChain → List PrincipalId → Check → List Parsed → Result Check
  check_entries authority chain daemons st [] = ok st
  check_entries authority chain daemons st (x ∷ xs) = do
    st ← check_entry authority chain daemons st x
    check_entries authority chain daemons st xs
