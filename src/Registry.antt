-- ===== src/Registry.antt =====
-- src/registry.rs: the checks of a registry body, and the verified views that a resolver exposes.
pub mod Types
pub mod Checks
pub mod Entry
pub mod Filed
use identity_crypto.Prelude.{
  ℕ, Bool, true, false, not, ◌&&◌, ◌||◌, Option, none, some, List, [], ◌∷◌, ◌==◌, ◌!=◌, is_empty,
  contains, list_eq, nat_eq, if◌then◌else◌, length, all, leb, option_eq,
}
use identity_crypto.Primitives.{Bytes, Str, Primitives}
use identity_crypto.KeyTypes.{PublicKey, PrincipalId, principal_eq}
use identity_crypto.Kind.{PrincipalKind, WireKind, wire_kind, kind_eq}
use identity_crypto.Error.{Result, ok, err, ◌>>=◌, ◌>>◌, reject_if, map_err}
use identity_crypto.Pb
use identity_crypto.Principal.{ShortId, parse_canonical, short_id}
use identity_crypto.Authority.{AuthorityChain, chain_principal}
use identity_crypto.Map.{Map}
use identity_crypto.Registry.Types.{VerifiedEntry, Parsed, CheckedRegistry, bad}
use identity_crypto.Registry.Entry.{Check, check_entries}

abbrev pub short_id_beq : ShortId → ShortId → Bool
short_id_beq a b = a.bytes == b.bytes

abbrev pub seen : List ShortId → ShortId → Bool
seen [] s = false
seen (x ∷ xs) s = short_id_beq x s || seen xs s

unfoldable pub entry_kind : Pb.RegistryEntry → Result (Option PrincipalKind)
entry_kind e = elim (wire_kind e.kind) [
  | some WireKind.unspecified ↦ err (bad "entries.kind" "unspecified")
  | some (WireKind.known k) ↦ ok (some k)
  | none ↦ ok none
]

-- `b.is_ascii_hexdigit()`
abbrev pub is_hex_digit : ℕ → Bool
is_hex_digit b = leb b'0' b && leb b b'9' || leb b'a' b && leb b b'f' || leb b'A' b && leb b b'F'

abbrev pub is_16_hex : Str → Bool
is_16_hex s = length s == 16 && all is_hex_digit s

abbrev known_kind : Option PrincipalKind → Bool
known_kind none = false
known_kind (some k) = true

-- One round of the loop over names; `names` are those taken by entries that are not frozen.
unfoldable pub check_name : List Str → Parsed → Result (List Str)
check_name names x = elim x.entry.name [
  | none ↦ ok names
  | some n ↦ (do
    reject_if (is_empty n) (bad "entries.name" "empty")
    reject_if (is_16_hex n) (bad "entries.name" "16 hex characters")
    let holds = known_kind x.kind && not x.entry.frozen
    reject_if (holds && contains names n) (bad "entries.name" "shared by two non-frozen entries")
    ok (if holds then n ∷ names else names))
]

unfoldable pub check_names : List Str → List Parsed → Result (List Str)
check_names names [] = ok names
check_names names (x ∷ xs) = do names ← check_name names x; check_names names xs

-- The ids of the DAEMON entries.
unfoldable pub daemon_ids : List Parsed → List PrincipalId
daemon_ids [] = []
daemon_ids (x ∷ xs) =
    let rest = daemon_ids xs in if x.kind == some PrincipalKind.daemon then x.id ∷ rest else rest

module _ ⦃p : Primitives⦄ where
  unfoldable pub parse_entry : List ShortId → Pb.RegistryEntry → Result (Parsed × List ShortId)
  parse_entry short_ids e = do
    id ← map_err (parse_canonical e.principal_id) (bad "entries.principal_id" "not canonical")
    reject_if (seen short_ids (short_id id)) (bad "entries.principal_id" "short id repeated")
    kind ← entry_kind e
    ok (record { entry = e; id = id; kind = kind }, short_id id ∷ short_ids)

  unfoldable pub parse_entries : List ShortId → List Pb.RegistryEntry → Result (List Parsed)
  parse_entries short_ids [] = ok []
  parse_entries short_ids (e ∷ es) = do
    (x, short_ids) ← parse_entry short_ids e
    xs ← parse_entries short_ids es
    ok (x ∷ xs)

  unfoldable pub check_registry : Pb.PrincipalRegistry → AuthorityChain → Result CheckedRegistry
  check_registry reg chain = do
    authority ← chain_principal chain
    parsed ← parse_entries [] reg.entries
    check_names [] parsed
    st ←
        check_entries authority chain (daemon_ids parsed)
          (record { keys = []; entries = []; authority_seen = false }) parsed
    reject_if (not st.authority_seen) (bad "entries" "no HUMAN entry for the authority")
    ok (record { entries = st.entries; allow_peer_revocation = reg.allow_peer_revocation })
