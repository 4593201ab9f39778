-- ===== src/Registry/Checks.antt =====
-- src/registry.rs: the checks on one entry's rules, delegations and revocations.
use identity_crypto.Prelude.{
  Bool, true, false, not, ◌&&◌, ◌||◌, Option, none, some, List, [], ◌∷◌, ◌++◌, String, ◌==◌, ◌!=◌,
  nat_eq, list_eq, option_eq, contains, is_empty, last?,
}
use identity_crypto.Prelude.Int.{ℤ, pos, int_eq}
use identity_crypto.Primitives.{Str, Primitives}
use identity_crypto.KeyTypes.{PublicKey, PrincipalId, key_eq, principal_eq}
use identity_crypto.Kind.{PrincipalKind, kind_eq}
use identity_crypto.PublicKey.{try_from}
use identity_crypto.Principal.{parse_canonical, ascii}
use identity_crypto.Error.{Result, ok, ◌>>=◌, ◌>>◌, reject_if, ok_or, map_err, expect}
use identity_crypto.Pb
use identity_crypto.Signature.{verify_p256}
use identity_crypto.Transcripts.Keys.{key_delegation_transcript, key_revocation_transcript}
use identity_crypto.Registry.Types.{AllowedHost, VerifiedBinding, bad}

-- `KeySet`, whose keys stand in the order of their insertion, the last first.
abbrev pub KeySet : Type 0
KeySet = List PublicKey

-- `KeySet::add`
unfoldable pub add : KeySet → PublicKey → Result KeySet
add keys k = do
  reject_if (contains keys k) (bad "entries" "a public key appears twice")
  ok (k ∷ keys)

unfoldable pub add_all : KeySet → List PublicKey → Result KeySet
add_all keys [] = ok keys
add_all keys (k ∷ ks) = do keys ← add keys k; add_all keys ks

-- The numbers of `pb::KeyPurpose::Device` and `Approval`.
abbrev pub device_purpose : ℤ
device_purpose = pos 2

abbrev pub approval_purpose : ℤ
approval_purpose = pos 3

-- The rules on the fields that a kind may have; the match of `check_registry`.
unfoldable pub kind_rules : PrincipalKind → Bool → Pb.RegistryEntry → Result (Unit {0})
kind_rules PrincipalKind.human self_rooted e =
    reject_if (not (is_empty e.allowed_hosts)) (bad "entries.allowed_hosts" "only for AGENT")
kind_rules PrincipalKind.daemon self_rooted e = do
  reject_if (not (is_empty e.devices)) (bad "entries.devices" "only for HUMAN")
  reject_if (not (is_empty e.allowed_hosts)) (bad "entries.allowed_hosts" "only for AGENT")
kind_rules PrincipalKind.service self_rooted e = do
  reject_if (not (is_empty e.devices)) (bad "entries.devices" "only for HUMAN")
  reject_if (not (is_empty e.allowed_hosts)) (bad "entries.allowed_hosts" "only for AGENT")
kind_rules PrincipalKind.agent self_rooted e = do
  reject_if (not (is_empty e.devices)) (bad "entries.devices" "only for HUMAN")
  reject_if (self_rooted && not (is_empty e.allowed_hosts))
      (bad "entries.allowed_hosts" "an AGENT is self-rooted or host-vouched, never both")
  reject_if (not self_rooted && is_empty e.allowed_hosts)
      (bad "entries.allowed_hosts" "a host-vouched AGENT needs at least one")

module _ ⦃p : Primitives⦄ where
  -- `fn key`: a missing or invalid key is `none`.
  unfoldable pub key : Option Pb.PublicKey → Option PublicKey
  key none = none
  key (some w) = elim (try_from w) [ ok k ↦ some k | _ ↦ none ]

  unfoldable pub check_delegation :
      Pb.KeyDelegation → PrincipalId → PublicKey → ℤ → String → Result PublicKey
  check_delegation d entry root purpose field = do
    reject_if (key d.principal_genesis != some entry.genesis)
        (bad field "principal_genesis is not this entry")
    reject_if (key d.signing_root != some root)
        (bad field "not signed by this entry's current root")
    reject_if (d.purpose != purpose) (bad field "wrong purpose")
    reject_if (d.not_after_unix_seconds == pos 0)
        (bad field "not_after is 0; write i64::MAX for no expiry")
    transcript ← map_err (key_delegation_transcript d) (bad field "malformed")
    map_err (verify_p256 root transcript d.signature) (bad field "signature does not verify")
    ok_or (key d.delegated) (bad field "delegated missing")

  -- The approval half of a binding, with the keys seen and the keys of this entry.
  unfoldable pub check_approval :
      Option Pb.KeyDelegation
      → PrincipalId
      → PublicKey
      → KeySet
      → List PublicKey
      → Result (Option (Pb.KeyDelegation × PublicKey) × KeySet × List PublicKey)
  check_approval none id root keys own = ok (none, keys, own)
  check_approval (some a) id root keys own = do
    k ← check_delegation a id root approval_purpose "devices.approval"
    keys ← add keys k
    ok (some (a, k), keys, own ++ (k ∷ []))

  unfoldable pub check_host : Option Str → List PrincipalId → Result (Option PrincipalId)
  check_host none daemons = ok none
  check_host (some h) daemons = do
    id ← map_err (parse_canonical h) (bad "devices.host_daemon_id" "not canonical")
    reject_if (not (contains daemons id)) (bad "devices.host_daemon_id" "names no DAEMON entry")
    ok (some id)

  -- One round of the loop over `e.devices`.
  unfoldable pub check_binding :
      PrincipalId
      → Option PublicKey
      → List PrincipalId
      → Pb.DeviceBinding
      → KeySet
      → List PublicKey
      → Result (VerifiedBinding × KeySet × List PublicKey)
  check_binding id current daemons b keys own = do
    root ← expect current
    d ← ok_or b.device (bad "devices.device" "missing")
    device_key ← check_delegation d id root device_purpose "devices.device"
    device_enc ← expect (key d.delegated_encryption)
    keys ← add keys device_key
    keys ← add keys device_enc
    (approval, keys, own) ←
        check_approval b.approval id root keys (own ++ (device_key ∷ device_enc ∷ []))
    host ← check_host b.host_daemon_id daemons
    ok (record { device = d; device_key = device_key; approval = approval; host = host }, keys, own)

  unfoldable pub check_bindings :
      PrincipalId
      → Option PublicKey
      → List PrincipalId
      → List Pb.DeviceBinding
      → KeySet
      → List PublicKey
      → Result (List VerifiedBinding × KeySet × List PublicKey)
  check_bindings id current daemons [] keys own = ok ([], keys, own)
  check_bindings id current daemons (b ∷ bs) keys own = do
    (v, keys, own) ← check_binding id current daemons b keys own
    (vs, keys, own) ← check_bindings id current daemons bs keys own
    ok (v ∷ vs, keys, own)

  -- One round of the loop over `e.revocations`.
  unfoldable pub check_revocation :
      PrincipalId
      → PrincipalKind
      → List PublicKey
      → List PublicKey
      → Pb.KeyRevocation
      → Result (PublicKey × ℤ)
  check_revocation id kind roots own r = do
    reject_if (key r.principal_genesis != some id.genesis)
        (bad "revocations.principal_genesis" "is not this entry")
    revoked ← ok_or (key r.revoked) (bad "revocations.revoked" "missing")
    by ← ok_or (key r.revoked_by) (bad "revocations.revoked_by" "missing")
    reject_if (some revoked == last? roots)
        (bad "revocations.revoked" "revokes the current root; set frozen instead")
    reject_if (not (contains roots by || by == revoked))
        (bad "revocations.revoked_by" "not a root of this entry or the revoked key")
    reject_if (kind == PrincipalKind.human && not (contains own revoked))
        (bad "revocations.revoked" "not one of this entry's keys")
    transcript ← map_err (key_revocation_transcript r) (bad "revocations" "malformed")
    map_err (verify_p256 by transcript r.signature) (bad "revocations" "signature does not verify")
    ok (revoked, r.revoked_at_unix_seconds)

  unfoldable pub check_revocations :
      PrincipalId
      → PrincipalKind
      → List PublicKey
      → List PublicKey
      → List Pb.KeyRevocation
      → Result (List (PublicKey × ℤ))
  check_revocations id kind roots own [] = ok []
  check_revocations id kind roots own (r ∷ rs) = do
    v ← check_revocation id kind roots own r
    vs ← check_revocations id kind roots own rs
    ok (v ∷ vs)

  unfoldable pub check_allowed_host : Str → Result AllowedHost
  check_allowed_host h = elim (h == ascii "*") [
    | true ↦ ok AllowedHost.any
    | false ↦ (do
      id ←
          map_err (parse_canonical h)
            (bad "entries.allowed_hosts" "not \"*\" or a canonical principal id")
      ok (AllowedHost.daemon id))
  ]

  unfoldable pub check_allowed_hosts : List Str → Result (List AllowedHost)
  check_allowed_hosts [] = ok []
  check_allowed_hosts (h ∷ hs) = do
    v ← check_allowed_host h
    vs ← check_allowed_hosts hs
    ok (v ∷ vs)
