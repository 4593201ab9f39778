-- ===== src/Runs/Registries.antt =====
-- A registry document on concrete data, with a model of `prost` for it.
use identity_crypto.Prelude.{
  ℕ, ◌<◌, ◌≢◌, Option, none, some, length, arith, ◌≡◌, refl, false, [], ◌∷◌,
}
use identity_crypto.Primitives.{Bytes}
use identity_crypto.Error.{panic, ok, ◌>>=◌}
use identity_crypto.Resolver.Carrier.{ProstLaws, decode_carrier-no_panic}
use identity_crypto.Prelude.Int.{pos}
use identity_crypto.Kind.{PrincipalKind, wire_kind}
use identity_crypto.Pb
use identity_crypto.Principal.{ascii, parse, parse_canonical, to_string, short_id, decoded}
use identity_crypto.PublicKey.{or_invalid_key, p256, try_from, try_from_duo, new_duo, to_hex}
use identity_crypto.Map.{insert}
use identity_crypto.Authority.{VerifiedDocument, genesis_chain, chain_principal}
use identity_crypto.Registry.{
  parse_entry, parse_entries, entry_kind, check_name, check_names, daemon_ids, check_registry,
}
use identity_crypto.Registry.Types.{VerifiedEntry}
use identity_crypto.Registry.Checks.{
  add, add_all, kind_rules, check_bindings, check_revocations, check_allowed_hosts,
}
use identity_crypto.Registry.Entry.{
  authority_rules, root_chain, check_roots, check_known, check_entry, check_entries,
}
use identity_crypto.Registry.Filed.{Filed, from_document-Filed}
use identity_crypto.Resolver.{Prost, Resolver, entry, count_registry, decode_carrier, from_document}
use identity_crypto.Runs.{toy, key, wire, copies, alice}

abbrev registry : Pb.PrincipalRegistry
registry = record {
  entries =
      record {
        principal_id = to_string alice;
        kind = pos 1;
        name = some (ascii "alice");
        frozen = false;
        current_root = some (record { signing = wire 1; encryption = wire 2 });
        rotations = [];
        revocations = [];
        devices = [];
        allowed_hosts = [];
      }
      ∷ [];
  allow_peer_revocation = false;
}

-- A body is one field of tag 1, which is the registry.
abbrev key_of : Bytes → Option (ℕ × ℕ × Bytes)
key_of [] = none
key_of (b ∷ bs) = some (1, 2, bs)

instance abbrev carrier : Prost
carrier = record {
  decode_key = key_of;
  skip_field = λ wire_type tag rest. some [];
  decode_registry_carrier = λ body. some (some registry);
}

key_of-consumes :
    (bs rest : Bytes) (tag wire_type : ℕ)
    → key_of bs ≡ some (tag, wire_type, rest)
    → length rest < length bs
key_of-consumes [] rest tag wire_type h = cc
key_of-consumes (b ∷ bs) rest tag wire_type h =
    let same : bs ≡ rest = cc in rw (← same) (omega arith)

carrier_laws : ProstLaws carrier
carrier_laws = record {
  key_consumes = key_of-consumes;
  skip_consumes =
      λ wire_type tag bs rest h. (let same : [] ≡ rest = cc in rw (← same) (omega arith));
}

abbrev document : VerifiedDocument
document = record {
  id = copies 32 9;
  chain = genesis_chain (key 1);
  document_type = ascii "registry";
  version = 1;
  issued_at = pos 10;
  expires_at = pos 20;
  body = 1 ∷ [];
}

abbrev resolved : Resolver
resolved = record {
  authority = alice;
  document_version = 1;
  document_id = copies 32 9;
  allow_peer_revocation = false;
  entries =
      (
        alice,
        record {
          id = alice;
          kind = PrincipalKind.human;
          name = some (ascii "alice");
          frozen = false;
          current_root = some (record { signing = key 1; encryption = key 2 });
          roots = key 1 ∷ [];
          rotations = [];
          revocations = [];
          bindings = [];
          allowed_hosts = [];
        },
      )
      ∷ [];
  peer = [];
}

document_resolves : from_document document document.document_type ≡ ok resolved
unfolding from_document decode_carrier count_registry check_registry parse_entries parse_entry
    parse_canonical parse to_string to_hex decoded short_id entry_kind wire_kind check_names
    check_name daemon_ids check_entries check_entry check_known authority_rules kind_rules
    check_roots root_chain try_from_duo new_duo try_from p256 or_invalid_key add_all add
    check_bindings check_revocations check_allowed_hosts insert chain_principal genesis_chain ◌>>=◌
document_resolves = refl

from_document-Filed_example :
    Filed alice resolved.entries
    × ((e : VerifiedEntry) × (entry resolved alice ≡ some e)
        × (e.kind ≡ PrincipalKind.human)
        × (e.frozen ≡ false))
from_document-Filed_example =
    from_document-Filed document document.document_type resolved document_resolves

decode_carrier-no_panic_example : decode_carrier document.body ≢ panic
decode_carrier-no_panic_example = decode_carrier-no_panic carrier_laws document.body
