-- ===== src/Runs/Keyfiles.antt =====
-- Concrete key pairs, codecs and an agent directory.
use identity_crypto.Prelude.{
  ℕ, String, ◌≡◌, refl, ◌↔◌, Bool, true, ◌&&◌, ◌⊎◌, inr, Option, none, some, [], ◌∷◌, arith,
  PartialEq, ◌==◌, nat_eq, list_eq, option_eq, list_beq_iff, option_beq_iff, eq_self, ltb,
  if◌then◌else◌,
}
use identity_crypto.Prelude.Int.{pos, int_eq, int_beq_iff}
use identity_crypto.Primitives.{Bytes, Str}
use identity_crypto.PublicKey.{IsKey}
use identity_crypto.Pb
use identity_crypto.Pb.Equality.{wire_key_eq, delegation_eq}
use identity_crypto.Signature.{Signed}
use identity_crypto.Jwk.{Jwk, JwkLaws, KeyDuo}
use identity_crypto.Principal.{to_string}
use identity_crypto.Keyfile.Disk
use identity_crypto.Keyfile.Disk.{
  File, root_file, device_file, delegation_file, agent_id_file, history_file, rotations_file, World,
  Fate, Entry, absent, content,
}
use identity_crypto.Keyfile.Files.{Jsons, JsonsLaws, DuoCodec, DuoLaws}
use identity_crypto.Keyfile.Identity.{IdentityKeys}
use identity_crypto.Runs.Tables.{table_json, table-JsonLaws}
use identity_crypto.Runs.{toy, key, signature, alice, device, wire}

-- A key pair is its number.
instance abbrev pub toy_jwk : Jwk ℕ
toy_jwk = record { public_raw = λ n. (key n).bytes; sign_bytes = λ n m. inr (signature n) }

signature-Signed : (n : ℕ) (m s : Bytes) → signature n ≡ s → Signed (key n) m s
signature-Signed n m s e =
    rw (← e) (record { size = refl; imports = refl; verifies = eq_self (signature n) })

pub key-IsKey : (n : ℕ) → IsKey (key n)
key-IsKey n = record { scheme = refl; size = refl; imports = refl }

inr-injective : {a b : Bytes} → ◌≡◌ {A = String ⊎ Bytes} (inr a) (inr b) → a ≡ b
inr-injective h = cc

pub toy-JwkLaws : JwkLaws ℕ
toy-JwkLaws = record {
  is_key = key-IsKey;
  signs = λ n m s h. signature-Signed n m s (inr-injective h);
}

abbrev pub duo : ℕ → ℕ → KeyDuo ℕ
duo a b = record { signing_key_pair = a; encryption_key_pair = b }

-- Key duos of small numbers are written as two bytes.
abbrev duo_text : KeyDuo ℕ → Option Str
duo_text d =
    if ltb d.signing_key_pair 128 && ltb d.encryption_key_pair 128
    then some (d.signing_key_pair ∷ d.encryption_key_pair ∷ [])
    else none

abbrev text_duo : Str → Option (KeyDuo ℕ)
text_duo (a ∷ b ∷ []) = some (duo a b)
text_duo s = none

instance abbrev pub toy_duo_codec : DuoCodec ℕ
toy_duo_codec = record { export_key_duo_jwk = duo_text; import_key_duo_jwk = text_duo }

pub toy-DuoLaws : DuoLaws toy_duo_codec
toy-DuoLaws = record { utf8 = λ d s h. ground arith; reads_back = λ d s h. ground arith }

abbrev retired_beq : Pb.RetiredDevice → Pb.RetiredDevice → Bool
retired_beq a b =
    a.signing == b.signing
    && a.encryption == b.encryption
    && a.retired_at_unix_seconds == b.retired_at_unix_seconds

retired_beq_iff : (a b : Pb.RetiredDevice) → (retired_beq a b ≡ true) ↔ (a ≡ b)
retired_beq_iff a b = ground (
  arith,
  option_beq_iff a.signing b.signing,
  option_beq_iff a.encryption b.encryption,
  int_beq_iff a.retired_at_unix_seconds b.retired_at_unix_seconds,
)

instance abbrev retired_eq : PartialEq Pb.RetiredDevice
retired_eq = record { eq_iff = retired_beq_iff; eq = retired_beq }

abbrev rotation_beq : Pb.RootRotation → Pb.RootRotation → Bool
rotation_beq a b =
    a.principal_genesis == b.principal_genesis
    && a.old_root == b.old_root
    && a.new_root == b.new_root
    && a.issued_at_unix_seconds == b.issued_at_unix_seconds
    && a.signature == b.signature

rotation_beq_iff : (a b : Pb.RootRotation) → (rotation_beq a b ≡ true) ↔ (a ≡ b)
rotation_beq_iff a b = ground (
  arith,
  option_beq_iff a.principal_genesis b.principal_genesis,
  option_beq_iff a.old_root b.old_root,
  option_beq_iff a.new_root b.new_root,
  int_beq_iff a.issued_at_unix_seconds b.issued_at_unix_seconds,
  list_beq_iff a.signature b.signature,
)

instance abbrev rotation_eq : PartialEq Pb.RootRotation
rotation_eq = record { eq_iff = rotation_beq_iff; eq = rotation_beq }

history_beq_iff : (a b : Pb.DeviceHistory) → (a.retired == b.retired ≡ true) ↔ (a ≡ b)
history_beq_iff a b = ground (arith, list_beq_iff a.retired b.retired)

instance abbrev history_eq : PartialEq Pb.DeviceHistory
history_eq = record { eq_iff = history_beq_iff; eq = λ a b. a.retired == b.retired }

rotations_beq_iff : (a b : Pb.RootRotations) → (a.rotations == b.rotations ≡ true) ↔ (a ≡ b)
rotations_beq_iff a b = ground (arith, list_beq_iff a.rotations b.rotations)

instance abbrev rotations_eq : PartialEq Pb.RootRotations
rotations_eq = record { eq_iff = rotations_beq_iff; eq = λ a b. a.rotations == b.rotations }

-- The agent's second device 6 is delegated at second 500; device 3 is then retired.
abbrev pub second_delegation : Pb.KeyDelegation
second_delegation = record device {
  delegated = wire 6;
  delegated_encryption = wire 7;
  issued_at_unix_seconds = pos 500;
  not_after_unix_seconds = pos 9_500;
}

abbrev pub retired_device : Pb.RetiredDevice
retired_device = record { signing = wire 3; encryption = wire 5; retired_at_unix_seconds = pos 500 }

-- The root goes from 1 to 8 at second 600.
abbrev pub root_rotation : Pb.RootRotation
root_rotation = record {
  principal_genesis = wire 1;
  old_root = wire 1;
  new_root = wire 8;
  issued_at_unix_seconds = pos 600;
  signature = signature 1;
}

instance abbrev pub toy_jsons : Jsons
toy_jsons = record {
  delegation_json = table_json (device ∷ second_delegation ∷ []);
  history_json =
      table_json (record { retired = [] } ∷ record { retired = retired_device ∷ [] } ∷ []);
  rotations_json =
      table_json (record { rotations = [] } ∷ record { rotations = root_rotation ∷ [] } ∷ []);
}

pub toy-JsonsLaws : JsonsLaws toy_jsons
toy-JsonsLaws = record {
  delegation = table-JsonLaws (device ∷ second_delegation ∷ []);
  history =
      table-JsonLaws (record { retired = [] } ∷ record { retired = retired_device ∷ [] } ∷ []);
  rotations =
      table-JsonLaws (record { rotations = [] } ∷ record { rotations = root_rotation ∷ [] } ∷ []);
}

abbrev pub agent : IdentityKeys ℕ
agent = record {
  root = duo 1 2;
  device = duo 3 5;
  delegation = device;
  principal_id = alice;
  retired = [];
  rotations = [];
}

abbrev agent_entries : File → Entry
agent_entries root_file = content (1 ∷ 2 ∷ [])
agent_entries device_file = content (3 ∷ 5 ∷ [])
agent_entries delegation_file = content (0 ∷ [])
agent_entries agent_id_file = content (to_string alice)
agent_entries history_file = absent
agent_entries rotations_file = absent

-- The agent's directory, whose second write will fail after its rename.
abbrev pub agent_dir : World
agent_dir = record {
  dir = Disk.directory 448;
  creates = true;
  lock = Disk.granted;
  files = agent_entries;
  fates = Fate.done ∷ Fate.fails Disk.parent_sync ∷ [];
}

-- A directory that is not there yet.
abbrev pub no_dir : World
no_dir = record {
  dir = Disk.nothing;
  creates = true;
  lock = Disk.granted;
  files = λ f. absent;
  fates = [];
}

-- A directory that the group may read.
abbrev pub loose_dir : World
loose_dir = record agent_dir { dir = Disk.directory 488 }
