-- ===== src/Keyfile/Files.antt =====
-- identity-keyfile/src/files.rs: reading and writing the files of the directory, and its checks. A key
-- duo's text and the JSON of the records come from the `rust_jwk_duo` and `serde_json` crates, which
-- are parameters; an error of theirs is `none`.
pub mod Contents
pub mod Access
use identity_crypto.Prelude.{
  ℕ, ◌%◌, Bool, true, false, not, ◌||◌, Option, none, some, List, [], ◌∷◌, ◌≡◌, ◌==◌, ◌!=◌, nat_eq,
  if◌then◌else◌,
}
use identity_crypto.Primitives.{Bytes, Str, Primitives}
use identity_crypto.KeyTypes.{PrincipalId}
use identity_crypto.Error.{Result}
use identity_crypto.Error
use identity_crypto.Pb
use identity_crypto.Principal.{to_string, parse_canonical}
use identity_crypto.Jwk.{KeyDuo}
use identity_crypto.Keyfile.Text.{is_utf8, from_utf8, trim}
use identity_crypto.Keyfile.Disk
use identity_crypto.Keyfile.Disk.{
  File, delegation_file, agent_id_file, history_file, rotations_file, Location, at_dir, at_lock,
  at_file, at_temp, KeyfileError, io, parse, missing, insecure_dir, Outcome, err, ok, panic, Entry,
  absent, content, World, Stage, Fate, replaced,
}
use identity_crypto.Keyfile.Outcome.{◌>>=◌, ◌>>◌, reject_if, ok_or}
use identity_crypto.Keyfile.Op.{Op}

-- serde_json::to_string_pretty, serde_json::from_slice
pub record Json (T : Type 0) : Type 0 where
  pub to_string_pretty : T → Option Str
  pub from_slice : Bytes → Option T

-- KeyDuoSerializer
pub record DuoCodec (K : Type 0) : Type 0 where
  pub export_key_duo_jwk : KeyDuo K → Option Str
  pub import_key_duo_jwk : Str → Option (KeyDuo K)

-- The JSON of the three records
pub record Jsons : Type 0 where
  pub delegation_json : Json Pb.KeyDelegation
  pub history_json : Json Pb.DeviceHistory
  pub rotations_json : Json Pb.RootRotations

-- The documented behaviour: what is printed reads back.
pub record JsonLaws {T : Type 0} (json : Json T) : Type 0 where
  pub reads_back : (t : T) (s : Str) → json.to_string_pretty t ≡ some s → json.from_slice s ≡ some t

pub record JsonsLaws (x : Jsons) : Type 0 where
  pub delegation : JsonLaws x.delegation_json
  pub history : JsonLaws x.history_json
  pub rotations : JsonLaws x.rotations_json

pub record DuoLaws {K : Type 0} (c : DuoCodec K) : Type 0 where
  pub utf8 : (d : KeyDuo K) (s : Str) → c.export_key_duo_jwk d ≡ some s → is_utf8 s ≡ true
  pub reads_back :
      (d : KeyDuo K) (s : Str) → c.export_key_duo_jwk d ≡ some s → c.import_key_duo_jwk s ≡ some d

-- `read_bytes`
unfoldable pub read_bytes : World → File → Outcome Bytes
read_bytes w f = elim (w.files f) [
  | absent ↦ err (missing (at_file f))
  | Disk.broken ↦ err (missing (at_file f))
  | Disk.hidden ↦ err (io (at_file f))
  | Disk.unreadable ↦ err (io (at_file f))
  | content b ↦ ok b
]

-- `fs::symlink_metadata(p).is_ok()` of keys.rs
unfoldable pub exists : World → File → Bool
exists w f = elim (w.files f) [ absent ↦ false | Disk.hidden ↦ false | _ ↦ true ]

-- `parse`
unfoldable pub parse_file : {T : Type 0} → Json T → World → File → Outcome T
parse_file json w f = do bytes ← read_bytes w f; ok_or (json.from_slice bytes) (parse (at_file f))

-- `read_optional`, with the default value
unfoldable pub read_optional : {T : Type 0} → Json T → T → World → File → Outcome T
read_optional json default w f = elim (w.files f) [
  | absent ↦ ok default
  | Disk.hidden ↦ err (io (at_file f))
  | _ ↦ parse_file json w f
]

-- The path that the error of a failed step names.
abbrev pub stage_location : Stage → File → Location
stage_location Stage.rename f = at_file f
stage_location Stage.parent_sync f = at_dir
stage_location stage f = at_temp f

-- One call of `write_private_at`: only the last step comes after the rename.
unfoldable pub write_with : Fate → File → Bytes → Op (Unit {0})
write_with Fate.done f bytes w = (ok tt, replaced f bytes w)
write_with (Fate.fails Stage.parent_sync) f bytes w = (err (io at_dir), replaced f bytes w)
write_with (Fate.fails stage) f bytes w = (err (io (stage_location stage f)), w)

-- `write_private`: the next fate is taken from the list.
unfoldable pub write_next : List Fate → File → Bytes → Op (Unit {0})
write_next [] f bytes w = write_with Fate.done f bytes w
write_next (fate ∷ fates) f bytes w = write_with fate f bytes (record w { fates = fates })

unfoldable pub write_private : File → Bytes → Op (Unit {0})
write_private f bytes w = write_next w.fates f bytes w

-- The text of a writer, or its error, before `write_private`.
unfoldable pub write_text : Option Str → KeyfileError → File → Op (Unit {0})
write_text none e f w = (err e, w)
write_text (some text) e f w = write_private f text w

-- `write_json`
unfoldable pub write_json : {T : Type 0} → Json T → File → T → Op (Unit {0})
write_json json f value = write_text (json.to_string_pretty value) (parse (at_file f)) f

-- `.map_err(|e| KeyfileError::Parse { … })`
unfoldable pub or_parse {ℓ} : {A : Type ℓ} → Result A → File → Outcome A
or_parse Error.panic f = panic
or_parse (Error.err e) f = err (parse (at_file f))
or_parse (Error.ok a) f = ok a

module _ {K : Type 0} ⦃c : DuoCodec K⦄ where
  unfoldable pub write_duo : File → KeyDuo K → Op (Unit {0})
  write_duo f duo = write_text (c.export_key_duo_jwk duo) (io (at_file f)) f

  unfoldable pub read_duo : World → File → Outcome (KeyDuo K)
  read_duo w f = do
    bytes ← read_bytes w f
    text ← ok_or (from_utf8 bytes) (parse (at_file f))
    ok_or (c.import_key_duo_jwk text) (parse (at_file f))

module _ ⦃x : Jsons⦄ where
  unfoldable pub write_delegation : Pb.KeyDelegation → Op (Unit {0})
  write_delegation d = write_json x.delegation_json delegation_file d

  unfoldable pub read_delegation : World → Outcome Pb.KeyDelegation
  read_delegation w = parse_file x.delegation_json w delegation_file

  unfoldable pub write_history : Pb.DeviceHistory → Op (Unit {0})
  write_history h = write_json x.history_json history_file h

  unfoldable pub read_history : World → Outcome Pb.DeviceHistory
  read_history w = read_optional x.history_json (record { retired = [] }) w history_file

  unfoldable pub write_rotations : Pb.RootRotations → Op (Unit {0})
  write_rotations r = write_json x.rotations_json rotations_file r

  unfoldable pub read_rotations : World → Outcome Pb.RootRotations
  read_rotations w = read_optional x.rotations_json (record { rotations = [] }) w rotations_file

module _ ⦃p : Primitives⦄ where
  unfoldable pub write_principal_id : PrincipalId → Op (Unit {0})
  write_principal_id id = write_private agent_id_file (to_string id)

  unfoldable pub read_principal_id : World → Outcome PrincipalId
  read_principal_id w = do
    bytes ← read_bytes w agent_id_file
    text ← ok_or (from_utf8 bytes) (parse (at_file agent_id_file))
    or_parse (parse_canonical (trim text)) agent_id_file

-- `!meta.is_dir() || meta.mode() & 0o077 != 0`, by what `symlink_metadata` gives.
unfoldable pub check_dir : World → Outcome (Unit {0})
check_dir w = elim w.dir [
  | Disk.nothing ↦ err (missing at_dir)
  | Disk.hidden ↦ err (io at_dir)
  | Disk.other ↦ err insecure_dir
  | Disk.directory mode ↦ reject_if (mode % 64 != 0) insecure_dir
]

-- The directory that `ensure_dir` makes, of mode 0700, has no files.
abbrev pub fresh_dir : World → World
fresh_dir w = record w { dir = Disk.directory 448; files = λ f. absent }

-- `ensure_dir`, by what `symlink_metadata` gives.
unfoldable pub ensure_at : Disk.Dir → Op (Unit {0})
ensure_at Disk.nothing w =
    if w.creates then (check_dir (fresh_dir w), fresh_dir w) else (err (io at_dir), w)
ensure_at Disk.hidden w = (err (io at_dir), w)
ensure_at Disk.other w = (check_dir w, w)
ensure_at (Disk.directory mode) w = (check_dir w, w)

unfoldable pub ensure_dir : Op (Unit {0})
ensure_dir w = ensure_at w.dir w

-- `lock_exclusive`, `lock_shared`: what the call gives; the lock is held to the end of the operation.
unfoldable pub lock_exclusive : World → Outcome (Unit {0})
lock_exclusive w = elim w.lock [ Disk.granted ↦ ok tt | _ ↦ err (io at_lock) ]

unfoldable pub lock_shared : World → Outcome (Unit {0})
lock_shared w = elim w.lock [ Disk.failing ↦ err (io at_lock) | _ ↦ ok tt ]
