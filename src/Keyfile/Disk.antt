-- ===== src/Keyfile/Disk.antt =====
-- identity-keyfile/src/error.rs and the state that src/files.rs works on: one agent directory, and the
-- fates of the writes to come. The text of a parse error and the `std::io::Error` of an I/O error are
-- not kept.
use identity_crypto.Prelude.{ℕ, Bool, List, ◌==◌, nat_eq, if◌then◌else◌}
use identity_crypto.Primitives.{Bytes}
use identity_crypto.Error.{Error}

-- The file names of src/files.rs, other than the lock's.
pub data File : Type 0 where
  root_file device_file delegation_file agent_id_file history_file rotations_file : File

-- The paths that errors name: the directory, its lock, its files and their temporary names, its parent and
-- the temporary directories beside it.
pub data Location : Type 0 where
  at_dir at_lock at_parent at_candidate : Location
  at_file at_temp : File → Location

pub data VerifyCheck : Type 0 where
  agent_id principal_genesis signing_root delegated delegated_encryption purpose signature :
      VerifyCheck

pub data KeyfileError : Type 0 where
  io parse missing : Location → KeyfileError
  crypto : Error → KeyfileError
  delegation_mismatch insecure_dir already_initialised : KeyfileError
  verify_failed : VerifyCheck → KeyfileError

-- `Result<T, KeyfileError>`, and the outcome of an `expect` that fails.
pub data Outcome {ℓ} (T : Type ℓ) : Type ℓ where
  panic : Outcome T
  err : KeyfileError → Outcome T
  ok : T → Outcome T

-- What stands at a file's name: nothing, a name whose metadata cannot be read, a link to nothing, a file
-- that cannot be read, or a file.
pub data Entry : Type 0 where
  absent hidden broken unreadable : Entry
  content : Bytes → Entry

-- What `symlink_metadata` says of the directory; a directory has a mode.
pub data Dir : Type 0 where
  nothing hidden other : Dir
  directory : ℕ → Dir

-- What opening and taking the lock come to.
pub data Lock : Type 0 where
  granted refused failing : Lock

-- The steps of `write_private_at`, where a write may fail or the process end.
pub data Stage : Type 0 where
  create set_permissions write_all sync_all rename parent_sync : Stage

pub data Fate : Type 0 where
  done : Fate
  fails : Stage → Fate

-- `creates` says whether a missing directory can be created. A write without a fate is done.
pub record World : Type 0 where
  pub dir : Dir
  pub creates : Bool
  pub lock : Lock
  pub files : File → Entry
  pub fates : List Fate

abbrev file_number : File → ℕ
file_number root_file = 0
file_number device_file = 1
file_number delegation_file = 2
file_number agent_id_file = 3
file_number history_file = 4
file_number rotations_file = 5

-- The directory with a file replaced.
abbrev pub replaced : File → Bytes → World → World
replaced f bytes w = record w {
  files = λ g. if file_number f == file_number g then content bytes else w.files g;
}
