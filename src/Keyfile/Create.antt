-- ===== src/Keyfile/Create.antt =====
-- `create_or_load` of identity-keyfile/src/keys.rs: a new agent is made in a temporary directory, which then
-- takes the place of the directory. The state is the directory; what happens around it is a record.
-- `clean_dead_temps` removes the temporary directories of dead processes and no more, and never fails.
pub mod Remains
use identity_crypto.Prelude.{
  ℕ, zero, suc, Bool, true, false, not, ◌&&◌, Option, List, [], ◌∷◌, all, any, if◌then◌else◌,
}
use identity_crypto.Prelude.Int.{ℤ}
use identity_crypto.Primitives.{Primitives}
use identity_crypto.Jwk.{Jwk, KeyDuo}
use identity_crypto.Keyfile.Disk
use identity_crypto.Keyfile.Disk.{
  io, at_dir, at_parent, at_candidate, Outcome, ok, err, panic, World, Fate, absent,
}
use identity_crypto.Keyfile.Outcome.{reject_if}
use identity_crypto.Keyfile.Op.{Op, lift, reading, ◌>>=◌, ◌>>◌}
use identity_crypto.Keyfile.Files.{DuoCodec, Jsons, check_dir}
use identity_crypto.Keyfile.Identity.{IdentityKeys}
use identity_crypto.Keyfile.Load.{identity_exists, load_verified}
use identity_crypto.Keyfile.Store.{init}

-- What making a directory under a new name comes to.
pub data Making : Type 0 where
  made taken failing : Making

-- An entry that `read_dir` gives, and what it gives of the directory.
pub data Item : Type 0 where
  lock_file other_file unreadable_item : Item

pub data Listing : Type 0 where
  items : List Item → Listing
  gone failing : Listing

-- What removing the directory comes to: `kept` where it is gone or not empty.
pub data Removal : Type 0 where
  removed kept failing : Removal

-- What `rename` comes to: a collision is a directory that is there and not empty.
pub data Renaming : Type 0 where
  renamed collision failing : Renaming

-- `meanwhile` is the directory that the rename finds; attempts without an outcome are made.
pub record Around : Type 0 where
  pub parent_ready : Bool
  pub attempts : List Making
  pub listing : Listing
  pub removal : Removal
  pub temp_lock : Disk.Lock
  pub temp_fates : List Fate
  pub temp_synced : Bool
  pub renaming : Renaming
  pub meanwhile : World
  pub parent_synced : Bool

-- The loop over the names of the temporary directory, with the number of names left.
unfoldable pub make_temp : ℕ → List Making → Outcome (Unit {0})
make_temp zero attempts = err (io at_dir)
make_temp (suc left) [] = ok tt
make_temp (suc left) (Making.made ∷ attempts) = ok tt
make_temp (suc left) (Making.taken ∷ attempts) = make_temp left attempts
make_temp (suc left) (Making.failing ∷ attempts) = err (io at_candidate)

-- A symlink or a loose directory is refused.
unfoldable pub may_create : World → Outcome (Unit {0})
may_create w = elim w.dir [ Disk.nothing ↦ ok tt | Disk.hidden ↦ err (io at_dir) | _ ↦ check_dir w ]

abbrev pub is_lock : Item → Bool
is_lock lock_file = true
is_lock item = false

-- `fs::remove_dir` of a directory whose lock file is removed.
unfoldable pub remove_dir : Removal → Op (Unit {0})
remove_dir Removal.removed w = (ok tt, record w { dir = Disk.nothing; files = λ f. absent })
remove_dir Removal.kept w = (ok tt, w)
remove_dir Removal.failing w = (err (io at_dir), w)

unfoldable pub remove_if_only_lock : Listing → Removal → Op (Unit {0})
remove_if_only_lock (Listing.items es) on_remove =
    if all is_lock es && any is_lock es then remove_dir on_remove else lift (ok tt)
remove_if_only_lock Listing.gone _ = lift (ok tt)
remove_if_only_lock Listing.failing _ = lift (err (io at_dir))

-- The part under `dir.is_dir()`.
unfoldable pub clear_dir : Around → Op (Unit {0})
clear_dir a w = elim w.dir [
  | Disk.directory mode ↦ remove_if_only_lock a.listing a.removal w
  | _ ↦ (ok tt, w)
]

-- The temporary directory, of mode 0700.
abbrev pub temp_dir : Around → World
temp_dir a = record {
  dir = Disk.directory 448;
  creates = true;
  lock = a.temp_lock;
  files = λ f. absent;
  fates = a.temp_fates;
}

module _ {K : Type 0} ⦃p : Primitives⦄ ⦃j : Jwk K⦄ ⦃c : DuoCodec K⦄ ⦃x : Jsons⦄ where
  -- The match on `fs::rename`.
  unfoldable pub rename_temp : Renaming → Around → IdentityKeys K → World → Op (IdentityKeys K)
  rename_temp Renaming.renamed a keys temp w =
      (if a.parent_synced then ok keys else err (io at_parent), temp)
  rename_temp Renaming.collision a keys temp w = (load_verified a.meanwhile, a.meanwhile)
  rename_temp Renaming.failing a keys temp w = (err (io at_dir), w)

  -- What follows `init` in the temporary directory.
  unfoldable pub place : Around → Outcome (IdentityKeys K) × World → Op (IdentityKeys K)
  place a (ok keys, temp) = do
    lift (reject_if (not a.temp_synced) (io at_candidate))
    rename_temp a.renaming a keys temp
  place a (err e, temp) = lift (err e)
  place a (panic, temp) = lift panic

  unfoldable pub create_identity : Around → KeyDuo K → KeyDuo K → ℤ → ℤ → Op (IdentityKeys K)
  create_identity a root device now ttl_seconds = do
    reading may_create
    lift (reject_if (not a.parent_ready) (io at_parent))
    lift (make_temp 8 a.attempts)
    clear_dir a
    place a (init root device now ttl_seconds (temp_dir a))

  -- `IdentityKeys::create_or_load`
  unfoldable pub create_or_load : Around → KeyDuo K → KeyDuo K → ℤ → ℤ → Op (IdentityKeys K)
  create_or_load a root device now ttl_seconds w =
      if identity_exists w
      then (load_verified w, w)
      else create_identity a root device now ttl_seconds w
