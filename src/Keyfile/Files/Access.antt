-- ===== src/Keyfile/Files/Access.antt =====
-- Who may access the directory of identity-keyfile/src/files.rs, by the bits of its mode, and what
-- `check_dir` and `ensure_dir` say of it.
use identity_crypto.Prelude.{ℕ, zero, suc, ◌≡◌, refl, arith, nat_eq, ◌/◌, ◌%◌, ◌^◌, ◌<◌}
use identity_crypto.Keyfile.Disk
use identity_crypto.Keyfile.Disk.{insecure_dir, ok, err, World}
use identity_crypto.Keyfile.Outcome.{reject_if}
use identity_crypto.Keyfile.Files.{check_dir, ensure_dir, ensure_at}

-- One of the six low bits of a mode is set: to read, write or execute, for the group or for others.
-- What is not a directory is as bad.
pub data Loose : Disk.Dir → Type 0 where
  no_directory : Loose Disk.other
  shared : (mode bit : ℕ) → bit < 6 → mode / 2 ^ bit % 2 ≡ 1 → Loose (Disk.directory mode)

-- None of the six is set.
pub data Private : Disk.Dir → Type 0 where
  unshared :
      (mode : ℕ) → ((bit : ℕ) → bit < 6 → mode / 2 ^ bit % 2 ≡ 0) → Private (Disk.directory mode)

low_bit : (mode bit : ℕ) → bit < 6 → mode / 2 ^ bit % 2 ≡ 1 → mode % 64 ≡ 0 → ⊥
low_bit mode zero l h z = omega arith
low_bit mode (suc zero) l h z = omega arith
low_bit mode (suc (suc zero)) l h z = omega arith
low_bit mode (suc (suc (suc zero))) l h z = omega arith
low_bit mode (suc (suc (suc (suc zero)))) l h z = omega arith
low_bit mode (suc (suc (suc (suc (suc zero))))) l h z = omega arith
low_bit mode (suc (suc (suc (suc (suc (suc bit)))))) l h z = omega arith

no_low_bits : (mode : ℕ) → ((bit : ℕ) → bit < 6 → mode / 2 ^ bit % 2 ≡ 0) → mode % 64 ≡ 0
no_low_bits mode h = omega (
  arith,
  h 0 (omega arith),
  h 1 (omega arith),
  h 2 (omega arith),
  h 3 (omega arith),
  h 4 (omega arith),
  h 5 (omega arith),
)

pub Loose-insecure : (w : World) → Loose w.dir → check_dir w ≡ err insecure_dir
unfolding check_dir reject_if
Loose-insecure w h = go w.dir h
  where
    go : (dir : Disk.Dir) → Loose dir → check_dir (record w { dir = dir }) ≡ err insecure_dir
    go _ Loose.no_directory = refl
    go _ (Loose.shared mode bit l set) = ground (arith, low_bit mode bit l set)

pub Private-checked : (w : World) → Private w.dir → check_dir w ≡ ok tt
unfolding check_dir reject_if
Private-checked w h = go w.dir h
  where
    go : (dir : Disk.Dir) → Private dir → check_dir (record w { dir = dir }) ≡ ok tt
    go _ (Private.unshared mode clear) = ground (arith, no_low_bits mode clear)

pub ensure_dir-checked : (w : World) → check_dir w ≡ ok tt → ensure_dir w ≡ (ok tt, w)
unfolding ensure_dir ensure_at check_dir
ensure_dir-checked w h = ground arith

pub ensure_dir-insecure :
    (w : World) → check_dir w ≡ err insecure_dir → ensure_dir w ≡ (err insecure_dir, w)
unfolding ensure_dir ensure_at check_dir
ensure_dir-insecure w h = ground arith
