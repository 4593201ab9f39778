-- ===== src/Runs/Agents.antt =====
-- The operations of identity-keyfile/src/keys.rs on a concrete directory.
use identity_crypto.Prelude.{
  true, ℕ, zero, suc, ◌<◌, ◌/◌, ◌%◌, ◌^◌, inr, ◌≡◌, ◌⊎◌, refl, false, none, some, [], ◌∷◌, ◌++◌,
  arith,
}
use identity_crypto.Prelude.Int.{pos, saturating_add, ◌+ℤ◌}
use identity_crypto.KeyTypes.{key_eq}
use identity_crypto.PublicKey.{to_pb, p256, try_from, or_invalid_key}
use identity_crypto.Error
use identity_crypto.Error.{chain_mismatch}
use identity_crypto.Pb
use identity_crypto.Principal.{parse_canonical, parse, to_string, decoded}
use identity_crypto.Transcripts.Enc
use identity_crypto.Transcripts.Enc.{req, opt_try, non_empty}
use identity_crypto.Transcripts.Keys.{key_delegation_transcript, signing_purpose, encryption_half}
use identity_crypto.Authority.Chains.{RootChain}
use identity_crypto.Session.{sign}
use identity_crypto.Keys.{delegate_device, device_delegation, sign_key_delegation}
use identity_crypto.Verify.Time.{check_unlisted_span}
use identity_crypto.Keyfile.Disk
use identity_crypto.Keyfile.Outcome
use identity_crypto.Pb.Equality
use identity_crypto.PublicKey
use identity_crypto.Keyfile.Disk.{
  ok, err, World, Fate, agent_id_file, rotations_file, crypto, insecure_dir, already_initialised,
}
use identity_crypto.Keyfile.Op.{After}
use identity_crypto.Keyfile.Text.{from_utf8, trim}
use identity_crypto.Keyfile.Files.{
  read_duo, read_bytes, read_delegation, read_history, read_rotations, read_optional,
  read_principal_id, parse_file, or_parse, check_dir, ensure_dir, ensure_at, lock_exclusive, exists,
  write_duo, write_text, write_private, write_next, write_with, write_delegation, write_json,
  write_history, write_rotations, write_principal_id,
}
use identity_crypto.Keyfile.Identity.{
  IdentityKeys, check_delegation, accept_all_retired, device_keys_at_public, retire_keys,
}
use identity_crypto.Keyfile.Identity.AcceptedKeys.{
  device_keys_at_public-distinct, distinct, keys_at,
}
use identity_crypto.Keyfile.Identity.Retirement.{retire_keys-device_keys_at}
use identity_crypto.Keyfile.Load.{
  load_files, load_locked, load_locked-load_files, load, load_verified, load_device, read_principal,
}
use identity_crypto.Keyfile.Load.Verified.{Verified, load_verified-Verified}
use identity_crypto.Keyfile.Load.Parts.{read_principal-load_verified, load_device-load}
use identity_crypto.Keyfile.Store.{
  renew_if_due, save, init, renew, rotate_root, write_all_files, check_uninitialised, installed,
  is_pending,
}
use identity_crypto.Keyfile.Store.RoundTrip.{save-load}
use identity_crypto.Keyfile.Store.Initial.{init-load_verified}
use identity_crypto.Keyfile.Store.Crash.{init-load_verified_or_unmarked}
use identity_crypto.Keyfile.Store.Renewal.{Renewing, renew-Renewing}
use identity_crypto.Keyfile.Store.Roots.{Rooted, rotate_root-Rooted}
use identity_crypto.Keyfile.Create.{
  Around, Making, Listing, Item, Removal, Renaming, create_or_load,
}
use identity_crypto.Keyfile.Create.Remains.{Remains, create_or_load-Remains}
use identity_crypto.Keyfile.Store.Due.{Renewed, renew_if_due-Renewed}
use identity_crypto.Keyfile.Store.Refused.{
  insecure-refused, init-refused, overlong, overlong-refused,
}
use identity_crypto.Keyfile.Files.Access.{Loose, Private}
use identity_crypto.Runs.{toy, key, alice, device}
use identity_crypto.Runs.Encodings.{toy-HexLaws}
use identity_crypto.Runs.Keyfiles.{
  toy_jwk, toy-JwkLaws, key-IsKey, duo, toy_duo_codec, toy-DuoLaws, toy_jsons, toy-JsonsLaws, agent,
  agent_dir, no_dir, loose_dir, retired_device,
}

-- `agent_dir` after the whole agent is saved in a directory that is not there.
abbrev saved : World
saved = (save agent no_dir).1

is_saved : save agent no_dir ≡ (ok tt, saved)
unfolding save ensure_dir ensure_at check_dir Outcome.reject_if lock_exclusive write_all_files
    write_duo write_text write_private write_next write_with write_delegation write_json
    Equality.delegation_beq write_history write_rotations write_principal_id to_string
    PublicKey.to_hex
is_saved = refl

loaded : load saved ≡ ok agent
loaded =
    save-load toy-DuoLaws toy-JsonsLaws toy-HexLaws agent no_dir saved (key-IsKey 1) (ground arith)
      refl is_saved

save-load_example : load saved ≡ ok agent
save-load_example =
    save-load toy-DuoLaws toy-JsonsLaws toy-HexLaws agent no_dir saved (key-IsKey 1) (ground arith)
      refl is_saved

initialised : init (duo 1 2) (duo 3 5) (pos 100) (pos 8900) no_dir ≡ (ok agent, saved)
unfolding save init ensure_dir ensure_at check_dir Outcome.reject_if lock_exclusive write_all_files
    write_duo write_text write_private write_next write_with write_delegation write_json
    Equality.delegation_beq write_history write_rotations write_principal_id to_string
    PublicKey.to_hex Outcome.crypto_result delegate_device check_unlisted_span device_delegation
    sign_key_delegation sign key_delegation_transcript Error.◌>>=◌ req try_from p256 or_invalid_key
    signing_purpose encryption_half opt_try Enc.key Enc.u8 Enc.var Enc.opt_key saturating_add
    check_uninitialised exists
initialised = refl

verified : load_verified saved ≡ ok agent
verified =
    init-load_verified toy-JwkLaws toy-DuoLaws toy-JsonsLaws toy-HexLaws (duo 1 2) (duo 3 5)
      (pos 100) (pos 8900) no_dir saved agent (ground arith) initialised

load_verified-Verified_example : Verified agent
load_verified-Verified_example = load_verified-Verified saved agent verified

read_principal-load_verified_example : read_principal saved ≡ ok (some alice)
read_principal-load_verified_example = read_principal-load_verified toy-JwkLaws saved agent verified

load_device-load_example :
    load_device saved
    ≡ ok (record { device = duo 3 5; delegation = device; principal_id = alice; retired = [] })
load_device-load_example = load_device-load saved agent loaded

-- The agent's directory as it reads.
agent_reads : load_locked agent_dir ≡ ok agent
unfolding load_locked Outcome.◌>>=◌ check_dir load_files read_duo read_bytes from_utf8
    read_delegation parse_file read_principal_id to_string or_parse parse_canonical Error.◌>>=◌
    parse trim decoded p256 Error.ok_or Error.reject_if read_history read_optional read_rotations
    check_delegation Outcome.ok_or Outcome.reject_if or_invalid_key PublicKey.to_hex
agent_reads = refl

agent_files_read : load_files agent_dir ≡ ok agent
agent_files_read = load_locked-load_files agent_dir agent agent_reads

init-load_verified_or_unmarked_example :
    After
      (λ keys v. load_verified v ≡ ok keys)
      (λ v.
        (exists v agent_id_file ≡ false) ⊎ ((keys : IdentityKeys ℕ) × (load_verified v ≡ ok keys)))
      (init
        (duo 1 2)
        (duo 3 5)
        (pos 100)
        (pos 8900)
        (record no_dir { fates = Fate.done ∷ Fate.fails Disk.rename ∷ [] }))
unfolding exists
init-load_verified_or_unmarked_example =
    init-load_verified_or_unmarked toy-JwkLaws toy-DuoLaws toy-JsonsLaws toy-HexLaws (duo 1 2)
      (duo 3 5) (pos 100) (pos 8900)
      (record no_dir { fates = Fate.done ∷ Fate.fails Disk.rename ∷ [] }) (ground arith) refl

renew-Renewing_example :
    After
      (λ keys v. (load_files v ≡ ok keys) × Renewing agent (pos 500) (some (duo 6 7)) keys)
      (λ v.
        (keys : IdentityKeys ℕ) × (load_files v ≡ ok keys)
        × Renewing agent (pos 500) (some (duo 6 7)) keys)
      (renew (pos 500) (pos 9000) (some (duo 6 7)) agent_dir)
renew-Renewing_example =
    renew-Renewing toy-DuoLaws toy-JsonsLaws agent (pos 500) (pos 9000) (some (duo 6 7)) agent_dir
      agent_files_read

rooted : Rooted agent
unfolding installed is_pending
rooted = record { roots = key 1 ∷ []; chain = RootChain.start; is_last = refl }

rotate_root-Rooted_example :
    After
      (λ signed v.
        let keys = record agent {
          root = duo 8 9;
          rotations = installed [] (to_pb (key 1)) ++ (signed ∷ []);
        } in
        (load_files v ≡ ok keys)
        × Rooted keys
        × (installed keys.rotations (to_pb (key 8)) ≡ keys.rotations))
      (λ v.
        (keys : IdentityKeys ℕ) × (load_files v ≡ ok keys)
        × (keys.principal_id ≡ alice)
        × Rooted keys)
      (rotate_root (duo 8 9) (pos 600) agent_dir)
unfolding rooted
rotate_root-Rooted_example =
    rotate_root-Rooted toy-JwkLaws toy-DuoLaws toy-JsonsLaws agent (duo 8 9) (pos 600) agent_dir
      agent_reads (key-IsKey 1) rooted refl

device_keys_at_public-distinct_example :
    device_keys_at_public (key 6) (retired_device ∷ retired_device ∷ []) (pos 400)
    ≡ distinct (key 6 ∷ keys_at (pos 400) (retired_device ∷ retired_device ∷ []))
device_keys_at_public-distinct_example =
    device_keys_at_public-distinct (key 6) (retired_device ∷ retired_device ∷ []) (pos 400)

retire_keys-device_keys_at_example :
    device_keys_at_public (key 6) (retire_keys [] (key 3) (key 5) (pos 500)) (pos 500)
    ≡ key 6 ∷ key 3 ∷ []
unfolding device_keys_at_public accept_all_retired
retire_keys-device_keys_at_example =
    retire_keys-device_keys_at (key 6) (key 3) (key 5) [] (pos 500) (pos 500) (key-IsKey 3) refl tt

insecure-refused_example :
    (load {K = ℕ} loose_dir ≡ err insecure_dir)
    × (load_verified {K = ℕ} loose_dir ≡ err insecure_dir)
    × (load_device {K = ℕ} loose_dir ≡ err insecure_dir)
    × (save agent loose_dir ≡ (err insecure_dir, loose_dir))
    × (init (duo 1 2) (duo 3 5) (pos 100) (pos 50) loose_dir ≡ (err insecure_dir, loose_dir))
    × (renew {K = ℕ} (pos 100) (pos 50) none loose_dir ≡ (err insecure_dir, loose_dir))
    × (rotate_root (duo 1 2) (pos 100) loose_dir ≡ (err insecure_dir, loose_dir))
unfolding check_dir Outcome.reject_if
insecure-refused_example =
    insecure-refused loose_dir agent (duo 1 2) (duo 3 5) none (pos 100) (pos 50)
      (Loose.shared 488 3 (omega arith) refl)

-- A directory where only the file of the rotations is left.
abbrev cleared_dir : World
cleared_dir = Disk.replaced rotations_file [] (record agent_dir { files = λ f. Disk.absent })

clear_bit : (bit : ℕ) → bit < 6 → 448 / 2 ^ bit % 2 ≡ 0
clear_bit zero l = refl
clear_bit (suc zero) l = refl
clear_bit (suc (suc zero)) l = refl
clear_bit (suc (suc (suc zero))) l = refl
clear_bit (suc (suc (suc (suc zero)))) l = refl
clear_bit (suc (suc (suc (suc (suc zero))))) l = refl
clear_bit (suc (suc (suc (suc (suc (suc bit)))))) l = omega arith

init-refused_example :
    init (duo 1 2) (duo 3 5) (pos 100) (pos 8900) cleared_dir
    ≡ (err already_initialised, cleared_dir)
unfolding exists
init-refused_example =
    init-refused cleared_dir no_dir saved rotations_file (duo 1 2) (duo 3 5) (pos 100) (pos 8900)
      agent initialised (Private.unshared 448 clear_bit) refl refl

overlong-refused_example :
    (init (duo 1 2) (duo 3 5) (pos 100) (pos 2_678_401) agent_dir
      ≡ (err (crypto overlong), agent_dir))
    × (renew {K = ℕ} (pos 100) (pos 2_678_401) none agent_dir ≡ (err (crypto overlong), agent_dir))
unfolding ◌+ℤ◌
overlong-refused_example =
    overlong-refused agent_dir agent (duo 1 2) (duo 3 5) none (pos 100) (pos 2_678_401)
      (Private.unshared 448 clear_bit) refl agent_files_read (omega arith) (omega arith)
      (inr (omega arith))

-- Another process has made an agent when this one is to take the directory's place.
abbrev late : Around
late = record {
  parent_ready = true;
  attempts = Making.taken ∷ Making.made ∷ [];
  listing = Listing.items (Item.lock_file ∷ []);
  removal = Removal.removed;
  temp_lock = Disk.granted;
  temp_fates = [];
  temp_synced = true;
  renaming = Renaming.collision;
  meanwhile = saved;
  parent_synced = true;
}

create_or_load-Remains_example :
    After
      (λ keys v. load_verified v ≡ ok keys)
      (Remains ℕ late no_dir)
      (create_or_load late (duo 1 2) (duo 3 5) (pos 100) (pos 8900) no_dir)
create_or_load-Remains_example =
    create_or_load-Remains toy-JwkLaws toy-DuoLaws toy-JsonsLaws toy-HexLaws late (duo 1 2)
      (duo 3 5) (pos 100) (pos 8900) no_dir (ground arith)

renew_if_due-Renewed_example :
    After
      (λ out v. Renewed agent (pos 500) (pos 9000) (pos 8500) out × (load_files v ≡ ok out.1))
      (λ v. (d : Pb.KeyDelegation) × (load_files v ≡ ok (record agent { delegation = d })))
      (renew_if_due agent true (pos 500) (pos 9000) (pos 8500) agent_dir)
renew_if_due-Renewed_example =
    renew_if_due-Renewed toy-JsonsLaws agent (pos 500) (pos 9000) (pos 8500) agent_dir
      agent_files_read
