-- ===== src/Keyfile/Create/Remains.antt =====
-- What `create_or_load` of identity-keyfile/src/keys.rs leaves of the directory.
use identity_crypto.Prelude.{◌≡◌, refl, Bool, true, false, not, ◌&&◌, all, any, if◌then◌else◌}
use identity_crypto.Prelude.Int.{ℤ}
use identity_crypto.Primitives.{Primitives, HexLaws, IsBytes}
use identity_crypto.Jwk.{Jwk, JwkLaws, KeyDuo}
use identity_crypto.Keys.{signing_public}
use identity_crypto.Keyfile.Disk
use identity_crypto.Keyfile.Disk.{
  agent_id_file, io, at_candidate, at_parent, Outcome, ok, err, panic, World,
}
use identity_crypto.Keyfile.Outcome.{reject_if}
use identity_crypto.Keyfile.Op.{After, After-follow, read-then}
use identity_crypto.Keyfile.Files.{DuoCodec, DuoLaws, Jsons, JsonsLaws, exists}
use identity_crypto.Keyfile.Identity.{IdentityKeys}
use identity_crypto.Keyfile.Load.{identity_exists, load_verified}
use identity_crypto.Keyfile.Store.{init}
use identity_crypto.Keyfile.Store.Initial.{init-load_verified}
use identity_crypto.Keyfile.Create.{
  Around, Listing, Removal, Renaming, make_temp, may_create, remove_dir, remove_if_only_lock,
  clear_dir, temp_dir, is_lock, rename_temp, place, create_identity, create_or_load,
}

-- The directory of a run that has not placed its temporary one.
data Cleared (before : World) : World → Type 0 where
  same : Cleared before before
  empty : (w : World) → exists w agent_id_file ≡ false → Cleared before w

module _ (K : Type 0) ⦃p : Primitives⦄ ⦃j : Jwk K⦄ ⦃c : DuoCodec K⦄ ⦃x : Jsons⦄ where
  -- A directory is as it was, as another process left it, without an `agent_id`, or complete.
  pub data Remains (a : Around) (before after : World) : Type 0 where
    unchanged : after ≡ before → Remains a before after
    of_other : after ≡ a.meanwhile → Remains a before after
    unmarked : exists after agent_id_file ≡ false → Remains a before after
    complete : (keys : IdentityKeys K) → load_verified after ≡ ok keys → Remains a before after

module _ (K : Type 0) ⦃p : Primitives⦄ ⦃j : Jwk K⦄ ⦃c : DuoCodec K⦄ ⦃x : Jsons⦄ where
  remove_dir-After :
      (a : Around) (r : Removal) (w : World)
      → After (λ (u : Unit {0}) v. Cleared w v) (Remains K a w) (remove_dir r w)
  unfolding remove_dir exists
  remove_dir-After a Removal.removed w = empty _ refl
  remove_dir-After a Removal.kept w = same
  remove_dir-After a Removal.failing w = unchanged refl

  remove_if_only_lock-After :
      (a : Around) (l : Listing) (r : Removal) (w : World)
      → After (λ (u : Unit {0}) v. Cleared w v) (Remains K a w) (remove_if_only_lock l r w)
  unfolding remove_if_only_lock
  remove_if_only_lock-After a (Listing.items es) r w = by_test (all is_lock es && any is_lock es)
    where
      by_test :
          (b : Bool)
          → After
              (λ (u : Unit {0}) v. Cleared w v)
              (Remains K a w)
              ((if b then remove_dir r else (λ v. (ok tt, v))) w)
      by_test true = remove_dir-After a r w
      by_test false = same
  remove_if_only_lock-After a Listing.gone r w = same
  remove_if_only_lock-After a Listing.failing r w = unchanged refl

  clear_dir-After :
      (a : Around) (w : World)
      → After (λ (u : Unit {0}) v. Cleared w v) (Remains K a w) (clear_dir a w)
  unfolding clear_dir
  clear_dir-After a w = by_dir w.dir
    where
      by_dir :
          (d : Disk.Dir)
          → After
              (λ (u : Unit {0}) v. Cleared w v)
              (Remains K a w)
              (elim d [
                | Disk.directory mode ↦ remove_if_only_lock a.listing a.removal w
                | _ ↦ (ok tt, w)
              ])
      by_dir (Disk.directory mode) = remove_if_only_lock-After a a.listing a.removal w
      by_dir Disk.nothing = same
      by_dir Disk.hidden = same
      by_dir Disk.other = same

module _ {K : Type 0} ⦃p : Primitives⦄ ⦃j : Jwk K⦄ ⦃c : DuoCodec K⦄ ⦃x : Jsons⦄ where
  Cleared-Remains : (a : Around) (before w : World) → Cleared before w → Remains K a before w
  Cleared-Remains a before _ same = unchanged refl
  Cleared-Remains a before w (empty _ e) = unmarked e

  loaded-After :
      (a : Around) (before v : World) (r : Outcome (IdentityKeys K))
      → load_verified v ≡ r
      → Remains K a before v
      → After (λ keys v. load_verified v ≡ ok keys) (Remains K a before) (r, v)
  loaded-After a before v (ok keys) e h = e
  loaded-After a before v (err e') e h = h
  loaded-After a before v panic e h = h

  rename_temp-After :
      (a : Around) (r : Renaming) (keys : IdentityKeys K) (before w temp : World)
      → load_verified temp ≡ ok keys
      → Cleared before w
      → After
          (λ keys v. load_verified v ≡ ok keys)
          (Remains K a before)
          (rename_temp r a keys temp w)
  unfolding rename_temp
  rename_temp-After a Renaming.renamed keys before w temp h g = synced a.parent_synced
    where
      synced :
          (b : Bool)
          → After
              (λ keys v. load_verified v ≡ ok keys)
              (Remains K a before)
              (if b then ok keys else err (io at_parent), temp)
      synced true = h
      synced false = complete keys h
  rename_temp-After a Renaming.collision keys before w temp h g =
      loaded-After a before a.meanwhile (load_verified a.meanwhile) refl (of_other refl)
  rename_temp-After a Renaming.failing keys before w temp h g = Cleared-Remains a before w g

  place-After :
      (a : Around) (r : Outcome (IdentityKeys K) × World) (before w : World)
      → ((keys : IdentityKeys K) (temp : World)
          → r ≡ (ok keys, temp)
          → load_verified temp ≡ ok keys)
      → Cleared before w
      → After (λ keys v. load_verified v ≡ ok keys) (Remains K a before) (place a r w)
  unfolding place
  place-After a (ok keys, temp) before w h g =
      read-then _ (reject_if (not a.temp_synced) (io at_candidate)) w _ (Remains K a before)
        (Cleared-Remains a before w g)
        λ u e. rename_temp-After a a.renaming keys before w temp (h keys temp refl) g
  place-After a (err e, temp) before w h g = Cleared-Remains a before w g
  place-After a (panic, temp) before w h g = Cleared-Remains a before w g

  -- Whatever happens around it, `create_or_load` returns only keys that `load_verified` gives of the directory
  -- that it leaves; if it returns none, the directory is as it was, as another process left it, without an
  -- `agent_id`, or one that `load_verified` accepts. The codecs and key pairs behave as documented, and the
  -- root's public key is bytes.
  pub create_or_load-Remains :
      JwkLaws K
      → DuoLaws c
      → JsonsLaws x
      → HexLaws p
      → (a : Around) (root device : KeyDuo K) (now ttl : ℤ) (before : World)
      → IsBytes (signing_public root).bytes
      → After
          (λ keys v. load_verified v ≡ ok keys)
          (Remains K a before)
          (create_or_load a root device now ttl before)
  unfolding create_or_load create_identity
  create_or_load-Remains laws duo json hex a root device now ttl before bytes =
      by_test (identity_exists before)
    where
      by_test :
          (b : Bool)
          → After
              (λ keys v. load_verified v ≡ ok keys)
              (Remains K a before)
              (if b
                then (load_verified before, before)
                else create_identity a root device now ttl before)
      by_test true = loaded-After a before before (load_verified before) refl (unchanged refl)
      by_test false =
          read-then _ (may_create before) before _ (Remains K a before) (unchanged refl) λ u1 e1.
            read-then _ (reject_if (not a.parent_ready) (io at_parent)) before _
              (Remains K a before) (unchanged refl)
              λ u2 e2.
                read-then _ (make_temp 8 a.attempts) before _ (Remains K a before) (unchanged refl)
                  λ u3 e3.
                    After-follow _ (λ (u : Unit {0}) v. Cleared before v) _ (Remains K a before)
                      (clear_dir a before) (clear_dir-After K a before)
                      λ u w g.
                        place-After a (init root device now ttl (temp_dir a)) before w
                          (λ keys temp e.
                            init-load_verified laws duo json hex root device now ttl (temp_dir a)
                              temp keys bytes e)
                          g
