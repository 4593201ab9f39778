-- ===== src/Keyfile/Load/Reads.antt =====
-- `load_files` of identity-keyfile/src/keys.rs, read by read, and what a replaced file changes of it.
use identity_crypto.Prelude.{◌≡◌, refl, some, List, []}
use identity_crypto.Primitives.{Str, Primitives}
use identity_crypto.Pb
use identity_crypto.Jwk.{KeyDuo}
use identity_crypto.Keyfile.Disk.{
  root_file, device_file, delegation_file, history_file, rotations_file, ok, World, Fate, replaced,
}
use identity_crypto.Keyfile.Outcome.{>>=-elim, >>=-ok, ok-injective}
use identity_crypto.Keyfile.Files.{
  DuoCodec, DuoLaws, Jsons, JsonsLaws, read_bytes, parse_file, read_optional, read_duo,
  read_delegation, read_history, read_rotations, read_principal_id,
}
use identity_crypto.Keyfile.Files.Contents.{read_duo-Holds, parse_file-Holds, read_optional-Holds}
use identity_crypto.Keyfile.Identity.{IdentityKeys}
use identity_crypto.Keyfile.Load.{load_files}

module _ {K : Type 0} ⦃c : DuoCodec K⦄ ⦃x : Jsons⦄ ⦃p : Primitives⦄ where
  -- What each file reads as.
  pub record Reads (keys : IdentityKeys K) (w : World) : Type 0 where
    pub root : read_duo w root_file ≡ ok keys.root
    pub device : read_duo w device_file ≡ ok keys.device
    pub delegation : read_delegation w ≡ ok keys.delegation
    pub agent_id : read_principal_id w ≡ ok keys.principal_id
    pub history : read_history w ≡ ok (record { retired = keys.retired })
    pub rotations : read_rotations w ≡ ok (record { rotations = keys.rotations })

  pub load_files-Reads : (w : World) (keys : IdentityKeys K) → load_files w ≡ ok keys → Reads keys w
  unfolding load_files
  load_files-Reads w keys h = >>=-elim _ _ h λ root e1 h1. >>=-elim _ _ h1 λ device e2 h2.
      >>=-elim _ _ h2 λ delegation e3 h3. >>=-elim _ _ h3 λ id e4 h4.
        >>=-elim _ _ h4 λ history e5 h5. >>=-elim _ _ h5 λ rotations e6 h6.
          rw (← (ok-injective h6)) (record {
            root = e1;
            device = e2;
            delegation = e3;
            agent_id = e4;
            history = e5;
            rotations = e6;
          })

  pub Reads-load_files : (w : World) (keys : IdentityKeys K) → Reads keys w → load_files w ≡ ok keys
  unfolding load_files
  Reads-load_files w keys r = >>=-ok _ _ r.root (
      >>=-ok _ _ r.device (
        >>=-ok _ _ r.delegation
          (>>=-ok _ _ r.agent_id (>>=-ok _ _ r.history (>>=-ok _ _ r.rotations refl)))))

  module _ (keys : IdentityKeys K) (w : World) (r : Reads keys w) (fates : List Fate) where
    pub Reads-fates : Reads keys (record w { fates = fates })
    unfolding read_duo read_delegation read_history read_rotations read_principal_id parse_file
        read_optional read_bytes
    Reads-fates = record {
      root = r.root;
      device = r.device;
      delegation = r.delegation;
      agent_id = r.agent_id;
      history = r.history;
      rotations = r.rotations;
    }

    module _ (duo : DuoLaws c) (b : Str) where
      pub Reads-root :
          (new : KeyDuo K)
          → c.export_key_duo_jwk new ≡ some b
          → Reads (record keys { root = new }) (replaced root_file b (record w { fates = fates }))
      unfolding read_duo read_delegation read_history read_rotations read_principal_id parse_file
          read_optional read_bytes
      Reads-root new e = record {
        root =
            read_duo-Holds duo (replaced root_file b (record w { fates = fates })) root_file new
              (record { bytes = b; printed = e; there = refl });
        device = r.device;
        delegation = r.delegation;
        agent_id = r.agent_id;
        history = r.history;
        rotations = r.rotations;
      }

      pub Reads-device :
          (new : KeyDuo K)
          → c.export_key_duo_jwk new ≡ some b
          → Reads
              (record keys { device = new })
              (replaced device_file b (record w { fates = fates }))
      unfolding read_duo read_delegation read_history read_rotations read_principal_id parse_file
          read_optional read_bytes
      Reads-device new e = record {
        root = r.root;
        device =
            read_duo-Holds duo (replaced device_file b (record w { fates = fates })) device_file new
              (record { bytes = b; printed = e; there = refl });
        delegation = r.delegation;
        agent_id = r.agent_id;
        history = r.history;
        rotations = r.rotations;
      }

    module _ (json : JsonsLaws x) (b : Str) where
      pub Reads-delegation :
          (new : Pb.KeyDelegation)
          → x.delegation_json.to_string_pretty new ≡ some b
          → Reads
              (record keys { delegation = new })
              (replaced delegation_file b (record w { fates = fates }))
      unfolding read_duo read_delegation read_history read_rotations read_principal_id parse_file
          read_optional read_bytes
      Reads-delegation new e = record {
        root = r.root;
        device = r.device;
        delegation =
            parse_file-Holds x.delegation_json json.delegation
              (replaced delegation_file b (record w { fates = fates })) delegation_file new
              (record { bytes = b; printed = e; there = refl });
        agent_id = r.agent_id;
        history = r.history;
        rotations = r.rotations;
      }

      pub Reads-history :
          (new : List Pb.RetiredDevice)
          → x.history_json.to_string_pretty (record { retired = new }) ≡ some b
          → Reads
              (record keys { retired = new })
              (replaced history_file b (record w { fates = fates }))
      unfolding read_duo read_delegation read_history read_rotations read_principal_id parse_file
          read_optional read_bytes
      Reads-history new e = record {
        root = r.root;
        device = r.device;
        delegation = r.delegation;
        agent_id = r.agent_id;
        history =
            read_optional-Holds x.history_json json.history
              (replaced history_file b (record w { fates = fates })) history_file
              (record { retired = new }) (record { bytes = b; printed = e; there = refl })
              (record { retired = [] });
        rotations = r.rotations;
      }

      pub Reads-rotations :
          (new : List Pb.RootRotation)
          → x.rotations_json.to_string_pretty (record { rotations = new }) ≡ some b
          → Reads
              (record keys { rotations = new })
              (replaced rotations_file b (record w { fates = fates }))
      unfolding read_duo read_delegation read_history read_rotations read_principal_id parse_file
          read_optional read_bytes
      Reads-rotations new e = record {
        root = r.root;
        device = r.device;
        delegation = r.delegation;
        agent_id = r.agent_id;
        history = r.history;
        rotations =
            read_optional-Holds x.rotations_json json.rotations
              (replaced rotations_file b (record w { fates = fates })) rotations_file
              (record { rotations = new }) (record { bytes = b; printed = e; there = refl })
              (record { rotations = [] });
      }
