-- ===== src/Keyfile/Store/Roots.antt =====
-- `rotate_root` of identity-keyfile/src/keys.rs where any of its writes fails or is the last.
use identity_crypto.Prelude.{
  ◌≡◌, refl, sym, ap, ◌∙◌, Bool, true, false, Option, some, List, [], ◌∷◌, ◌++◌, arith, last?,
  contains, Bool-cases, inl, inr, ◌==◌, eq_self, eq_of, option_eq, if◌then◌else◌,
}
use identity_crypto.Prelude.Int.{ℤ}
use identity_crypto.Primitives.{Primitives}
use identity_crypto.KeyTypes.{PublicKey, PrincipalId, key_eq, key_beq_iff}
use identity_crypto.PublicKey.{IsKey, to_pb}
use identity_crypto.Error
use identity_crypto.Pb
use identity_crypto.Pb.Equality.{wire_key_eq}
use identity_crypto.Jwk.{Jwk, JwkLaws, KeyDuo, from_key_pair}
use identity_crypto.Authority.Chains.{RootChain, rotate-eq-ok}
use identity_crypto.Keys
use identity_crypto.Keys.{signing_public}
use identity_crypto.Keys.Accepted.{rotation-rotate}
use identity_crypto.Keyfile.Disk.{root_file, rotations_file, ok, World}
use identity_crypto.Keyfile.Outcome.{crypto_result, crypto_result-eq-ok}
use identity_crypto.Keyfile.Op.{After, read-then, read-known}
use identity_crypto.Keyfile.Files.{
  DuoCodec, DuoLaws, Jsons, JsonsLaws, check_dir, lock_exclusive, write_duo, write_rotations,
  write_json,
}
use identity_crypto.Keyfile.Files.Contents.{write_text-then}
use identity_crypto.Keyfile.Identity.{IdentityKeys}
use identity_crypto.Keyfile.Load.{load_files, load_locked, load_locked-load_files}
use identity_crypto.Keyfile.Load.Reads.{
  load_files-Reads, Reads-load_files, Reads-fates, Reads-root, Reads-rotations,
}
use identity_crypto.Keyfile.Store.{rotate_root, installed, is_pending, pop}

module _ {ℓ} {A : Type ℓ} where
  last-snoc : (xs : List A) (y : A) → last? (xs ++ (y ∷ [])) ≡ some y
  last-snoc [] y = refl
  last-snoc (x ∷ []) y = refl
  last-snoc (x ∷ z ∷ zs) y = last-snoc (z ∷ zs) y

  pop-snoc : (xs : List A) (y : A) → pop (xs ++ (y ∷ [])) ≡ xs
  pop-snoc [] y = refl
  pop-snoc (x ∷ []) y = refl
  pop-snoc (x ∷ z ∷ zs) y = ap (λ (l : List A). x ∷ l) (pop-snoc (z ∷ zs) y)

contains-last :
    (keys : List PublicKey) (k : PublicKey) → last? keys ≡ some k → contains keys k ≡ true
contains-last [] k h = cc
contains-last (x ∷ []) k h = ground (arith, key_beq_iff x k)
contains-last (x ∷ y ∷ ys) k h = ground (arith, contains-last (y ∷ ys) k h)

is_pending-snoc :
    (rs : List Pb.RootRotation) (r : Pb.RootRotation) (current : Pb.PublicKey)
    → is_pending (rs ++ (r ∷ [])) current ≡ (r.old_root == some current)
unfolding is_pending
is_pending-snoc rs r current = rw (last-snoc rs r, is_pending) refl

installed-pending :
    (rs : List Pb.RootRotation) (r : Pb.RootRotation) (current : Pb.PublicKey)
    → r.old_root ≡ some current
    → installed (rs ++ (r ∷ [])) current ≡ rs
unfolding installed
installed-pending rs r current h =
    ap (λ (b : Bool). if b then pop (rs ++ (r ∷ [])) else rs ++ (r ∷ []))
      (is_pending-snoc rs r current
        ∙ ap (λ (o : Option Pb.PublicKey). o == some current) h
        ∙ eq_self (some current))
    ∙ pop-snoc rs r

installed-not_pending :
    (rs : List Pb.RootRotation) (r : Pb.RootRotation) (old current : Pb.PublicKey)
    → r.old_root ≡ some old
    → (old == current) ≡ false
    → installed (rs ++ (r ∷ [])) current ≡ rs ++ (r ∷ [])
unfolding installed
installed-not_pending rs r old current h n =
    ap (λ (b : Bool). if b then pop (rs ++ (r ∷ [])) else rs ++ (r ∷ []))
      (is_pending-snoc rs r current ∙ ap (λ (o : Option Pb.PublicKey). o == some current) h ∙ n)

distinct :
    (roots : List PublicKey) (old new : PublicKey)
    → last? roots ≡ some old
    → contains roots new ≡ false
    → (old == new) ≡ false
distinct roots old new h fresh = elim (Bool-cases (old == new)) [
  | inl e ↦ (let c = contains-last roots old h in let same = eq_of old new e in cc)
  | inr e ↦ e
]

module _ {K : Type 0} ⦃p : Primitives⦄ ⦃j : Jwk K⦄ where
  -- The root on the disk is the last of the chain of the rotations that are installed.
  pub record Rooted (keys : IdentityKeys K) : Type 0 where
    pub roots : List PublicKey
    pub chain :
        RootChain keys.principal_id.genesis
          (installed keys.rotations (to_pb (signing_public keys.root)))
          roots
    pub is_last : last? roots ≡ some (signing_public keys.root)

  module _ (laws : JwkLaws K) where
    rotation-old_root :
        (old : KeyDuo K) (genesis : PrincipalId) (new : KeyDuo K) (now : ℤ) (r : Pb.RootRotation)
        → Keys.rotation old genesis new now ≡ Error.ok r
        → r.old_root ≡ some (to_pb (signing_public old))
    unfolding Keys.rotation
    rotation-old_root old genesis new now r h = Error.>>=-elim _ _ h λ t e1 h1.
        Error.>>=-elim _ _ h1 λ s e2 h2. ap (λ r. r.old_root) (sym (Error.ok-injective h2))

    to_pb-distinct :
        (a b : K)
        → (from_key_pair a == from_key_pair b) ≡ false
        → (to_pb (from_key_pair a) == to_pb (from_key_pair b)) ≡ false
    to_pb-distinct a b h = ground arith

    moved :
        {genesis : PublicKey} {rs rs' : List Pb.RootRotation} {roots roots' : List PublicKey}
        → rs ≡ rs'
        → roots ≡ roots'
        → RootChain genesis rs roots
        → RootChain genesis rs' roots'
    moved e e' chain = rw (← e, ← e') chain

    -- The disk after the first write of `rotate_root`, and after the second.
    rotated-Rooted :
        (old : IdentityKeys K) (rooted : Rooted old) (new : KeyDuo K) (now : ℤ)
        (signed : Pb.RootRotation)
        → IsKey old.principal_id.genesis
        → contains rooted.roots (signing_public new) ≡ false
        → Keys.rotation old.root old.principal_id new now ≡ Error.ok signed
        → let base = installed old.rotations (to_pb (signing_public old.root)) in
          Rooted (record old { rotations = base ++ (signed ∷ []) })
          × Rooted (record old { root = new; rotations = base ++ (signed ∷ []) })
          × (installed (base ++ (signed ∷ [])) (to_pb (signing_public new)) ≡ base ++ (signed ∷ []))
    rotated-Rooted old rooted new now signed key fresh h =
        let base = installed old.rotations (to_pb (signing_public old.root)) in
        let from = rotation-old_root old.root old.principal_id new now signed h in
        let same = installed-pending base signed (to_pb (signing_public old.root)) from in
        let other = to_pb-distinct old.root.signing_key_pair new.signing_key_pair (
          distinct rooted.roots (signing_public old.root) (signing_public new) rooted.is_last
            fresh) in
        let all =
          installed-not_pending base signed (to_pb (signing_public old.root))
            (to_pb (signing_public new)) from other in
        let (new', step, out) = rotate-eq-ok old.principal_id.genesis rooted.roots _ signed (
          rotation-rotate laws old.root old.principal_id new now signed rooted.roots key h
            rooted.is_last fresh) in
        (
          record {
            roots = rooted.roots;
            chain = moved (sym same) refl rooted.chain;
            is_last = rooted.is_last;
          },
          record {
            roots = rooted.roots ++ (signing_public new ∷ []);
            chain = moved (sym all) (sym out) (RootChain.rotation rooted.chain step);
            is_last = last-snoc rooted.roots (signing_public new);
          },
          all,
        )

    -- Whatever comes of its writes, `rotate_root` keeps the directory's root the last of its installed
    -- chain, for the same principal; if it returns a rotation, the directory's root is the new one and the
    -- chain is the installed one with this rotation. The principal's key is a P-256 point, the new root's
    -- public key is not in the chain, and the codecs behave as documented.
    pub rotate_root-Rooted :
        ⦃c : DuoCodec K⦄ ⦃x : Jsons⦄
        → DuoLaws c
        → JsonsLaws x
        → (old : IdentityKeys K) (new : KeyDuo K) (now : ℤ) (before : World)
        → load_locked before ≡ ok old
        → IsKey old.principal_id.genesis
        → (rooted : Rooted old) → contains rooted.roots (signing_public new) ≡ false
        → After
            (λ signed v.
              let keys = record old {
                root = new;
                rotations =
                    installed old.rotations (to_pb (signing_public old.root)) ++ (signed ∷ []);
              } in
              (load_files v ≡ ok keys)
              × Rooted keys
              × (installed keys.rotations (to_pb (signing_public keys.root)) ≡ keys.rotations))
            (λ v.
              (keys : IdentityKeys K) × (load_files v ≡ ok keys)
              × (keys.principal_id ≡ old.principal_id)
              × Rooted keys)
            (rotate_root new now before)
    unfolding rotate_root write_rotations write_json write_duo
    rotate_root-Rooted duo json old new now before h key rooted fresh =
        let base = installed old.rotations (to_pb (signing_public old.root)) in
        let r = load_files-Reads before old (load_locked-load_files before old h) in
        let kept : Left old before = (old, Reads-load_files before old r, refl, rooted) in
        read-then _ (check_dir before) before _ (Left old) kept λ u1 e1.
          read-then _ (lock_exclusive before) before _ (Left old) kept λ u2 e2.
            read-known _ (load_locked before) old before _ (Left old) h λ u3.
              read-then _ (crypto_result (Keys.rotation old.root old.principal_id new now)) before _
                (Left old) kept
                λ signed e3.
                  let (one, two, all) =
                    rotated-Rooted old rooted new now signed key fresh (crypto_result-eq-ok _ e3) in
                  write_text-then _ rotations_file _ (Left old) _ _ before
                    (λ f. (old, Reads-load_files _ _ (Reads-fates old before r f), refl, rooted))
                    (λ b f e. (
                      _,
                      Reads-load_files _ _ (Reads-rotations old before r f json b _ e),
                      refl,
                      one,
                    ))
                    λ b f e.
                      let r' = Reads-rotations old before r f json b (base ++ (signed ∷ [])) e in
                      write_text-then _ root_file _ (Left old) _ _ _
                        (λ f'. (_, Reads-load_files _ _ (Reads-fates _ _ r' f'), refl, one))
                        (λ b' f' e'.
                          (_, Reads-load_files _ _ (Reads-root _ _ r' f' duo b' new e'), refl, two))
                        λ b' f' e'.
                          (Reads-load_files _ _ (Reads-root _ _ r' f' duo b' new e'), two, all)
      where
        Left : IdentityKeys K → World → Type 0
        Left old v =
            (keys : IdentityKeys K) × (load_files v ≡ ok keys)
            × (keys.principal_id ≡ old.principal_id)
            × Rooted keys
