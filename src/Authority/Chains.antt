-- ===== src/Authority/Chains.antt =====
-- Root chains of src/authority.rs: the step relation of `rotation_roots`.
use identity_crypto.Prelude.{
  ◌||◌, length-append, eq_of_not_ne, option_eq, suc, ◌≡◌, refl, sym, ap, ◌∙◌, true, false, some,
  List, [], ◌∷◌, ◌++◌, arith, length, take, drop, take-append-drop, Extends, contains, last?,
  list_eq, list_beq_iff,
}
use mathlib.Core.List.{append-nil, append_assoc}
use identity_crypto.Primitives.{Bytes, Primitives}
use identity_crypto.KeyTypes.{PublicKey, key_eq, key_beq_iff}
use identity_crypto.PublicKey.{to_pb}
use identity_crypto.Error.{ok, >>=-elim, reject_if-eq-ok, ok-injective}
use identity_crypto.Pb
use identity_crypto.Signature.{Signed, verify_p256-eq-ok}
use identity_crypto.Transcripts.Enc.Keys.{req-eq-ok}
use identity_crypto.Transcripts.Keys.{root_rotation_transcript}
use identity_crypto.Authority.{prefix_of, rotate, rotate_all, rotation_roots, first?}

pub prefix_of-Extends : (a b : List PublicKey) → prefix_of a b ≡ true → Extends a b
prefix_of-Extends a b h = (
  drop (length a) b,
  take-append-drop (length a) b ∙ ap (λ (x : List PublicKey). x ++ drop (length a) b) (sym same),
)
  where
    same : a ≡ take (length a) b
    same = ground (arith, list_beq_iff a (take (length a) b))

-- No key stands twice in the list.
abbrev pub NoRepeats : List PublicKey → Type 0
NoRepeats [] = Unit
NoRepeats (k ∷ ks) = (contains ks k ≡ false) × NoRepeats ks

contains-append :
    (xs ys : List PublicKey) (k : PublicKey)
    → contains (xs ++ ys) k ≡ (contains xs k || contains ys k)
contains-append [] ys k = refl
contains-append (x ∷ xs) ys k = ground (arith, contains-append xs ys k)

NoRepeats-snoc :
    (ks : List PublicKey) (k : PublicKey)
    → NoRepeats ks
    → contains ks k ≡ false
    → NoRepeats (ks ++ (k ∷ []))
NoRepeats-snoc [] k h fresh = (refl, tt)
NoRepeats-snoc (x ∷ xs) k (hx, hs) fresh = (
  ground (arith, contains-append xs (k ∷ []) x, key_beq_iff k x, key_beq_iff x k),
  NoRepeats-snoc xs k hs (ground arith),
)

module _ ⦃p : Primitives⦄ where
  -- One rotation, of the last root to a new one, under the last root's signature.
  pub record Rotated (genesis : PublicKey) (roots : List PublicKey) (r : Pb.RootRotation)
      (new : PublicKey) : Type 0 where
    pub old : PublicKey
    pub transcript : Bytes
    pub of_principal : r.principal_genesis ≡ some (to_pb genesis)
    pub of_old : r.old_root ≡ some (to_pb old)
    pub of_new : r.new_root ≡ some (to_pb new)
    pub old_is_last : some old ≡ last? roots
    pub new_is_fresh : contains roots new ≡ false
    pub covers : root_rotation_transcript r ≡ ok transcript
    pub signed : Signed old transcript r.signature

  -- The root chains that a genesis key and its rotations give, as a step relation.
  pub data RootChain (genesis : PublicKey) : List Pb.RootRotation → List PublicKey → Type 0 where
    start : RootChain genesis [] (genesis ∷ [])
    rotation :
        {rs : List Pb.RootRotation} {roots : List PublicKey} {r : Pb.RootRotation} {new : PublicKey}
        → RootChain genesis rs roots
        → Rotated genesis roots r new
        → RootChain genesis (rs ++ (r ∷ [])) (roots ++ (new ∷ []))

  pub rotate-eq-ok :
      (genesis : PublicKey) (roots out : List PublicKey) (r : Pb.RootRotation)
      → rotate genesis roots r ≡ ok out
      → (new : PublicKey) × Rotated genesis roots r new × (out ≡ roots ++ (new ∷ []))
  unfolding rotate
  rotate-eq-ok genesis roots out r h = >>=-elim _ _ h λ principal e1 h1. >>=-elim _ _ h1 λ _ e2 h2.
      >>=-elim _ _ h2 λ old e3 h3. >>=-elim _ _ h3 λ new e4 h4. >>=-elim _ _ h4 λ _ e5 h5.
        >>=-elim _ _ h5 λ _ e6 h6. >>=-elim _ _ h6 λ t e7 h7. >>=-elim _ _ h7 λ _ e8 h8.
          let same = eq_of_not_ne principal genesis (reject_if-eq-ok _ _ e2) in
          (
            new,
            record {
              old = old;
              transcript = t;
              of_principal = cc ((req-eq-ok _ _ principal e1).1, same);
              of_old = (req-eq-ok _ _ old e3).1;
              of_new = (req-eq-ok _ _ new e4).1;
              old_is_last = eq_of_not_ne (some old) (last? roots) (reject_if-eq-ok _ _ e5);
              new_is_fresh = reject_if-eq-ok _ _ e6;
              covers = e7;
              signed = verify_p256-eq-ok old t r.signature e8;
            },
            sym (ok-injective h8),
          )

  rotate_all-RootChain :
      (genesis : PublicKey) (past : List Pb.RootRotation) (roots : List PublicKey)
      (rs : List Pb.RootRotation) (out : List PublicKey)
      → RootChain genesis past roots
      → rotate_all genesis roots rs ≡ ok out
      → RootChain genesis (past ++ rs) out
  unfolding rotate_all
  rotate_all-RootChain genesis past roots [] out c h = rw (append-nil past, ← (ok-injective h)) c
  rotate_all-RootChain genesis past roots (r ∷ rs) out c h = >>=-elim _ _ h λ next e1 h1.
      let (new, step, is_next) = rotate-eq-ok genesis roots next r e1 in
      rw (← (append_assoc past (r ∷ []) rs)) (
        rotate_all-RootChain genesis (past ++ (r ∷ [])) next rs out
          (rw is_next (RootChain.rotation c step)) h1)

  -- What `rotation_roots` returns is the root chain of the genesis key and the rotations: each
  -- rotation names the genesis, goes from the last root to a root that is not in the chain, and
  -- carries the last root's signature over its transcript.
  pub rotation_roots-RootChain :
      (genesis : PublicKey) (rs : List Pb.RootRotation) (roots : List PublicKey)
      → rotation_roots genesis rs ≡ ok roots
      → RootChain genesis rs roots
  unfolding rotation_roots
  rotation_roots-RootChain genesis rs roots h =
      rotate_all-RootChain genesis [] _ rs roots RootChain.start h

  pub RootChain-NoRepeats :
      {genesis : PublicKey} {rs : List Pb.RootRotation} {roots : List PublicKey}
      → RootChain genesis rs roots
      → NoRepeats roots
  RootChain-NoRepeats RootChain.start = (refl, tt)
  RootChain-NoRepeats (RootChain.rotation {roots = roots} {new = new} c step) =
      NoRepeats-snoc roots new (RootChain-NoRepeats c) step.new_is_fresh

  pub RootChain-length :
      {genesis : PublicKey} {rs : List Pb.RootRotation} {roots : List PublicKey}
      → RootChain genesis rs roots
      → length roots ≡ suc (length rs)
  RootChain-length RootChain.start = refl
  RootChain-length (RootChain.rotation {rs = rs} {roots = roots} {r = r} {new = new} c step) =
      let ih = RootChain-length c in
      let a = length-append roots (new ∷ []) in let b = length-append rs (r ∷ []) in omega arith

  pub RootChain-first :
      {genesis : PublicKey} {rs : List Pb.RootRotation} {roots : List PublicKey}
      → RootChain genesis rs roots
      → (rest : List PublicKey) × (roots ≡ genesis ∷ rest)
  RootChain-first RootChain.start = ([], refl)
  RootChain-first (RootChain.rotation {new = new} c step) =
      let (rest, e) = RootChain-first c in
      (rest ++ (new ∷ []), ap (λ (x : List PublicKey). x ++ (new ∷ [])) e)

  -- The roots that `rotation_roots` returns are one more than the rotations, begin with the genesis
  -- key, and hold no key twice: a chain never comes back to a root that it left.
  pub rotation_roots-NoRepeats :
      (genesis : PublicKey) (rs : List Pb.RootRotation) (roots : List PublicKey)
      → rotation_roots genesis rs ≡ ok roots
      → NoRepeats roots × (length roots ≡ suc (length rs)) × (first? roots ≡ some genesis)
  rotation_roots-NoRepeats genesis rs roots h =
      let c = rotation_roots-RootChain genesis rs roots h in
      let (rest, e) = RootChain-first c in (RootChain-NoRepeats c, RootChain-length c, ap first? e)
