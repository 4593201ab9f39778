-- ===== src/Keyfile/Identity/AcceptedKeys.antt =====
-- `device_keys_at` of identity-keyfile/src/keys.rs, and what it is meant to give.
use identity_crypto.Prelude.{
  ◌≡◌, refl, sym, ap, ◌∙◌, Bool, true, false, not, ◌&&◌, ◌||◌, Bool-cases, inl, inr, Option, none,
  some, List, [], ◌∷◌, ◌++◌, arith, contains, ◌==◌, if◌then◌else◌,
}
use identity_crypto.Prelude.Int.{ℤ, ltb_ℤ}
use identity_crypto.Primitives.{Primitives}
use identity_crypto.KeyTypes.{PublicKey, key_eq, key_beq_iff}
use identity_crypto.PublicKey.{try_from}
use identity_crypto.Error
use identity_crypto.Pb
use identity_crypto.Keyfile.Identity.{accept_retired, accept_all_retired, device_keys_at_public}

abbrev pub keep {ℓ} : {A : Type ℓ} → (A → Bool) → List A → List A
keep f [] = []
keep f (x ∷ xs) = if f x then x ∷ keep f xs else keep f xs

-- A list without the repetitions of its elements.
abbrev pub distinct : List PublicKey → List PublicKey
distinct [] = []
distinct (k ∷ ks) = k ∷ keep (λ other. not (k == other)) (distinct ks)

module _ ⦃p : Primitives⦄ where
  -- The key of an entry that was retired at the time or after it, where it is a valid key.
  unfoldable pub key_at : ℤ → Pb.RetiredDevice → Option PublicKey
  key_at at r = if ltb_ℤ r.retired_at_unix_seconds at then none else elim r.signing [
    | none ↦ none
    | some wire ↦ elim (try_from wire) [ Error.ok k ↦ some k | _ ↦ none ]
  ]

  abbrev pub cons_key : Option PublicKey → List PublicKey → List PublicKey
  cons_key none ks = ks
  cons_key (some k) ks = k ∷ ks

  abbrev pub keys_at : ℤ → List Pb.RetiredDevice → List PublicKey
  keys_at at [] = []
  keys_at at (r ∷ rs) = cons_key (key_at at r) (keys_at at rs)

keep-of_same {ℓ} :
    {A : Type ℓ} (f g : A → Bool) → ((x : A) → f x ≡ g x) → (xs : List A) → keep f xs ≡ keep g xs
keep-of_same f g h [] = refl
keep-of_same {A = A} f g h (x ∷ xs) =
    rw (h x) (ap (λ (l : List A). if g x then x ∷ l else l) (keep-of_same f g h xs))

keep-keep {ℓ} :
    {A : Type ℓ} (f g : A → Bool) (xs : List A) → keep f (keep g xs) ≡ keep (λ x. g x && f x) xs
keep-keep f g [] = refl
keep-keep f g (x ∷ xs) = let e = keep-keep f g xs in ground arith

pub contains-snoc :
    (ks : List PublicKey) (k y : PublicKey)
    → contains (ks ++ (k ∷ [])) y ≡ (contains ks y || k == y)
contains-snoc [] k y = ground arith
contains-snoc (x ∷ xs) k y = let e = contains-snoc xs k y in ground arith

abbrev unseen : List PublicKey → PublicKey → Bool
unseen seen k = not (contains seen k)

keep-unseen-seen :
    (seen ks : List PublicKey) (k : PublicKey)
    → contains seen k ≡ true
    → keep (unseen seen) (keep (λ other. not (k == other)) ks) ≡ keep (unseen seen) ks
keep-unseen-seen seen ks k h =
    keep-keep (unseen seen) (λ other. not (k == other)) ks
    ∙ keep-of_same (λ other. not (k == other) && unseen seen other) (unseen seen) same ks
  where
    same : (y : PublicKey) → (not (k == y) && unseen seen y) ≡ unseen seen y
    same y = elim (Bool-cases (k == y)) [
      | inl e ↦ (let g = ap (contains seen) (sym ((key_beq_iff k y).0 e)) ∙ h in ground arith)
      | inr e ↦ ground arith
    ]

keep-unseen-snoc :
    (seen ks : List PublicKey) (k : PublicKey)
    → keep (unseen seen) (keep (λ other. not (k == other)) ks) ≡ keep (unseen (seen ++ (k ∷ []))) ks
keep-unseen-snoc seen ks k =
    keep-keep (unseen seen) (λ other. not (k == other)) ks
    ∙ keep-of_same (λ other. not (k == other) && unseen seen other) (unseen (seen ++ (k ∷ []))) same
        ks
  where
    same : (y : PublicKey) → (not (k == y) && unseen seen y) ≡ unseen (seen ++ (k ∷ [])) y
    same y = let e = contains-snoc seen k y in ground arith

append_assoc : (a b c : List PublicKey) → (a ++ b) ++ c ≡ a ++ (b ++ c)
append_assoc [] b c = refl
append_assoc (x ∷ a) b c = ap (λ (l : List PublicKey). x ∷ l) (append_assoc a b c)

append_nil : (a : List PublicKey) → a ++ [] ≡ a
append_nil [] = refl
append_nil (x ∷ a) = ap (λ (l : List PublicKey). x ∷ l) (append_nil a)

-- One round of the loop, by the key of its entry.
abbrev pub accept_key : PublicKey → List PublicKey → Option PublicKey → List PublicKey
accept_key current seen none = seen
accept_key current seen (some k) =
    if k == current || contains seen k then seen else seen ++ (k ∷ [])

module _ ⦃p : Primitives⦄ where
  pub accept_retired-key_at :
      (current : PublicKey) (at : ℤ) (seen : List PublicKey) (r : Pb.RetiredDevice)
      → accept_retired current at seen r ≡ accept_key current seen (key_at at r)
  unfolding accept_retired key_at
  accept_retired-key_at current at seen r = ground arith

  accept_key-seen :
      (current : PublicKey) (seen : List PublicKey) (k : PublicKey)
      → contains seen k ≡ true
      → accept_key current seen (some k) ≡ seen
  accept_key-seen current seen k h = ground arith

  accept_key-new :
      (current : PublicKey) (seen : List PublicKey) (k : PublicKey)
      → contains seen current ≡ true
      → contains seen k ≡ false
      → accept_key current seen (some k) ≡ seen ++ (k ∷ [])
  accept_key-new current seen k h n = elim (Bool-cases (k == current)) [
    | inl e ↦ absurd (let g = ap (contains seen) ((key_beq_iff k current).0 e) in ground arith)
    | inr e ↦ ground arith
  ]

  -- What the loop comes to, from the keys that it has seen.
  unfoldable FromSeen : PublicKey → ℤ → List Pb.RetiredDevice → Type 0
  FromSeen current at rs =
      (seen : List PublicKey)
      → contains seen current ≡ true
      → accept_all_retired current at seen rs
        ≡ seen ++ keep (unseen seen) (distinct (keys_at at rs))

  round :
      (current : PublicKey) (at : ℤ) (rs : List Pb.RetiredDevice)
      → FromSeen current at rs
      → (seen : List PublicKey) (o : Option PublicKey) → contains seen current ≡ true
      → accept_all_retired current at (accept_key current seen o) rs
        ≡ seen ++ keep (unseen seen) (distinct (cons_key o (keys_at at rs)))
  unfolding FromSeen
  round current at rs ih seen none h = ih seen h
  round current at rs ih seen (some k) h = elim (Bool-cases (contains seen k)) [
    | inl e ↦
        (let ks = distinct (keys_at at rs) in
          ap (λ (l : List PublicKey). accept_all_retired current at l rs)
            (accept_key-seen current seen k e)
          ∙ ih seen h
          ∙ ap (λ (l : List PublicKey). seen ++ l) (sym (keep-unseen-seen seen ks k e))
          ∙ ap
              (λ (b : Bool).
                seen
                ++ (if not b
                    then k ∷ keep (unseen seen) (keep (λ other. not (k == other)) ks)
                    else keep (unseen seen) (keep (λ other. not (k == other)) ks)))
              (sym e))
    | inr e ↦
        (let ks = distinct (keys_at at rs) in
          ap (λ (l : List PublicKey). accept_all_retired current at l rs)
            (accept_key-new current seen k h e)
          ∙ ih (seen ++ (k ∷ []))
              (contains-snoc seen k current ∙ ap (λ (b : Bool). b || k == current) h)
          ∙ append_assoc seen (k ∷ []) _
          ∙ ap (λ (l : List PublicKey). seen ++ (k ∷ l)) (sym (keep-unseen-snoc seen ks k))
          ∙ ap
              (λ (b : Bool).
                seen
                ++ (if not b
                    then k ∷ keep (unseen seen) (keep (λ other. not (k == other)) ks)
                    else keep (unseen seen) (keep (λ other. not (k == other)) ks)))
              (sym e))
  ]

  accept_all_retired_lem :
      (current : PublicKey) (at : ℤ) (rs : List Pb.RetiredDevice) → FromSeen current at rs
  unfolding accept_all_retired FromSeen
  accept_all_retired_lem current at [] seen h = sym (append_nil seen)
  accept_all_retired_lem current at (r ∷ rs) seen h =
      ap (λ (l : List PublicKey). accept_all_retired current at l rs)
        (accept_retired-key_at current at seen r)
      ∙ round current at rs (accept_all_retired_lem current at rs) seen (key_at at r) h

  -- `device_keys_at` gives the current device's key and, in their order, the valid keys that were retired at
  -- the time or after it, each once.
  pub device_keys_at_public-distinct :
      (current : PublicKey) (retired : List Pb.RetiredDevice) (at : ℤ)
      → device_keys_at_public current retired at ≡ distinct (current ∷ keys_at at retired)
  unfolding device_keys_at_public FromSeen
  device_keys_at_public-distinct current retired at =
      let self = (key_beq_iff current current).1 refl in
      accept_all_retired_lem current at retired (current ∷ []) (ground arith)
      ∙ ap (λ (l : List PublicKey). current ∷ l)
          (keep-of_same (unseen (current ∷ [])) (λ other. not (current == other))
            (λ y. ground arith) (distinct (keys_at at retired)))
