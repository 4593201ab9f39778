-- ===== src/Keyfile/Identity/Retirement.antt =====
-- `retire` of identity-keyfile/src/keys.rs before `device_keys_at`.
use identity_crypto.Prelude.{
  ◌≡◌, refl, ap, ◌∙◌, Bool, true, false, Option, none, some, List, [], ◌∷◌, ◌++◌, All, arith,
  contains, ◌==◌, option_eq, if◌then◌else◌, Bool-cases, inl, inr, eq_of, eq_self,
}
use identity_crypto.Prelude.Int.{ℤ, ltb_ℤ, leb_ℤ}
use identity_crypto.Primitives.{Primitives}
use identity_crypto.KeyTypes.{PublicKey, key_eq}
use identity_crypto.PublicKey.{IsKey, to_pb, try_from, try_from-eq-ok, try_from-to_pb}
use identity_crypto.Error
use identity_crypto.Pb
use identity_crypto.Pb.Equality.{wire_key_eq}
use identity_crypto.Keyfile.Identity.{
  retire_keys, accept_retired, accept_all_retired, device_keys_at_public,
}
use identity_crypto.Keyfile.Identity.AcceptedKeys.{
  key_at, accept_key, accept_retired-key_at, contains-snoc,
}

-- No entry of a history names the key.
abbrev pub Unnamed : PublicKey → List Pb.RetiredDevice → Type 0
Unnamed k rs = All (λ (r : Pb.RetiredDevice). (r.signing == some (to_pb k)) ≡ false) rs

abbrev entry : PublicKey → PublicKey → ℤ → Pb.RetiredDevice
entry signing encryption now = record {
  signing = some (to_pb signing);
  encryption = some (to_pb encryption);
  retired_at_unix_seconds = now;
}

retire_keys-append :
    (rs : List Pb.RetiredDevice) (k e : PublicKey) (now : ℤ)
    → Unnamed k rs
    → retire_keys rs k e now ≡ rs ++ (entry k e now ∷ [])
unfolding retire_keys
retire_keys-append [] k e now h = refl
retire_keys-append (r ∷ rs) k e now h =
    let ih = retire_keys-append rs k e now h.1 in let n = h.0 in ground arith

swapped : (current old : PublicKey) → (old == current) ≡ false → contains (current ∷ []) old ≡ false
swapped current old h = elim (Bool-cases (current == old)) [
  | inl e ↦ absurd (
      let f = eq_of current old e in let g = ap (λ (k : PublicKey). old == k) f ∙ eq_self old in cc)
  | inr e ↦ ground arith
]

module _ ⦃p : Primitives⦄ where
  accept_all_retired-append :
      (current : PublicKey) (at : ℤ) (seen : List PublicKey) (rs : List Pb.RetiredDevice)
      (r : Pb.RetiredDevice)
      → accept_all_retired current at seen (rs ++ (r ∷ []))
        ≡ accept_retired current at (accept_all_retired current at seen rs) r
  unfolding accept_all_retired
  accept_all_retired-append current at seen [] r = refl
  accept_all_retired-append current at seen (x ∷ rs) r =
      accept_all_retired-append current at (accept_retired current at seen x) rs r

  wire_key-some :
      (o : Option Pb.PublicKey) (k : PublicKey)
      → elim o [ none ↦ none | some wire ↦ elim (try_from wire) [ Error.ok k ↦ some k | _ ↦ none ] ]
        ≡ some k
      → o ≡ some (to_pb k)
  wire_key-some none k h = cc
  wire_key-some (some wire) k h = ground (arith, try_from-eq-ok wire k)

  key_at-signing :
      (at : ℤ) (r : Pb.RetiredDevice) (k : PublicKey)
      → key_at at r ≡ some k
      → r.signing ≡ some (to_pb k)
  unfolding key_at
  key_at-signing at r k h = elim (Bool-cases (ltb_ℤ r.retired_at_unix_seconds at)) [
    | inl e ↦ ground arith
    | inr e ↦ wire_key-some r.signing k (ground arith)
  ]

  key_at-entry :
      (at now : ℤ) (k e : PublicKey)
      → IsKey k
      → key_at at (entry k e now) ≡ (if leb_ℤ at now then some k else none)
  unfolding key_at
  key_at-entry at now k e h = let t = try_from-to_pb k h in ground arith

  accept_key-new :
      (current : PublicKey) (seen : List PublicKey) (k : PublicKey)
      → (k == current) ≡ false
      → contains seen k ≡ false
      → (b : Bool)
      → accept_key current seen (if b then some k else none)
        ≡ (if b then seen ++ (k ∷ []) else seen)
  accept_key-new current seen k h n true = ground arith
  accept_key-new current seen k h n false = refl

  key_at-other :
      (at : ℤ) (r : Pb.RetiredDevice) (k other : PublicKey)
      → (r.signing == some (to_pb k)) ≡ false
      → key_at at r ≡ some other
      → (other == k) ≡ false
  key_at-other at r k other h e = elim (Bool-cases (other == k)) [
    | inl same ↦ absurd (
        let s = key_at-signing at r other e in
        let t = ap (λ (x : PublicKey). some (to_pb x)) (eq_of other k same) in
        let self = eq_self (some (to_pb k)) in
        let all = ap (λ (o : Option Pb.PublicKey). o == some (to_pb k)) (s ∙ t) ∙ self in cc)
    | inr other ↦ other
  ]

  contains-accept_key :
      (current : PublicKey) (seen : List PublicKey) (o : Option PublicKey) (k : PublicKey)
      → ((other : PublicKey) → o ≡ some other → (other == k) ≡ false)
      → contains seen k ≡ false
      → contains (accept_key current seen o) k ≡ false
  contains-accept_key current seen none k h n = n
  contains-accept_key current seen (some x) k h n =
      let e = contains-snoc seen x k in let f = h x refl in ground arith

  contains-accept_all :
      (current : PublicKey) (at : ℤ) (seen : List PublicKey) (rs : List Pb.RetiredDevice)
      (k : PublicKey)
      → Unnamed k rs
      → contains seen k ≡ false
      → contains (accept_all_retired current at seen rs) k ≡ false
  unfolding accept_all_retired
  contains-accept_all current at seen [] k h n = n
  contains-accept_all current at seen (r ∷ rs) k h n =
      contains-accept_all current at (accept_retired current at seen r) rs k h.1 (
        ap (λ (l : List PublicKey). contains l k) (accept_retired-key_at current at seen r)
        ∙ contains-accept_key current seen (key_at at r) k
            (λ other e. key_at-other at r k other h.0 e) n)

  -- A device that is retired at a time is accepted, after the other devices, for times up to it and for none
  -- after it; the other devices are accepted as before. Its key is valid, it is not the current one, and the
  -- history does not name it yet.
  pub retire_keys-device_keys_at :
      (current old encryption : PublicKey) (retired : List Pb.RetiredDevice) (now at : ℤ)
      → IsKey old
      → (old == current) ≡ false
      → Unnamed old retired
      → device_keys_at_public current (retire_keys retired old encryption now) at ≡ (
          if leb_ℤ at now
          then device_keys_at_public current retired at ++ (old ∷ [])
          else device_keys_at_public current retired at)
  unfolding device_keys_at_public
  retire_keys-device_keys_at current old enc retired now at key differs unnamed =
      let seen = accept_all_retired current at (current ∷ []) retired in
      let self = eq_self current in
      ap (accept_all_retired current at (current ∷ []))
        (retire_keys-append retired old enc now unnamed)
      ∙ accept_all_retired-append current at (current ∷ []) retired (entry old enc now)
      ∙ accept_retired-key_at current at seen (entry old enc now)
      ∙ ap (accept_key current seen) (key_at-entry at now old enc key)
      ∙ accept_key-new current seen old differs
          (contains-accept_all current at (current ∷ []) retired old unnamed
            (swapped current old differs))
          (leb_ℤ at now)
