-- ===== src/Resolver/Carrier.antt =====
-- The loop of `decode_carrier` (src/resolver.rs) and its fuel.
use identity_crypto.Prelude.{
  ℕ, zero, suc, ◌≤◌, ◌<◌, ◌≡◌, ◌≢◌, refl, Bool, Option, none, some, [], ◌∷◌, length, arith, nat_eq,
}
use identity_crypto.Primitives.{Bytes}
use identity_crypto.Error.{Error, Result, ok, err, panic, ◌>>=◌, ok_or, reject_if, ok_or-eq-ok}
use identity_crypto.Resolver.{Prost, count_registry, decode_carrier}

-- The documented behaviour of `prost`: a field key takes at least one byte, a value gives none back.
pub record ProstLaws (w : Prost) : Type 0 where
  pub key_consumes :
      (bs rest : Bytes) (tag wire_type : ℕ)
      → w.decode_key bs ≡ some (tag, wire_type, rest)
      → length rest < length bs
  pub skip_consumes :
      (wire_type tag : ℕ) (bs rest : Bytes)
      → w.skip_field wire_type tag bs ≡ some rest
      → length rest ≤ length bs

-- A bind panics only if one of its parts does.
bind-no_panic {ℓ κ} :
    {A : Type ℓ} {B : Type κ} (m : Result A) (f : A → Result B)
    → m ≢ panic
    → ((a : A) → m ≡ ok a → f a ≢ panic)
    → (m >>= f) ≢ panic
unfolding ◌>>=◌
bind-no_panic panic f hm hf h = hm refl
bind-no_panic (err e) f hm hf h = cc
bind-no_panic (ok a) f hm hf h = hf a refl h

ok_or-no_panic {ℓ} : {A : Type ℓ} (o : Option A) (e : Error) → ok_or o e ≢ panic
unfolding ok_or
ok_or-no_panic none e h = cc
ok_or-no_panic (some a) e h = cc

reject_if-no_panic : (b : Bool) (e : Error) → reject_if b e ≢ panic
unfolding reject_if
reject_if-no_panic b e h = ground arith

module _ ⦃w : Prost⦄ (laws : ProstLaws w) where
  count_registry-no_panic :
      (fuel : ℕ) (body : Bytes) (count : ℕ)
      → length body ≤ fuel
      → count_registry fuel body count ≢ panic
  unfolding count_registry
  count_registry-no_panic fuel [] count h = λ e. cc
  count_registry-no_panic zero (b ∷ bs) count h = absurd (omega arith)
  count_registry-no_panic (suc fuel) (b ∷ bs) count h =
      bind-no_panic _ _ (ok_or-no_panic _ _) λ field e1.
        let used = laws.key_consumes (b ∷ bs) field.2 field.0 field.1 (ok_or-eq-ok _ _ e1) in
        bind-no_panic _ _ (ok_or-no_panic _ _) λ rest e2.
          let skipped = laws.skip_consumes field.1 field.0 field.2 rest (ok_or-eq-ok _ _ e2) in
          count_registry-no_panic fuel rest _ (omega arith)

  -- Where `prost` behaves as documented, `decode_carrier` returns a registry or an error on any body.
  pub decode_carrier-no_panic : (body : Bytes) → decode_carrier body ≢ panic
  unfolding decode_carrier
  decode_carrier-no_panic body =
      bind-no_panic _ _ (count_registry-no_panic (length body) body 0 (omega arith)) λ count _.
        bind-no_panic _ _ (reject_if-no_panic _ _)
          λ _ _. bind-no_panic _ _ (ok_or-no_panic _ _) λ registry _. ok_or-no_panic _ _
