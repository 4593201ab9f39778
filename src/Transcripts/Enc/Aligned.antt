-- ===== src/Transcripts/Enc/Aligned.antt =====
-- Layouts that begin with keys and optional keys, side by side.
use identity_crypto.Prelude.{
  ℕ, ◌≡◌, refl, sym, ap, Option, none, some, List, ◌∷◌, ◌++◌, arith, append_cancel, length, All,
}
use identity_crypto.Primitives.{Bytes, Str}
use identity_crypto.KeyTypes.{PublicKey, KeyScheme, scheme_number}
use identity_crypto.Transcripts.Enc
use identity_crypto.Transcripts.Layout.{
  Item, int, var, fixed, Aligned, Fits, render, render-injective,
}
use identity_crypto.Transcripts.Enc.Writes.{key_items, opt_key_items}

module _ {is js : List Item} (h : Aligned is js) where
  pub Aligned-int : (w u v : ℕ) → Aligned (int w u ∷ is) (int w v ∷ js)
  Aligned-int w u v = Aligned.cons refl (λ _. h)

  pub Aligned-var : (x y : Bytes) → Aligned (var x ∷ is) (var y ∷ js)
  Aligned-var x y = Aligned.cons tt (λ _. h)

  pub Aligned-fixed : (x y : Bytes) → length x ≡ length y → Aligned (fixed x ∷ is) (fixed y ∷ js)
  Aligned-fixed x y e = Aligned.cons e (λ _. h)

-- A flag that tells which layout follows.
flags_differ : (int 1 0 ≡ int 1 1) → ⊥
flags_differ e = ground arith

module _ {is js : List Item} (h : Aligned is js) where
  pub Aligned-key : (k l : PublicKey) → Aligned (key_items k ++ is) (key_items l ++ js)
  Aligned-key k l = Aligned-int (Aligned-var h _ _) 1 _ _

  pub Aligned-opt_key :
      (k l : Option PublicKey) → Aligned (opt_key_items k ++ is) (opt_key_items l ++ js)
  Aligned-opt_key none none = Aligned-int h 1 0 0
  Aligned-opt_key none (some l) = Aligned.cons refl (λ e. absurd (flags_differ e))
  Aligned-opt_key (some k) none = Aligned.cons refl (λ e. absurd (flags_differ (sym e)))
  Aligned-opt_key (some k) (some l) = Aligned-int (Aligned-key k l) 1 1 1

scheme_number-injective : (a b : KeyScheme) → scheme_number a ≡ scheme_number b → a ≡ b
scheme_number-injective a b h = ground arith

pub key_items-injective :
    (k l : PublicKey) {is js : List Item}
    → key_items k ++ is ≡ key_items l ++ js
    → (k ≡ l) × (is ≡ js)
key_items-injective k l h = ground (arith, scheme_number-injective k.scheme l.scheme (cc h))

pub opt_key_items-injective :
    (k l : Option PublicKey) {is js : List Item}
    → opt_key_items k ++ is ≡ opt_key_items l ++ js
    → (k ≡ l) × (is ≡ js)
opt_key_items-injective none none h = (refl, cc)
opt_key_items-injective none (some l) h = ground arith
opt_key_items-injective (some k) none h = ground arith
opt_key_items-injective (some k) (some l) {is} {js} h =
    let (a, b) = key_items-injective k l {is = is} {js = js} (cc) in (ap some a, b)

-- Equal transcripts under one tag have one layout.
pub same_items :
    (tag : Str) (is js : List Item) (t : Bytes)
    → t ≡ Enc.new tag ++ render is
    → t ≡ Enc.new tag ++ render js
    → All Fits is
    → All Fits js
    → Aligned is js
    → is ≡ js
same_items tag is js t p q fi fj a =
    render-injective a fi fj (append_cancel (Enc.new tag) (Enc.new tag) refl (cc (p, q))).1

pub int-injective :
    {w u v : ℕ} {is js : List Item} → int w u ∷ is ≡ int w v ∷ js → (u ≡ v) × (is ≡ js)
int-injective h = (cc, cc)

pub var-injective :
    {x y : Bytes} {is js : List Item} → var x ∷ is ≡ var y ∷ js → (x ≡ y) × (is ≡ js)
var-injective h = (cc, cc)

pub fixed-injective :
    {x y : Bytes} {is js : List Item} → fixed x ∷ is ≡ fixed y ∷ js → (x ≡ y) × (is ≡ js)
fixed-injective h = (cc, cc)
