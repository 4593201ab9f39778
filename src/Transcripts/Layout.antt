-- ===== src/Transcripts/Layout.antt =====
-- The byte layout of src/transcripts.rs as a list of items, independent of the encoder: big-endian
-- integers of a fixed width, length-prefixed strings and strings of a fixed size.
use native.Mathlib.Nat.{pow-suc}
use identity_crypto.Prelude.{
  ℕ, zero, suc, ◌+◌, ◌-◌, ◌*◌, ◌/◌, ◌%◌, ◌^◌, ◌<◌, ◌≡◌, refl, sym, ap, ◌∙◌, List, [], ◌∷◌, ◌++◌,
  length, length-append, append_cancel, All, arith,
}
use identity_crypto.Primitives.{Bytes}
use mathlib.Core.List.{append_assoc}
use identity_crypto.Prelude.Int.{ℤ, pos, negsuc, IsI64, IsI32}

-- `to_be_bytes` of a w-byte integer.
unfoldable pub be : ℕ → ℕ → Bytes
be zero v = []
be (suc w) v = be w (v / 256) ++ ((v % 256) ∷ [])

-- The two's complement of a signed integer of `w` bytes.
unfoldable pub twos : ℕ → ℤ → ℕ
twos w (pos n) = n
twos w (negsuc n) = 256 ^ w - 1 - n

of_be : ℕ → Bytes → ℕ
of_be acc [] = acc
of_be acc (b ∷ bs) = of_be (acc * 256 + b) bs

of_be-append : (acc b : ℕ) (xs : Bytes) → of_be acc (xs ++ (b ∷ [])) ≡ of_be acc xs * 256 + b
unfolding of_be
of_be-append acc b [] = refl
of_be-append acc b (x ∷ xs) = of_be-append (acc * 256 + x) b xs

of_be-be : (w v : ℕ) → v < 256 ^ w → of_be 0 (be w v) ≡ v
unfolding be
of_be-be zero v h = unfold of_be in omega arith
of_be-be (suc w) v h =
    of_be-append 0 (v % 256) (be w (v / 256))
    ∙ omega (arith, of_be-be w (v / 256) (omega (arith, pow-suc 256 w)))

pub length-be : (w v : ℕ) → length (be w v) ≡ w
unfolding be
length-be zero v = refl
length-be (suc w) v =
    omega (arith, length-append (be w (v / 256)) ((v % 256) ∷ []), length-be w (v / 256))

be-injective : (w u v : ℕ) → u < 256 ^ w → v < 256 ^ w → be w u ≡ be w v → u ≡ v
be-injective w u v hu hv e = sym (of_be-be w u hu) ∙ ap (of_be 0) e ∙ of_be-be w v hv

pub data Item : Type 0 where
  int : ℕ → ℕ → Item
  var : Bytes → Item
  fixed : Bytes → Item

unfoldable pub item_bytes : Item → Bytes
item_bytes (int w v) = be w v
item_bytes (var x) = be 4 (length x) ++ x
item_bytes (fixed x) = x

unfoldable pub render : List Item → Bytes
render [] = []
render (i ∷ is) = item_bytes i ++ render is

abbrev pub Fits : Item → Type 0
Fits (int w v) = v < 256 ^ w
Fits (var x) = length x < 256 ^ 4
Fits (fixed x) = Unit

-- Items of one kind and, where the bytes do not tell, of one size.
abbrev pub SameKind : Item → Item → Type 0
SameKind (int w v) (int w' v') = w ≡ w'
SameKind (var x) (var y) = Unit
SameKind (fixed x) (fixed y) = length x ≡ length y
SameKind _ _ = ⊥

-- The items of one list tell what kinds of items follow.
pub data Aligned : List Item → List Item → Type 0 where
  nil : Aligned [] []
  cons :
      {i j : Item} {is js : List Item}
      → SameKind i j
      → (i ≡ j → Aligned is js)
      → Aligned (i ∷ is) (j ∷ js)

item-injective :
    (i j : Item) (r s : Bytes)
    → Fits i
    → Fits j
    → SameKind i j
    → item_bytes i ++ r ≡ item_bytes j ++ s
    → (i ≡ j) × (r ≡ s)
unfolding item_bytes
item-injective (int w u) (int w' v) r s hu hv k e =
    let (p, q) =
      append_cancel (be w u) (be w' v) (omega (arith, length-be w u, length-be w' v)) e in
    (cc (k, be-injective w u v hu (rw k hv) (rw (← k) at p)), q)
item-injective (int w u) (var y) r s hu hv k e = absurd k
item-injective (int w u) (fixed y) r s hu hv k e = absurd k
item-injective (var x) (int w v) r s hu hv k e = absurd k
item-injective (var x) (var y) r s hx hy k e =
    let e' : be 4 (length x) ++ (x ++ r) ≡ be 4 (length y) ++ (y ++ s) =
      sym (append_assoc _ x r) ∙ e ∙ append_assoc _ y s in
    let (p, q) =
      append_cancel (be 4 (length x)) (be 4 (length y))
        (omega (arith, length-be 4 (length x), length-be 4 (length y))) e' in
    let (a, b) = append_cancel x y (be-injective 4 _ _ hx hy p) q in (cc, b)
item-injective (var x) (fixed y) r s hu hv k e = absurd k
item-injective (fixed x) (int w v) r s hu hv k e = absurd k
item-injective (fixed x) (var y) r s hu hv k e = absurd k
item-injective (fixed x) (fixed y) r s hu hv k e = let (p, q) = append_cancel x y k e in (cc, q)

-- Two aligned layouts with the same bytes are the same layout.
pub render-injective :
    {is js : List Item}
    → Aligned is js
    → All Fits is
    → All Fits js
    → render is ≡ render js
    → is ≡ js
unfolding render
render-injective nil hi hj e = refl
render-injective (cons {i = i} {j = j} {is = is} {js = js} same next) hi hj e =
    let (p, q) = item-injective i j (render is) (render js) hi.0 hj.0 same e in
    cc (p, render-injective (next p) hi.1 hj.1 q)

pub render-append : (is js : List Item) → render (is ++ js) ≡ render is ++ render js
unfolding render
render-append [] js = refl
render-append (i ∷ is) js =
    rw (render-append is js) (sym (append_assoc (item_bytes i) (render is) (render js)))

-- The two's complement loses nothing on the range of the type.
pub twos8-injective : (a b : ℤ) → IsI64 a → IsI64 b → twos 8 a ≡ twos 8 b → a ≡ b
unfolding twos
twos8-injective (pos m) (pos n) ha hb e = cc
twos8-injective (pos m) (negsuc n) ha hb e = absurd (omega arith)
twos8-injective (negsuc m) (pos n) ha hb e = absurd (omega arith)
twos8-injective (negsuc m) (negsuc n) ha hb e = ap negsuc (omega arith)

pub twos8-bound : (a : ℤ) → IsI64 a → twos 8 a < 256 ^ 8
unfolding twos
twos8-bound (pos n) h = omega arith
twos8-bound (negsuc n) h = omega arith

pub twos4-bound : (a : ℤ) → IsI32 a → twos 4 a < 256 ^ 4
unfolding twos
twos4-bound (pos n) h = omega arith
twos4-bound (negsuc n) h = omega arith
