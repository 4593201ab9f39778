-- ===== src/Transcripts/Enc/Appends.antt =====
-- The encoder of src/transcripts.rs and the front of its buffer.
use identity_crypto.Prelude.{
  ℕ, ◌≡◌, refl, sym, ap, ◌∙◌, Option, none, some, [], ◌++◌, String, Extends,
}
use identity_crypto.Prelude.Int.{ℤ}
use identity_crypto.Primitives.{Bytes}
use identity_crypto.KeyTypes.{PublicKey}
use identity_crypto.Error.{Result, ok, ◌>>=◌, >>=-elim, ok-injective}
use identity_crypto.Transcripts.Enc
use identity_crypto.Transcripts.Enc.{Enc}
use mathlib.Core.List.{append_assoc, append-nil}

-- If `r` is a buffer, it is `e` with more behind it.
pub record Appends (e : Enc) (r : Result Enc) : Type 0 where
  pub at : (e' : Enc) → r ≡ ok e' → Extends e e'

Extends-trans : (a b c : Bytes) → Extends a b → Extends b c → Extends a c
Extends-trans a b c (x, p) (y, q) = (x ++ y, q ∙ ap (λ (z : Bytes). z ++ y) p ∙ append_assoc a x y)

pub Appends-bind :
    {e : Enc} {m : Result Enc} {f : Enc → Result Enc}
    → Appends e m
    → ((e' : Enc) → Appends e' (f e'))
    → Appends e (m >>= f)
Appends-bind {e} {m} {f} am af = record {
  at = λ e' h. >>=-elim m f h λ b h1 h2. Extends-trans e b e' (am.at b h1) ((af b).at e' h2);
}

pub Appends-try {ℓ} :
    {A : Type ℓ} {e : Enc} (m : Result A) {f : A → Result Enc}
    → ((a : A) → Appends e (f a))
    → Appends e (m >>= f)
Appends-try m {f} af = record { at = λ e' h. >>=-elim m f h λ a h1 h2. (af a).at e' h2 }

pub Appends-ok : (e x : Bytes) → Appends e (ok (e ++ x))
Appends-ok e x = record { at = λ e' h. (x, sym (ok-injective h)) }

pub Appends-done : (e : Enc) → Appends e (ok e)
Appends-done e = record { at = λ e' h. ([], sym (ok-injective h) ∙ sym (append-nil e)) }

pub Appends-pure : (e x : Bytes) {r : Result Enc} → Appends (e ++ x) r → Appends e r
Appends-pure e x a = record { at = λ e' h. Extends-trans e (e ++ x) e' (x, refl) (a.at e' h) }

pub Appends-var : (e : Enc) (x : Bytes) → Appends e (Enc.var e x)
unfolding Enc.var
Appends-var e x = Appends-try _ λ _. Appends-ok e _

pub Appends-u8 : (e : Enc) (field : String) (v : ℤ) → Appends e (Enc.u8 e field v)
unfolding Enc.u8
Appends-u8 e field v = Appends-try _ λ b. Appends-ok e _

pub Appends-u32 : (e : Enc) (field : String) (n : ℕ) → Appends e (Enc.u32 e field n)
unfolding Enc.u32
Appends-u32 e field n = Appends-try _ λ _. Appends-ok e _

pub Appends-fixed :
    (e : Enc) (field : String) (x : Bytes) (n : ℕ) → Appends e (Enc.fixed e field x n)
unfolding Enc.fixed
Appends-fixed e field x n = Appends-try _ λ _. Appends-ok e _

pub Appends-key : (e : Enc) (k : PublicKey) → Appends e (Enc.key e k)
unfolding Enc.key
Appends-key e k = Appends-bind (Appends-u8 e _ _) λ b. Appends-var b _

pub Appends-absent : (e : Enc) → Appends e (ok (Enc.absent e))
unfolding Enc.absent
Appends-absent e = Appends-ok e _

pub Appends-present : (e : Enc) {r : Result Enc} → Appends (Enc.present e) r → Appends e r
unfolding Enc.present
Appends-present e a = Appends-pure e _ a

pub Appends-i64 : (e : Enc) (v : ℤ) {r : Result Enc} → Appends (Enc.i64 e v) r → Appends e r
unfolding Enc.i64
Appends-i64 e v a = Appends-pure e _ a

pub Appends-i32 : (e : Enc) (v : ℤ) {r : Result Enc} → Appends (Enc.i32 e v) r → Appends e r
unfolding Enc.i32
Appends-i32 e v a = Appends-pure e _ a

pub Appends-u64 : (e : Enc) (v : ℕ) {r : Result Enc} → Appends (Enc.u64 e v) r → Appends e r
unfolding Enc.u64
Appends-u64 e v a = Appends-pure e _ a

pub Appends-opt_key : (e : Enc) (k : Option PublicKey) → Appends e (Enc.opt_key e k)
unfolding Enc.opt_key
Appends-opt_key e none = Appends-absent e
Appends-opt_key e (some k) = Appends-present e (Appends-key _ k)
