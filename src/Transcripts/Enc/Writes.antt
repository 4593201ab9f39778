-- ===== src/Transcripts/Enc/Writes.antt =====
-- What each method of `Enc` appends, as rules that follow the code step by step.
use identity_crypto.Prelude.{
  ℕ, ◌^◌, ◌<◌, ◌≡◌, refl, sym, ap, ◌∙◌, String, Option, none, some, List, [], ◌∷◌, ◌++◌, length,
  All, All-append, arith,
}
use identity_crypto.Prelude.Int.{ℤ, pos_part, pos, negsuc, IsI64, IsI32}
use identity_crypto.Primitives.{Bytes}
use identity_crypto.KeyTypes.{PublicKey, scheme_number}
use identity_crypto.Error.{Result, ok, ◌>>=◌, >>=-eq-ok}
use identity_crypto.Transcripts.Enc
use identity_crypto.Transcripts.Enc.{Enc}
use identity_crypto.Transcripts.Layout.{
  Item, int, var, fixed, item_bytes, render, Fits, be, twos, twos8-bound, twos4-bound,
  render-append,
}
use mathlib.Core.List.{append_assoc, append-nil}

-- If `r` is a buffer, it is `e` with the bytes of the items behind it.
pub record Writes (e : Enc) (is : List Item) (r : Result Enc) : Type 0 where
  pub at : (e' : Enc) → r ≡ ok e' → (e' ≡ e ++ render is) × All Fits is

abbrev pub key_items : PublicKey → List Item
key_items k = int 1 (scheme_number k.scheme) ∷ var k.bytes ∷ []

abbrev pub opt_key_items : Option PublicKey → List Item
opt_key_items none = int 1 0 ∷ []
opt_key_items (some k) = int 1 1 ∷ key_items k

pub Writes-done : (e : Enc) → Writes e [] (ok e)
unfolding render
Writes-done e = record { at = λ e' h. (cc (append-nil e), tt) }

-- One item, and what follows it.
Writes-step :
    (e : Enc) (i : Item) (is : List Item) (r : Result Enc)
    → Fits i
    → Writes (e ++ item_bytes i) is r
    → Writes e (i ∷ is) r
unfolding render
Writes-step e i is r f w = record {
  at = λ e' h. let (a, b) = w.at e' h in (a ∙ append_assoc e (item_bytes i) (render is), (f, b));
}

pub Writes-bind :
    {e : Enc} {is js : List Item} {m : Result Enc} {f : Enc → Result Enc}
    → Writes e is m
    → ((e' : Enc) → Writes e' js (f e'))
    → Writes e (is ++ js) (m >>= f)
Writes-bind {e} {is} {js} {m} {f} wm wf = record {
  at = λ e' h.
      let (e1, h1, h2) = >>=-eq-ok m f h in
      let (a, b) = wm.at e1 h1 in
      let (c, d) = (wf e1).at e' h2 in
      (
        c
            ∙ ap (λ (x : Bytes). x ++ render js) a
            ∙ append_assoc e (render is) (render js)
            ∙ ap (λ (x : Bytes). e ++ x) (sym (render-append is js)),
        All-append Fits is js b d,
      );
}

pub Writes-var : (e : Enc) (x : Bytes) → Writes e (var x ∷ []) (Enc.var e x)
unfolding Enc.var render item_bytes ◌>>=◌
Writes-var e x = record { at = λ e' h. ground (arith, append-nil (be 4 (length x) ++ x)) }

pub Writes-u8 :
    (e : Enc) (field : String) (v : ℤ) → Writes e (int 1 (pos_part v) ∷ []) (Enc.u8 e field v)
unfolding Enc.u8 render item_bytes ◌>>=◌ be
Writes-u8 e field (pos n) = record { at = λ e' h. ground arith }
Writes-u8 e field (negsuc n) = record { at = λ e' h. cc }

-- A one-byte scalar that is written is not negative.
pub u8-nonneg :
    (e : Enc) (field : String) (v : ℤ) {e' : Enc} → Enc.u8 e field v ≡ ok e' → v ≡ pos (pos_part v)
unfolding Enc.u8 ◌>>=◌
u8-nonneg e field (pos n) h = refl
u8-nonneg e field (negsuc n) h = cc

pub Writes-i64 :
    (e : Enc) (v : ℤ) {is : List Item} {r : Result Enc}
    → IsI64 v
    → Writes (Enc.i64 e v) is r
    → Writes e (int 8 (twos 8 v) ∷ is) r
unfolding Enc.i64
Writes-i64 e v {is} {r} h w =
    Writes-step e (int 8 (twos 8 v)) is r (twos8-bound v h) (unfold item_bytes in w)

pub Writes-u64 :
    (e : Enc) (v : ℕ) {is : List Item} {r : Result Enc}
    → v < 256 ^ 8
    → Writes (Enc.u64 e v) is r
    → Writes e (int 8 v ∷ is) r
unfolding Enc.u64
Writes-u64 e v {is} {r} h w = Writes-step e (int 8 v) is r h (unfold item_bytes in w)

pub Writes-i32 :
    (e : Enc) (v : ℤ) {is : List Item} {r : Result Enc}
    → IsI32 v
    → Writes (Enc.i32 e v) is r
    → Writes e (int 4 (twos 4 v) ∷ is) r
unfolding Enc.i32
Writes-i32 e v {is} {r} h w =
    Writes-step e (int 4 (twos 4 v)) is r (twos4-bound v h) (unfold item_bytes in w)

pub Writes-absent :
    (e : Enc) {is : List Item} {r : Result Enc}
    → Writes (Enc.absent e) is r
    → Writes e (int 1 0 ∷ is) r
unfolding Enc.absent
Writes-absent e {is} {r} w = Writes-step e (int 1 0) is r (omega arith) (unfold item_bytes be in w)

pub Writes-present :
    (e : Enc) {is : List Item} {r : Result Enc}
    → Writes (Enc.present e) is r
    → Writes e (int 1 1 ∷ is) r
unfolding Enc.present
Writes-present e {is} {r} w = Writes-step e (int 1 1) is r (omega arith) (unfold item_bytes be in w)

pub Writes-u32 : (e : Enc) (field : String) (n : ℕ) → Writes e (int 4 n ∷ []) (Enc.u32 e field n)
unfolding Enc.u32 render item_bytes ◌>>=◌
Writes-u32 e field n = record { at = λ e' h. ground (arith, append-nil (be 4 n)) }

pub Writes-fixed :
    (e : Enc) (field : String) (x : Bytes) (n : ℕ) → Writes e (fixed x ∷ []) (Enc.fixed e field x n)
unfolding Enc.fixed render item_bytes ◌>>=◌
Writes-fixed e field x n = record { at = λ e' h. ground (arith, append-nil x) }

-- A length that is checked is what the encoder wrote.
pub fixed-length :
    (e : Enc) (field : String) (x : Bytes) (n : ℕ) {e' : Enc}
    → Enc.fixed e field x n ≡ ok e'
    → length x ≡ n
unfolding Enc.fixed ◌>>=◌
fixed-length e field x n h = ground arith

pub Writes-key : (e : Enc) (k : PublicKey) → Writes e (key_items k) (Enc.key e k)
unfolding Enc.key
Writes-key e k =
    Writes-bind (Writes-u8 e "scheme" (pos (scheme_number k.scheme))) (λ e'. Writes-var e' k.bytes)

pub Writes-opt_key : (e : Enc) (k : Option PublicKey) → Writes e (opt_key_items k) (Enc.opt_key e k)
unfolding Enc.opt_key
Writes-opt_key e none = Writes-absent e (Writes-done _)
Writes-opt_key e (some k) = Writes-present e (Writes-key _ k)

-- A check between two writes.
pub Writes-try {ℓ} :
    {A : Type ℓ} {e : Enc} {is : List Item} (m : Result A) (f : A → Result Enc)
    → ((a : A) → m ≡ ok a → Writes e is (f a))
    → Writes e is (m >>= f)
Writes-try m f w = record { at = λ e' h. let (a, h1, h2) = >>=-eq-ok m f h in (w a h1).at e' h2 }
