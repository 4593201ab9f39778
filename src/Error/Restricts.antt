-- ===== src/Error/Restricts.antt =====
-- One computation accepts no more than another: whatever the first returns, the second returns too.
use identity_crypto.Prelude.{◌≡◌, refl, Bool, true, false}
use identity_crypto.Error.{Error, Result, ok, ◌>>=◌, >>=-eq-ok, reject_if}

pub record Restricts {ℓ} {A : Type ℓ} (m n : Result A) : Type ℓ where
  pub at : (a : A) → m ≡ ok a → n ≡ ok a

pub Restricts-refl {ℓ} : {A : Type ℓ} (m : Result A) → Restricts m m
Restricts-refl m = record { at = λ a h. h }

pub Restricts-bind {ℓ κ} :
    {A : Type ℓ} {B : Type κ} {m n : Result A} {f g : A → Result B}
    → Restricts m n
    → ((a : A) → Restricts (f a) (g a))
    → Restricts (m >>= f) (n >>= g)
Restricts-bind {m = m} {n} {f} {g} mn fg = record {
  at = λ b h. let (a, e, h') = >>=-eq-ok m f h in rw (mn.at a e) (unfold ◌>>=◌ in (fg a).at b h');
}

-- The same first step.
pub Restricts-then {ℓ κ} :
    {A : Type ℓ} {B : Type κ} (m : Result A) {f g : A → Result B}
    → ((a : A) → Restricts (f a) (g a))
    → Restricts (m >>= f) (m >>= g)
Restricts-then m fg = Restricts-bind (Restricts-refl m) fg

pub Restricts-reject_if :
    {b c : Bool} (e : Error) → (b ≡ false → c ≡ false) → Restricts (reject_if b e) (reject_if c e)
unfolding reject_if
Restricts-reject_if {b = true} e h = record { at = λ a x. cc }
Restricts-reject_if {b = false} {c = true} e h = record { at = λ a x. cc (h refl) }
Restricts-reject_if {b = false} {c = false} e h = record { at = λ a x. x }
