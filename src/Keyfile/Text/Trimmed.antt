-- ===== src/Keyfile/Text/Trimmed.antt =====
-- The fuel of the model of `str::trim`.
use identity_crypto.Prelude.{ℕ, zero, suc, ◌+◌, ◌≤◌, ◌≡◌, refl, [], ◌∷◌, length, drop, arith}
use identity_crypto.Primitives.{Str}
use identity_crypto.Keyfile.Text.{white_front, white_back, trim_by, reverse_onto, reverse}

length-drop : (n : ℕ) (s : Str) → length (drop n s) ≤ length s
length-drop zero s = omega arith
length-drop (suc n) [] = omega arith
length-drop (suc n) (b ∷ bs) = let h = length-drop n bs in omega arith

-- With as much fuel as bytes, no white character is left at the front.
white-trim_by :
    (white : Str → ℕ) (fuel : ℕ) (s : Str)
    → white [] ≡ 0
    → length s ≤ fuel
    → white (trim_by white fuel s) ≡ 0
white-trim_by white fuel [] empty h = on_empty fuel
  where
    on_empty : (fuel : ℕ) → white (trim_by white fuel []) ≡ 0
    on_empty zero = empty
    on_empty (suc fuel) = ground arith
white-trim_by white zero (b ∷ bs) empty h = absurd (omega arith)
white-trim_by white (suc fuel) (b ∷ bs) empty h =
    by_length (white (b ∷ bs)) refl
      (λ n. white-trim_by white fuel (drop n bs) empty (let k = length-drop n bs in omega arith))
  where
    by_length :
        (n : ℕ)
        → white (b ∷ bs) ≡ n
        → ((m : ℕ) → white (trim_by white fuel (drop m bs)) ≡ 0)
        → white (elim n [ zero ↦ b ∷ bs | suc m ↦ trim_by white fuel (drop (suc m) (b ∷ bs)) ]) ≡ 0
    by_length zero e ih = e
    by_length (suc m) e ih = ih m

length-reverse_onto : (s out : Str) → length (reverse_onto s out) ≡ length s + length out
length-reverse_onto [] out = omega arith
length-reverse_onto (b ∷ bs) out = let h = length-reverse_onto bs (b ∷ out) in omega arith

length-reverse : (s : Str) → length (reverse s) ≤ length s
length-reverse s = let h = length-reverse_onto s [] in omega arith

-- A trimmed text ends with no white character, and the text that is left when its front is trimmed begins with
-- none.
pub white-trim :
    (s : Str)
    → (white_front (trim_by white_front (length s) s) ≡ 0)
      × (white_back (
            trim_by white_back
              (length (trim_by white_front (length s) s))
              (reverse (trim_by white_front (length s) s)))
          ≡ 0)
white-trim s =
    let front = trim_by white_front (length s) s in
    (
      white-trim_by white_front (length s) s refl (omega arith),
      white-trim_by white_back (length front) (reverse front) refl (length-reverse front),
    )
