-- ===== src/Keyfile/Text/Ascii.antt =====
-- The texts that an `agent_id` file holds, under `String::from_utf8` and `str::trim`.
use identity_crypto.Prelude.{
  ℕ, zero, suc, ◌<◌, ◌≡◌, refl, ap, ◌∙◌, true, none, some, [], ◌∷◌, ◌++◌, All, all, All-append,
  length, arith, if◌then◌else◌,
}
use identity_crypto.Primitives.{Str, Primitives, HexLaws, IsBytes, is_lower_hex}
use identity_crypto.KeyTypes.{PrincipalId}
use identity_crypto.PublicKey.{to_hex, IsKey}
use identity_crypto.Principal.{to_string, prefix}
use identity_crypto.Keyfile.Text.{
  utf8_from, is_utf8, from_utf8, white_front, white_back, trim_by, reverse_onto, reverse, trim,
}

ascii-is_utf8 :
    (s : Str) (low high : ℕ) → All (λ (b : ℕ). b < 128) s → utf8_from 0 low high s ≡ true
ascii-is_utf8 [] low high h = refl
ascii-is_utf8 (b ∷ bs) low high h = ground (arith, h.0, ascii-is_utf8 bs 0x80 0xBF h.1)

pub from_utf8-is_utf8 : (s : Str) → is_utf8 s ≡ true → from_utf8 s ≡ some s
unfolding from_utf8
from_utf8-is_utf8 s h = ap (λ b. if b then some s else none) h

trim_by-0 : (white : Str → ℕ) (fuel : ℕ) (s : Str) → white s ≡ 0 → trim_by white fuel s ≡ s
trim_by-0 white zero s h = refl
trim_by-0 white (suc fuel) s h = ground arith

reverse_onto-reverse_onto :
    (s out kept : Str) → reverse_onto (reverse_onto s out) kept ≡ reverse_onto out (s ++ kept)
reverse_onto-reverse_onto [] out kept = refl
reverse_onto-reverse_onto (b ∷ bs) out kept = reverse_onto-reverse_onto bs (b ∷ out) kept

append_nil : (s : Str) → s ++ [] ≡ s
append_nil [] = refl
append_nil (b ∷ bs) = ap (λ (t : Str). b ∷ t) (append_nil bs)

reverse-reverse : (s : Str) → reverse (reverse s) ≡ s
reverse-reverse s = reverse_onto-reverse_onto s [] [] ∙ append_nil s

trim_lem : (s : Str) → white_front s ≡ 0 → white_back (reverse s) ≡ 0 → trim s ≡ s
unfolding trim
trim_lem s front back =
    rw (trim_by-0 white_front (length s) s front, trim_by-0 white_back (length s) (reverse s) back)
      (reverse-reverse s)

white_back-digit : (b : ℕ) (s : Str) → is_lower_hex b ≡ true → white_back (b ∷ s) ≡ 0
white_back-digit b [] h = ground arith
white_back-digit b (x ∷ []) h = ground arith
white_back-digit b (x ∷ y ∷ s) h = ground arith

white_back-digits :
    (b : ℕ) (s out : Str)
    → all is_lower_hex (b ∷ s) ≡ true
    → white_back (reverse_onto (b ∷ s) out) ≡ 0
white_back-digits b [] out h = white_back-digit b out (ground arith)
white_back-digits b (x ∷ s) out h = white_back-digits x s (b ∷ out) (ground arith)

digits-ascii : (s : Str) → all is_lower_hex s ≡ true → All (λ (b : ℕ). b < 128) s
digits-ascii [] h = tt
digits-ascii (b ∷ bs) h = (ground arith, digits-ascii bs (ground arith))

white_back-id :
    (s : Str) → all is_lower_hex s ≡ true → length s ≡ 130 → white_back (reverse (prefix ++ s)) ≡ 0
white_back-id [] h n = absurd (omega arith)
white_back-id (b ∷ bs) h n = white_back-digits b bs _ h

module _ ⦃p : Primitives⦄ (laws : HexLaws p) (id : PrincipalId) (key : IsKey id.genesis)
    (bytes : IsBytes id.genesis.bytes) where
  pub from_utf8-to_string : from_utf8 (to_string id) ≡ some (to_string id)
  unfolding to_string to_hex
  from_utf8-to_string =
      let digits = p.hex_encode id.genesis.bytes in
      let hex = digits-ascii digits (laws.encode_digits id.genesis.bytes bytes) in
      from_utf8-is_utf8 (prefix ++ digits) (
        ascii-is_utf8 (prefix ++ digits) 0x80 0xBF
          (All-append (λ (b : ℕ). b < 128) prefix digits (ground arith) hex))

  pub trim-to_string : trim (to_string id) ≡ to_string id
  unfolding to_string to_hex
  trim-to_string = trim_lem _ refl (
      white_back-id (p.hex_encode id.genesis.bytes) (laws.encode_digits id.genesis.bytes bytes)
        (let n = laws.encode_length id.genesis.bytes bytes in let m = key.size in ground arith))
