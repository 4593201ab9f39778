-- ===== src/Keyfile/Text.antt =====
-- What identity-keyfile/src/files.rs uses of the standard library's strings: `String::from_utf8` and `str::trim`.
pub mod Ascii
pub mod Trimmed
use identity_crypto.Prelude.{
  ℕ, zero, suc, ◌+◌, ◌<◌, ◌≡◌, refl, sym, ap, ◌∙◌, Bool, true, false, ◌&&◌, ◌||◌, Option, none,
  some, List, [], ◌∷◌, ◌++◌, All, leb, ltb, length, drop, arith, ◌==◌, nat_eq, if◌then◌else◌,
}
use identity_crypto.Primitives.{Bytes, Str}

-- The number of bytes that follow a first byte, and the range of the next one.
abbrev pub lead : ℕ → Option (ℕ × ℕ × ℕ)
lead b =
    if ltb b 0x80
    then some (0, 0x80, 0xBF)
    else if ltb b 0xC2
    then none
    else if ltb b 0xE0
    then some (1, 0x80, 0xBF)
    else if b == 0xE0
    then some (2, 0xA0, 0xBF)
    else if b == 0xED
    then some (2, 0x80, 0x9F)
    else if ltb b 0xF0
    then some (2, 0x80, 0xBF)
    else if b == 0xF0
    then some (3, 0x90, 0xBF)
    else if ltb b 0xF4
    then some (3, 0x80, 0xBF)
    else if b == 0xF4
    then some (3, 0x80, 0x8F)
    else none

-- UTF-8 from within a character that lacks some bytes, the next in a range.
abbrev pub utf8_from : ℕ → ℕ → ℕ → Bytes → Bool
utf8_from missing low high [] = missing == 0
utf8_from zero low high (b ∷ bs) = elim (lead b) [
  | none ↦ false
  | some (missing, low, high) ↦ utf8_from missing low high bs
]
utf8_from (suc missing) low high (b ∷ bs) =
    leb low b && leb b high && utf8_from missing 0x80 0xBF bs

abbrev pub is_utf8 : Bytes → Bool
is_utf8 bytes = utf8_from 0 0x80 0xBF bytes

-- `String::from_utf8`
unfoldable pub from_utf8 : Bytes → Option Str
from_utf8 bytes = if is_utf8 bytes then some bytes else none

abbrev pub ascii_white : ℕ → Bool
ascii_white b = leb 9 b && leb b 13 || b == 32

-- The White_Space characters of two and three bytes.
abbrev pub white2 : ℕ → ℕ → Bool
white2 a b = a == 0xC2 && (b == 0x85 || b == 0xA0)

abbrev pub white3 : ℕ → ℕ → ℕ → Bool
white3 a b c =
    a == 0xE1 && b == 0x9A && c == 0x80
    || a == 0xE2 && b == 0x80 && (leb 0x80 c && leb c 0x8A || c == 0xA8 || c == 0xA9 || c == 0xAF)
    || a == 0xE2 && b == 0x81 && c == 0x9F
    || a == 0xE3 && b == 0x80 && c == 0x80

-- The length of the white character that a text begins with, or 0.
abbrev pub white_front : Str → ℕ
white_front [] = 0
white_front (a ∷ []) = if ascii_white a then 1 else 0
white_front (a ∷ b ∷ []) = if ascii_white a then 1 else if white2 a b then 2 else 0
white_front (a ∷ b ∷ c ∷ s) =
    if ascii_white a then 1 else if white2 a b then 2 else if white3 a b c then 3 else 0

-- The same at the end of a text, which is given reversed.
abbrev pub white_back : Str → ℕ
white_back [] = 0
white_back (a ∷ []) = if ascii_white a then 1 else 0
white_back (a ∷ b ∷ []) = if ascii_white a then 1 else if white2 b a then 2 else 0
white_back (a ∷ b ∷ c ∷ s) =
    if ascii_white a then 1 else if white2 b a then 2 else if white3 c b a then 3 else 0

-- Drops white characters, of which a text has no more than bytes.
abbrev pub trim_by : (Str → ℕ) → ℕ → Str → Str
trim_by white zero s = s
trim_by white (suc fuel) s = elim (white s) [
  | zero ↦ s
  | suc n ↦ trim_by white fuel (drop (suc n) s)
]

abbrev pub reverse_onto : Str → Str → Str
reverse_onto [] out = out
reverse_onto (b ∷ bs) out = reverse_onto bs (b ∷ out)

abbrev pub reverse : Str → Str
reverse s = reverse_onto s []

-- `str::trim`
unfoldable pub trim : Str → Str
trim s =
    let front = trim_by white_front (length s) s in
    reverse (trim_by white_back (length front) (reverse front))
