-- ===== src/Transcripts/Enc.antt =====
-- src/transcripts.rs, `struct Enc` and its methods. A method that mutates the buffer returns it.
pub mod Writes
pub mod Appends
pub mod Aligned
pub mod Keys
use identity_crypto.Prelude.{
  ℕ, ◌+◌, ◌^◌, String, Bool, true, false, not, ◌&&◌, ◌||◌, Option, none, some, List, [], ◌∷◌, ◌++◌,
  length, leb, ltb, is_empty, if◌then◌else◌, ◌!=◌, nat_eq,
}
use identity_crypto.Prelude.Int.{ℤ, pos, negsuc, ltb_ℤ}
use identity_crypto.Primitives.{Bytes, Str, Primitives}
use identity_crypto.KeyTypes.{PublicKey, scheme_number}
use identity_crypto.PublicKey.{try_from}
use identity_crypto.Principal.{ascii}
use identity_crypto.Error.{
  Error, Result, ok, err, ◌>>=◌, ◌>>◌, reject_if, ok_or, invalid_field, bad_length,
  scalar_out_of_range, missing_field,
}
use identity_crypto.Pb
use identity_crypto.Transcripts.Layout.{be, twos}

abbrev pub Enc : Type 0
Enc = Bytes

-- `Enc::new`: the tag, then NUL.
abbrev pub new : Str → Enc
new tag = tag ++ (0 ∷ [])

-- `Enc::var`
unfoldable pub var : Enc → Bytes → Result Enc
var e x = do
  reject_if (leb (256 ^ 4) (length x)) (invalid_field "length" "exceeds u32")
  ok (e ++ (be 4 (length x) ++ x))

abbrev in_u8 : ℤ → Option ℕ
in_u8 (pos n) = if ltb n 256 then some n else none
in_u8 (negsuc n) = none

-- `Enc::u8`
unfoldable pub u8 : Enc → String → ℤ → Result Enc
u8 e field v = do b ← ok_or (in_u8 v) (scalar_out_of_range field v); ok (e ++ (b ∷ []))

-- `Enc::key`, `Enc::principal`
unfoldable pub key : Enc → PublicKey → Result Enc
key e k = do e ← u8 e "scheme" (pos (scheme_number k.scheme)); var e k.bytes

abbrev pub principal : Enc → PublicKey → Result Enc
principal = key

-- `Enc::absent`, `Enc::present`
unfoldable pub absent : Enc → Enc
absent e = e ++ (0 ∷ [])

unfoldable pub present : Enc → Enc
present e = e ++ (1 ∷ [])

-- `Enc::opt_key`
unfoldable pub opt_key : Enc → Option PublicKey → Result Enc
opt_key e none = ok (absent e)
opt_key e (some k) = key (present e) k

-- `Enc::i64`, `Enc::u64`, `Enc::i32`
unfoldable pub i64 : Enc → ℤ → Enc
i64 e v = e ++ be 8 (twos 8 v)

unfoldable pub u64 : Enc → ℕ → Enc
u64 e v = e ++ be 8 v

unfoldable pub i32 : Enc → ℤ → Enc
i32 e v = e ++ be 4 (twos 4 v)

-- `Enc::u32`
unfoldable pub u32 : Enc → String → ℕ → Result Enc
u32 e field n = do reject_if (leb (256 ^ 4) n) (invalid_field field "too many"); ok (e ++ be 4 n)

-- `Enc::fixed`
unfoldable pub fixed : Enc → String → Bytes → ℕ → Result Enc
fixed e field x n = do reject_if (length x != n) (bad_length field n (length x)); ok (e ++ x)

-- `fn non_empty`
unfoldable pub non_empty : String → Bytes → Result (Unit {0})
non_empty field x = reject_if (is_empty x) (invalid_field field "empty")

module _ ⦃p : Primitives⦄ where
  -- `fn req`
  unfoldable pub req : Option Pb.PublicKey → String → Result PublicKey
  req k field = do w ← ok_or k (missing_field field); try_from w

  -- `fn opt_key`
  unfoldable pub opt_try : Option Pb.PublicKey → Result (Option PublicKey)
  opt_try none = ok none
  opt_try (some w) = do k ← try_from w; ok (some k)
