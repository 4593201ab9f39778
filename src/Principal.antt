-- ===== src/Principal.antt =====
-- src/principal.rs: principal ids `p256:<130 lowercase hex>` and their 8-byte short ids.
pub mod RoundTrip
use Prim.Native.Char.{code}
use Prim.Native.String
use identity_crypto.Prelude.{
  ℕ, suc, ◌+◌, ◌≤◌, String, Bool, true, false, not, ◌⊎◌, ◌&&◌, ◌||◌, Option, none, some, List, [],
  ◌∷◌, ◌++◌, map, leb, ltb, length, take, drop, all, inl, inr, ◌==◌, ◌!=◌, nat_eq, list_eq,
  if◌then◌else◌,
}
use identity_crypto.Primitives.{Bytes, Str, Primitives, is_lower_hex}
use identity_crypto.KeyTypes.{PublicKey, PrincipalId}
use identity_crypto.Error.{
  Error, Result, ok, err, panic, ◌>>=◌, ◌>>◌, reject_if, ok_or, malformed_principal,
  non_canonical_principal, malformed_short_id,
}
use identity_crypto.PublicKey.{p256, to_hex}

-- The bytes of an ASCII literal.
abbrev pub ascii : String → Str
ascii (String.◌∷◌ letter more) = code letter ∷ ascii more
ascii String.[] = []

-- `const PREFIX`
abbrev pub prefix : Str
prefix = ascii "p256:"

abbrev to_ascii_lowercase : ℕ → ℕ
to_ascii_lowercase b = if leb b'A' b && leb b b'Z' then b + 32 else b

-- `str::eq_ignore_ascii_case`
abbrev pub eq_ignore_ascii_case : Str → Str → Bool
eq_ignore_ascii_case a b = map to_ascii_lowercase a == map to_ascii_lowercase b

-- `str::is_char_boundary`: the end, or no continuation byte 10xxxxxx.
abbrev pub starts_char : Str → Bool
starts_char [] = true
starts_char (b ∷ bs) = ltb b 128 || leb 192 b

-- `str::get(..n)`
abbrev pub get_front : ℕ → Str → Option Str
get_front n s = if leb n (length s) && starts_char (drop n s) then some (take n s) else none

pub record ShortId : Type 0 where
  pub bytes : Bytes

-- `.map_err(|_| …)`: the foreign error is dropped.
unfoldable pub decoded {ℓ} : {A : Type ℓ} → String ⊎ A → Error → Result A
decoded (inl x) e = err e
decoded (inr a) e = ok a

module _ ⦃p : Primitives⦄ where
  -- `impl Display for PrincipalId`
  unfoldable pub to_string : PrincipalId → Str
  unfolding to_hex
  to_string id = prefix ++ to_hex id.genesis

  -- `PrincipalId::parse`
  unfoldable pub parse : Str → Result PrincipalId
  parse s = do
    front ← ok_or (get_front 5 s) (malformed_principal "missing p256: prefix")
    reject_if (not (eq_ignore_ascii_case front prefix)) (malformed_principal "missing p256: prefix")
    let hex_part = drop 5 s
    reject_if (length hex_part != 130) (malformed_principal "expected 130 hex digits")
    bytes ← decoded (p.hex_decode hex_part) (malformed_principal "not hex")
    genesis ← p256 bytes
    ok (record { genesis = genesis })

  -- `PrincipalId::parse_canonical`
  unfoldable pub parse_canonical : Str → Result PrincipalId
  parse_canonical s = do id ← parse s; reject_if (to_string id != s) non_canonical_principal; ok id

  -- `PrincipalId::short_id`: the first 8 bytes of SHA-256 over the genesis key.
  unfoldable pub short_id : PrincipalId → ShortId
  short_id id = record { bytes = take 8 (p.sha256 id.genesis.bytes) }

  -- `impl Display for ShortId`
  unfoldable pub short_id_to_string : ShortId → Str
  short_id_to_string s = p.hex_encode s.bytes

  -- `ShortId::parse`; `copy_from_slice` panics on a slice of another length.
  pub parse_short_id : Str → Result ShortId
  parse_short_id s = do
    reject_if (length s != 16) (malformed_short_id "expected 16 hex digits")
    bytes ← decoded (p.hex_decode s) (malformed_short_id "not hex")
    if length bytes == 8 then ok (record { bytes = bytes }) else panic

  -- `ShortId::parse_canonical`
  pub parse_short_id_canonical : Str → Result ShortId
  unfolding parse_short_id
  parse_short_id_canonical s = do
    reject_if (not (all is_lower_hex s)) (malformed_short_id "expected lowercase hex")
    parse_short_id s
