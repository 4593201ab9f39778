-- ===== src/Principal/RoundTrip.antt =====
-- Printing and parsing of principal ids (src/principal.rs), and of keys (src/public_key.rs).
use identity_crypto.Prelude.{
  ◌≡◌, refl, true, [], ◌∷◌, arith, all, eq_self, String, ◌⊎◌, inr, list_eq, nat_eq, list_beq_iff,
  inl,
}
use identity_crypto.Primitives.{Bytes, Str, is_lower_hex, Primitives, IsBytes, HexLaws}
use identity_crypto.KeyTypes.{PrincipalId}
use identity_crypto.Error.{malformed_principal, ok, ◌>>=◌, >>=-eq-ok}
use identity_crypto.PublicKey.{or_invalid_key, p256, IsKey, p256-IsKey}
use identity_crypto.Principal.{starts_char, parse, parse_canonical, to_string, decoded}

-- The hex digits are ASCII, so the fifth byte of a printed id starts a character.
hex_starts_char : (h : Str) → all is_lower_hex h ≡ true → starts_char h ≡ true
hex_starts_char [] e = refl
hex_starts_char (c ∷ cs) e = ground arith

module _ ⦃p : Primitives⦄ where
  parsed-IsKey :
      (s : String ⊎ Bytes) (id : PrincipalId)
      → (do
        bytes ← decoded s (malformed_principal "not hex")
        genesis ← p256 bytes
        ok (record { genesis = genesis }))
        ≡ ok id
      → IsKey id.genesis
  unfolding decoded ◌>>=◌
  parsed-IsKey (inl x) id h = cc
  parsed-IsKey (inr b) id h = ground (arith, p256-IsKey b id.genesis)

  pub parse-IsKey : (s : Str) (id : PrincipalId) → parse s ≡ ok id → IsKey id.genesis
  unfolding parse
  parse-IsKey s id h =
      let (f, e1, h1) = >>=-eq-ok _ _ h in
      let (u, e2, h2) = >>=-eq-ok _ _ h1 in
      let (v, e3, h3) = >>=-eq-ok _ _ h2 in parsed-IsKey _ id h3

  -- A text that is accepted as canonical is the printed form of the id that it gives.
  pub to_string-parse_canonical :
      (s : Str) (id : PrincipalId)
      → parse_canonical s ≡ ok id
      → (to_string id ≡ s) × IsKey id.genesis
  unfolding parse_canonical ◌>>=◌
  to_string-parse_canonical s id h = ground (arith, list_beq_iff (to_string id) s, parse-IsKey s id)

  pub parse-to_string :
      (id : PrincipalId)
      → HexLaws p
      → IsKey id.genesis
      → IsBytes id.genesis.bytes
      → parse (to_string id) ≡ ok id
  unfolding parse to_string p256 decoded or_invalid_key ◌>>=◌
  parse-to_string id laws v bytes = ground (
    arith,
    laws.decode_encode id.genesis.bytes bytes,
    laws.encode_length id.genesis.bytes bytes,
    hex_starts_char (p.hex_encode id.genesis.bytes) (laws.encode_digits id.genesis.bytes bytes),
  )

  -- Where `hex` behaves as documented, printing the id of a validated key and parsing the text as
  -- canonical gives the id back.
  pub parse_canonical-to_string :
      (id : PrincipalId)
      → HexLaws p
      → IsKey id.genesis
      → IsBytes id.genesis.bytes
      → parse_canonical (to_string id) ≡ ok id
  unfolding parse_canonical ◌>>=◌
  parse_canonical-to_string id laws v bytes =
      ground (arith, parse-to_string id laws v bytes, eq_self (to_string id))
