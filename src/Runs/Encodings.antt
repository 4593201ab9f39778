-- ===== src/Runs/Encodings.antt =====
-- Principal ids, transcripts and time windows on concrete data.
use identity_crypto.Transcripts.Kinds.{Subject, kind_of, transcript_of-kind}
use identity_crypto.Prelude.{
  ℕ, ◌<◌, ◌/◌, ◌%◌, ◌*◌, ◌≡◌, refl, ap, arith, inr, true, all, length, [], ◌∷◌,
}
use identity_crypto.Primitives.{Bytes, IsBytes, HexLaws, is_lower_hex}
use identity_crypto.Error.{ok, ◌>>=◌}
use identity_crypto.Pb
use identity_crypto.PublicKey.{or_invalid_key, p256, try_from, IsKey}
use identity_crypto.Transcripts.Enc
use identity_crypto.Transcripts.Enc.{req, opt_try}
use identity_crypto.Transcripts.Keys.{key_delegation_transcript, signing_purpose, encryption_half}
use identity_crypto.Transcripts.Keys.Covers.{unsigned, key_delegation_transcript-injective}
use identity_crypto.Principal.{parse_canonical, to_string}
use identity_crypto.Principal.RoundTrip.{parse_canonical-to_string, to_string-parse_canonical}
use identity_crypto.Runs.{toy, device, alice, hex, unhex, hex_digit, digit_value}

-- The device's delegation with another signature.
abbrev forged : Pb.KeyDelegation
forged = record device { signature = [] }

abbrev transcript : Bytes
transcript = elim (key_delegation_transcript device) [ ok t ↦ t | _ ↦ [] ]

device_transcript : key_delegation_transcript device ≡ ok transcript
unfolding key_delegation_transcript signing_purpose encryption_half req opt_try try_from p256
    or_invalid_key Enc.key Enc.u8 Enc.var Enc.i64 Enc.present Enc.opt_key ◌>>=◌
device_transcript = refl

forged_transcript : key_delegation_transcript forged ≡ ok transcript
unfolding key_delegation_transcript signing_purpose encryption_half req opt_try try_from p256
    or_invalid_key Enc.key Enc.u8 Enc.var Enc.i64 Enc.present Enc.opt_key ◌>>=◌
forged_transcript = refl

key_delegation_transcript-injective_example : unsigned device ≡ unsigned forged
key_delegation_transcript-injective_example =
    key_delegation_transcript-injective device forged (ground arith, ground arith)
      (ground arith, ground arith) device_transcript forged_transcript

hex_digit-IsLower : (d : ℕ) → d < 16 → is_lower_hex (hex_digit d) ≡ true
hex_digit-IsLower d h = ground arith

digit_value-hex_digit : (d : ℕ) → d < 16 → digit_value (hex_digit d) ≡ d
digit_value-hex_digit d h = ground arith

unhex-hex : (b : Bytes) → IsBytes b → unhex (hex b) ≡ inr b
unhex-hex [] h = refl
unhex-hex (b ∷ bs) (hb, hs) =
    rw
      (
        unhex-hex bs hs,
        digit_value-hex_digit (b / 16) (omega arith),
        digit_value-hex_digit (b % 16) (omega arith),
      )
      (ap (λ (x : ℕ). inr (x ∷ bs)) (omega arith))

length-hex : (b : Bytes) → length (hex b) ≡ 2 * length b
length-hex [] = refl
length-hex (b ∷ bs) = omega (arith, length-hex bs)

hex-IsLower : (b : Bytes) → IsBytes b → all is_lower_hex (hex b) ≡ true
hex-IsLower [] h = refl
hex-IsLower (b ∷ bs) (hb, hs) =
    rw (hex_digit-IsLower (b / 16) (omega arith), hex_digit-IsLower (b % 16) (omega arith))
      (hex-IsLower bs hs)

-- The model's `hex` behaves as documented.
pub toy-HexLaws : HexLaws toy
toy-HexLaws = record {
  encode_length = λ b h. length-hex b;
  decode_encode = unhex-hex;
  encode_digits = hex-IsLower;
}

alice-IsKey : IsKey alice.genesis
alice-IsKey = record { scheme = refl; size = refl; imports = refl }

parse_canonical-to_string_example : parse_canonical (to_string alice) ≡ ok alice
parse_canonical-to_string_example =
    parse_canonical-to_string alice toy-HexLaws alice-IsKey (ground arith)

alice_text : parse_canonical (to_string alice) ≡ ok alice
alice_text = parse_canonical-to_string alice toy-HexLaws alice-IsKey (ground arith)

to_string-parse_canonical_example : (to_string alice ≡ to_string alice) × IsKey alice.genesis
to_string-parse_canonical_example = to_string-parse_canonical (to_string alice) alice alice_text

transcript_of-kind_example :
    kind_of (Subject.key_delegation device) ≡ kind_of (Subject.key_delegation forged)
transcript_of-kind_example =
    transcript_of-kind (Subject.key_delegation device) (Subject.key_delegation forged)
      device_transcript forged_transcript
