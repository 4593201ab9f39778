-- ===== src/Transcripts/Messages/Signed.antt =====
-- What `signed_message_transcript` (src/transcripts.rs) covers, also of the signer chain.
use identity_crypto.Prelude.{
  ◌≡◌, refl, sym, ◌∙◌, Option, none, some, List, [], ◌∷◌, ◌++◌, All, length, arith, String,
}
use identity_crypto.Prelude.Int.{IsI64}
use identity_crypto.Primitives.{Bytes, Primitives}
use identity_crypto.KeyTypes.{PublicKey}
use identity_crypto.PublicKey.{to_pb}
use identity_crypto.Error.{ok, >>=-elim, ok_or-eq-ok}
use identity_crypto.Pb
use identity_crypto.Transcripts.Tags.{signed_message_tag}
use identity_crypto.Transcripts.Layout.{
  Item, int, var, fixed, twos, twos8-injective, render, Fits, Aligned,
}
use identity_crypto.Transcripts.Enc
use identity_crypto.Transcripts.Enc.{Enc}
use identity_crypto.Transcripts.Enc.Writes.{
  Writes, Writes-bind, Writes-key, Writes-var, Writes-fixed, Writes-i64, Writes-absent,
  Writes-present, Writes-done, fixed-length, key_items,
}
use identity_crypto.Transcripts.Enc.Aligned.{
  int-injective, var-injective, fixed-injective, Aligned-int, Aligned-var, Aligned-fixed,
  Aligned-key, key_items-injective, same_items,
}
use identity_crypto.Transcripts.Enc.Keys.{req-eq-ok}
use identity_crypto.Transcripts.Messages.{signed_message_transcript, chain_cert, opt_fixed}

-- All fields of a message but the signer chain and the signature.
abbrev pub unsigned_message : Pb.SignedMessage → Pb.SignedMessage
unsigned_message m = record m { signer = none; signature = [] }

-- The certificate of the signer chain.
abbrev pub message_cert : Pb.SignedMessage → Option Pb.DelegationCert
message_cert m = elim m.signer [
  | none ↦ none
  | some s ↦ elim s.chain [ none ↦ none | some c ↦ (chain_cert c).0 ]
]

abbrev opt_fixed_items : Option Bytes → List Item
opt_fixed_items none = int 1 0 ∷ []
opt_fixed_items (some x) = int 1 1 ∷ fixed x ∷ []

abbrev HasLength : Option Bytes → Type 0
HasLength none = Unit
HasLength (some x) = length x ≡ 16

Writes-opt_fixed :
    (e : Enc) (field : String) (x : Option Bytes)
    → Writes e (opt_fixed_items x) (opt_fixed e field x 16)
unfolding opt_fixed
Writes-opt_fixed e field none = Writes-absent e (Writes-done _)
Writes-opt_fixed e field (some x) = Writes-present e (Writes-fixed _ field x 16)

opt_fixed-HasLength :
    (e e' : Enc) (field : String) (x : Option Bytes) → opt_fixed e field x 16 ≡ ok e' → HasLength x
unfolding opt_fixed
opt_fixed-HasLength e e' field none h = tt
opt_fixed-HasLength e e' field (some x) h = fixed-length _ field x 16 h

Aligned-opt_fixed :
    {is js : List Item} (h : Aligned is js) (x y : Option Bytes)
    → HasLength x
    → HasLength y
    → Aligned (opt_fixed_items x ++ is) (opt_fixed_items y ++ js)
Aligned-opt_fixed h none none hx hy = Aligned-int h 1 0 0
Aligned-opt_fixed h none (some y) hx hy = Aligned.cons refl (λ e. absurd (ground arith))
Aligned-opt_fixed h (some x) none hx hy = Aligned.cons refl (λ e. absurd (ground arith))
Aligned-opt_fixed h (some x) (some y) hx hy = Aligned-int (Aligned-fixed h x y (hx ∙ sym hy)) 1 1 1

opt_fixed_items-injective :
    (x y : Option Bytes) {is js : List Item}
    → opt_fixed_items x ++ is ≡ opt_fixed_items y ++ js
    → (x ≡ y) × (is ≡ js)
opt_fixed_items-injective none none h = (refl, cc)
opt_fixed_items-injective none (some y) h = ground arith
opt_fixed_items-injective (some x) none h = ground arith
opt_fixed_items-injective (some x) (some y) h = (cc, cc)

abbrev message_items : PublicKey → PublicKey → Pb.SignedMessage → List Item
message_items principal session m =
    key_items principal
    ++ (key_items session
        ++ (var m.audience
            ∷ fixed m.nonce
            ∷ int 8 (twos 8 m.issued_at_unix_seconds)
            ∷ (opt_fixed_items m.in_reply_to_nonce ++ (var m.body_type ∷ var m.body ∷ []))))

-- What a message with a transcript `t` holds.
record MessageParts ⦃p : Primitives⦄ (m : Pb.SignedMessage) (t : Bytes) : Type 0 where
  pub principal : PublicKey
  pub session : PublicKey
  pub cert : Pb.DelegationCert
  pub has_cert : message_cert m ≡ some cert
  pub is_principal : cert.principal_genesis ≡ some (to_pb principal)
  pub is_session : cert.session ≡ some (to_pb session)
  pub nonce_length : length m.nonce ≡ 16
  pub reply_length : HasLength m.in_reply_to_nonce
  pub bytes :
      (t ≡ Enc.new signed_message_tag ++ render (message_items principal session m))
      × All Fits (message_items principal session m)

module _ ⦃p : Primitives⦄ where
  covered_message :
      (m : Pb.SignedMessage) (t : Bytes)
      → IsI64 m.issued_at_unix_seconds
      → signed_message_transcript m ≡ ok t
      → MessageParts m t
  unfolding signed_message_transcript
  covered_message m t hi h = >>=-elim _ _ h λ signer e1 h1. >>=-elim _ _ h1 λ chain e2 h2.
      >>=-elim _ _ h2 λ cert e3 h3. >>=-elim _ _ h3 λ principal e4 h4.
        >>=-elim _ _ h4 λ session e5 h5. >>=-elim _ _ h5 λ _ e6 h6. >>=-elim _ _ h6 λ _ e7 h7.
          >>=-elim _ _ h7 λ _ e8 h8. >>=-elim _ _ h8 λ _ e9 h9. >>=-elim _ _ h9 λ _ e10 h10.
            >>=-elim _ _ h10 λ _ e11 h11. >>=-elim _ _ h11 λ _ e12 h12.
              let writes = Writes-bind (Writes-key (Enc.new signed_message_tag) principal) λ b1.
                Writes-bind (Writes-key b1 session) λ b2.
                  Writes-bind (Writes-var b2 m.audience) λ b3.
                    Writes-bind (Writes-fixed b3 "nonce" m.nonce 16) λ b4. Writes-i64 b4 _ hi (
                      Writes-bind (Writes-opt_fixed _ "in_reply_to_nonce" m.in_reply_to_nonce)
                        λ b5. Writes-bind (Writes-var b5 m.body_type) λ b6. Writes-var b6 m.body) in
              record {
                principal = principal;
                session = session;
                cert = cert;
                has_cert =
                    rw (ok_or-eq-ok m.signer _ e1, ok_or-eq-ok signer.chain _ e2)
                      (ok_or-eq-ok _ _ e3);
                is_principal = (req-eq-ok _ _ principal e4).1;
                is_session = (req-eq-ok _ _ session e5).1;
                nonce_length = fixed-length _ "nonce" m.nonce 16 e11;
                reply_length = opt_fixed-HasLength _ _ "in_reply_to_nonce" m.in_reply_to_nonce e12;
                bytes = writes.at t h7;
              }

  MessageParts-unique :
      {m m' : Pb.SignedMessage} {t : Bytes} (x : MessageParts m t) (y : MessageParts m' t)
      → IsI64 m.issued_at_unix_seconds
      → IsI64 m'.issued_at_unix_seconds
      → (unsigned_message m ≡ unsigned_message m')
        × (x.principal ≡ y.principal)
        × (x.session ≡ y.session)
  MessageParts-unique {m} {m'} {t} x y hm hm' =
      let bodies =
        Aligned-opt_fixed (Aligned-var (Aligned-var Aligned.nil _ _) _ _) m.in_reply_to_nonce
          m'.in_reply_to_nonce x.reply_length y.reply_length in
      let texts =
        Aligned-var
          (Aligned-fixed (Aligned-int bodies 8 _ _) m.nonce m'.nonce
            (x.nonce_length ∙ sym y.nonce_length))
          _ _ in
      let same =
        same_items signed_message_tag _ _ t x.bytes.0 y.bytes.0 x.bytes.1 y.bytes.1
          (Aligned-key (Aligned-key texts _ _) _ _) in
      let (principal, s1) = key_items-injective x.principal y.principal same in
      let (session, s2) = key_items-injective x.session y.session s1 in
      let (audience, s3) = var-injective s2 in
      let (nonce, s4) = fixed-injective s3 in
      let (issued, s5) = int-injective s4 in
      let (reply, s6) = opt_fixed_items-injective m.in_reply_to_nonce m'.in_reply_to_nonce s5 in
      let (type, s7) = var-injective s6 in
      let (body, s8) = var-injective s7 in
      (
        cc (audience, nonce, reply, type, body, twos8-injective _ _ hm hm' issued),
        principal,
        session,
      )

  -- Two messages with one transcript, whose times are in the range of an i64, agree in every field but
  -- the signer chain and the signature, and the certificates of their chains name one principal and
  -- one session key.
  pub signed_message_transcript-injective :
      (m m' : Pb.SignedMessage) (c c' : Pb.DelegationCert) {t : Bytes}
      → IsI64 m.issued_at_unix_seconds
      → IsI64 m'.issued_at_unix_seconds
      → message_cert m ≡ some c
      → message_cert m' ≡ some c'
      → signed_message_transcript m ≡ ok t
      → signed_message_transcript m' ≡ ok t
      → (unsigned_message m ≡ unsigned_message m')
        × (c.principal_genesis ≡ c'.principal_genesis)
        × (c.session ≡ c'.session)
  signed_message_transcript-injective m m' c c' {t} hm hm' hc hc' h h' =
      let x = covered_message m t hm h in
      let y = covered_message m' t hm' h' in
      let (fields, principal, session) = MessageParts-unique x y hm hm' in
      let same_cert : x.cert ≡ c = cc (x.has_cert, hc) in
      let same_cert' : y.cert ≡ c' = cc (y.has_cert, hc') in
      (
        fields,
        cc (same_cert, same_cert', x.is_principal, y.is_principal, principal),
        cc (same_cert, same_cert', x.is_session, y.is_session, session),
      )
