-- ===== src/Transcripts/Messages/Approvals.antt =====
-- What `approval_transcript` (src/transcripts.rs) covers.
use identity_crypto.Prelude.{◌≡◌, sym, ◌∙◌, Bool, some, List, [], ◌∷◌, ◌++◌, All, length, arith}
use identity_crypto.Prelude.Int.{pos_part, IsI64}
use identity_crypto.Primitives.{Bytes, Primitives}
use identity_crypto.KeyTypes.{PublicKey}
use identity_crypto.PublicKey.{to_pb}
use identity_crypto.Error.{ok, >>=-elim}
use identity_crypto.Pb
use identity_crypto.Transcripts.Tags.{approval_tag}
use identity_crypto.Transcripts.Layout.{
  Item, int, var, fixed, twos, twos8-injective, render, Fits, Aligned,
}
use identity_crypto.Transcripts.Enc
use identity_crypto.Transcripts.Enc.{Enc}
use identity_crypto.Transcripts.Enc.Writes.{
  Writes-bind, Writes-key, Writes-var, Writes-u8, Writes-fixed, Writes-i64, Writes-done,
  fixed-length, key_items,
}
use identity_crypto.Transcripts.Enc.Aligned.{
  int-injective, var-injective, fixed-injective, Aligned-int, Aligned-var, Aligned-fixed,
  Aligned-key, key_items-injective, same_items,
}
use identity_crypto.Transcripts.Enc.Keys.{req-eq-ok}
use identity_crypto.Transcripts.Messages.{approval_transcript, bool_number}

-- All fields of an approval but the signature.
abbrev pub unsigned_approval : Pb.Approval → Pb.Approval
unsigned_approval a = record a { signature = [] }

abbrev approval_items : PublicKey → PublicKey → PublicKey → Pb.Approval → List Item
approval_items principal key device a =
    key_items principal
    ++ (key_items key
        ++ (key_items device
            ++ (var a.audience
                ∷ var a.request_id
                ∷ fixed a.request_digest
                ∷ int 1 (pos_part (bool_number a.accept))
                ∷ int 8 (twos 8 a.issued_at_unix_seconds)
                ∷ [])))

-- What an approval with a transcript `t` holds.
record ApprovalParts ⦃p : Primitives⦄ (a : Pb.Approval) (t : Bytes) : Type 0 where
  pub principal : PublicKey
  pub key : PublicKey
  pub device : PublicKey
  pub is_principal : a.principal_genesis ≡ some (to_pb principal)
  pub is_key : a.approval_key ≡ some (to_pb key)
  pub is_device : a.device ≡ some (to_pb device)
  pub digest_length : length a.request_digest ≡ 32
  pub bytes :
      (t ≡ Enc.new approval_tag ++ render (approval_items principal key device a))
      × All Fits (approval_items principal key device a)

bool_number-injective : (b c : Bool) → pos_part (bool_number b) ≡ pos_part (bool_number c) → b ≡ c
bool_number-injective b c h = ground arith

module _ ⦃p : Primitives⦄ where
  approval_parts :
      (a : Pb.Approval) (t : Bytes)
      → IsI64 a.issued_at_unix_seconds
      → approval_transcript a ≡ ok t
      → ApprovalParts a t
  unfolding approval_transcript
  approval_parts a t hi h = >>=-elim _ _ h λ principal e1 h1. >>=-elim _ _ h1 λ key e2 h2.
      >>=-elim _ _ h2 λ device e3 h3. >>=-elim _ _ h3 λ _ e4 h4. >>=-elim _ _ h4 λ _ e5 h5.
        >>=-elim _ _ h5 λ _ e6 h6. >>=-elim _ _ h6 λ _ e7 h7. >>=-elim _ _ h7 λ _ e8 h8.
          >>=-elim _ _ h8 λ _ e9 h9. >>=-elim _ _ h9 λ buffer e10 h10. >>=-elim _ _ h10 λ _ e11 h11.
            let writes = Writes-bind (Writes-key (Enc.new approval_tag) principal) λ b1.
              Writes-bind (Writes-key b1 key) λ b2. Writes-bind (Writes-key b2 device) λ b3.
                Writes-bind (Writes-var b3 a.audience) λ b4.
                  Writes-bind (Writes-var b4 a.request_id) λ b5.
                    Writes-bind (Writes-fixed b5 "request_digest" a.request_digest 32) λ b6.
                      Writes-bind (Writes-u8 b6 "accept" (bool_number a.accept))
                        λ b7. Writes-i64 b7 _ hi (Writes-done _) in
            record {
              principal = principal;
              key = key;
              device = device;
              is_principal = (req-eq-ok _ _ principal e1).1;
              is_key = (req-eq-ok _ _ key e2).1;
              is_device = (req-eq-ok _ _ device e3).1;
              digest_length = fixed-length _ "request_digest" a.request_digest 32 e11;
              bytes = writes.at t h5;
            }

  ApprovalParts-unique :
      {a a' : Pb.Approval} {t : Bytes} (x : ApprovalParts a t) (y : ApprovalParts a' t)
      → IsI64 a.issued_at_unix_seconds
      → IsI64 a'.issued_at_unix_seconds
      → unsigned_approval a ≡ unsigned_approval a'
  ApprovalParts-unique {a} {a'} {t} x y ha ha' =
      let tail = Aligned-int (Aligned-int Aligned.nil 8 _ _) 1 _ _ in
      let texts =
        Aligned-var
          (Aligned-var
            (Aligned-fixed tail a.request_digest a'.request_digest
              (x.digest_length ∙ sym y.digest_length))
            _ _)
          _ _ in
      let same =
        same_items approval_tag _ _ t x.bytes.0 y.bytes.0 x.bytes.1 y.bytes.1
          (Aligned-key (Aligned-key (Aligned-key texts _ _) _ _) _ _) in
      let (principal, s1) = key_items-injective x.principal y.principal same in
      let (key, s2) = key_items-injective x.key y.key s1 in
      let (device, s3) = key_items-injective x.device y.device s2 in
      let (audience, s4) = var-injective s3 in
      let (request, s5) = var-injective s4 in
      let (digest, s6) = fixed-injective s5 in
      let (accept, s7) = int-injective s6 in
      let (issued, s8) = int-injective s7 in
      cc (
        principal,
        key,
        device,
        audience,
        request,
        digest,
        bool_number-injective _ _ accept,
        twos8-injective _ _ ha ha' issued,
        x.is_principal,
        y.is_principal,
        x.is_key,
        y.is_key,
        x.is_device,
        y.is_device,
      )

  -- Two approvals with one transcript, whose times are in the range of an i64, agree in every field
  -- but the signature: the same human, key and device decided the same request in the same way.
  pub approval_transcript-injective :
      (a a' : Pb.Approval) {t : Bytes}
      → IsI64 a.issued_at_unix_seconds
      → IsI64 a'.issued_at_unix_seconds
      → approval_transcript a ≡ ok t
      → approval_transcript a' ≡ ok t
      → unsigned_approval a ≡ unsigned_approval a'
  approval_transcript-injective a a' {t} ha ha' h h' =
      ApprovalParts-unique (approval_parts a t ha h) (approval_parts a' t ha' h') ha ha'
