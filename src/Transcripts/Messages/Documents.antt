-- ===== src/Transcripts/Messages/Documents.antt =====
-- What `signed_document_transcript` (src/transcripts.rs) covers.
use identity_crypto.Prelude.{◌<◌, ◌^◌, ◌≡◌, some, List, [], ◌∷◌, ◌++◌, All}
use identity_crypto.Prelude.Int.{IsI64}
use identity_crypto.Primitives.{Bytes, Primitives}
use identity_crypto.KeyTypes.{PublicKey}
use identity_crypto.PublicKey.{to_pb}
use identity_crypto.Error.{ok, >>=-elim}
use identity_crypto.Pb
use identity_crypto.Transcripts.Tags.{signed_document_tag}
use identity_crypto.Transcripts.Layout.{
  Item, int, var, twos, twos8-injective, render, Fits, Aligned,
}
use identity_crypto.Transcripts.Enc
use identity_crypto.Transcripts.Enc.{Enc}
use identity_crypto.Transcripts.Enc.Writes.{
  Writes-bind, Writes-key, Writes-var, Writes-u64, Writes-i64, key_items,
}
use identity_crypto.Transcripts.Enc.Aligned.{
  int-injective, var-injective, Aligned-int, Aligned-var, Aligned-key, key_items-injective,
  same_items,
}
use identity_crypto.Transcripts.Enc.Keys.{req-eq-ok}
use identity_crypto.Transcripts.Messages.{signed_document_transcript}

-- All fields of a document but the signature and the rotations, which the signature does not cover.
abbrev pub unsigned_document : Pb.SignedDocument → Pb.SignedDocument
unsigned_document d = record d { signature = []; signer_rotations = [] }

-- The numbers of a document are in the ranges of their types.
abbrev pub DocumentInRange : Pb.SignedDocument → Type 0
DocumentInRange d =
    (d.version < 256 ^ 8) × IsI64 d.issued_at_unix_seconds × IsI64 d.expires_at_unix_seconds

abbrev document_items : PublicKey → PublicKey → Pb.SignedDocument → List Item
document_items signer signing d =
    key_items signer
    ++ (key_items signing
        ++ (var d.document_type
            ∷ int 8 d.version
            ∷ int 8 (twos 8 d.issued_at_unix_seconds)
            ∷ int 8 (twos 8 d.expires_at_unix_seconds)
            ∷ var d.body
            ∷ []))

-- What a document with a transcript `t` holds.
record Document ⦃p : Primitives⦄ (d : Pb.SignedDocument) (t : Bytes) : Type 0 where
  pub signer : PublicKey
  pub signing : PublicKey
  pub is_signer : d.signer_genesis ≡ some (to_pb signer)
  pub is_signing : d.signing ≡ some (to_pb signing)
  pub bytes :
      (t ≡ Enc.new signed_document_tag ++ render (document_items signer signing d))
      × All Fits (document_items signer signing d)

module _ ⦃p : Primitives⦄ where
  covered_fields :
      (d : Pb.SignedDocument) (t : Bytes)
      → DocumentInRange d
      → signed_document_transcript d ≡ ok t
      → Document d t
  unfolding signed_document_transcript
  covered_fields d t (hv, hi, hx) h = >>=-elim _ _ h λ signer e1 h1.
      >>=-elim _ _ h1 λ signing e2 h2. >>=-elim _ _ h2 λ _ e3 h3.
        let writes = Writes-bind (Writes-key (Enc.new signed_document_tag) signer) λ a.
          Writes-bind (Writes-key a signing) λ b. Writes-bind (Writes-var b d.document_type) λ c.
            Writes-u64 c d.version hv
              (Writes-i64 _ _ hi (Writes-i64 _ _ hx (Writes-var _ d.body))) in
        record {
          signer = signer;
          signing = signing;
          is_signer = (req-eq-ok _ _ signer e1).1;
          is_signing = (req-eq-ok _ _ signing e2).1;
          bytes = writes.at t h3;
        }

  Document-unique :
      {d d' : Pb.SignedDocument} {t : Bytes} (x : Document d t) (y : Document d' t)
      → DocumentInRange d
      → DocumentInRange d'
      → unsigned_document d ≡ unsigned_document d'
  Document-unique {d} {d'} {t} x y hd hd' =
      let tail =
        Aligned-int (Aligned-int (Aligned-int (Aligned-var Aligned.nil _ _) 8 _ _) 8 _ _) 8 _ _ in
      let same =
        same_items signed_document_tag _ _ t x.bytes.0 y.bytes.0 x.bytes.1 y.bytes.1
          (Aligned-key (Aligned-key (Aligned-var tail _ _) _ _) _ _) in
      let (signer, s1) = key_items-injective x.signer y.signer same in
      let (signing, s2) = key_items-injective x.signing y.signing s1 in
      let (type, s3) = var-injective s2 in
      let (version, s4) = int-injective s3 in
      let (issued, s5) = int-injective s4 in
      let (expires, s6) = int-injective s5 in
      let (body, s7) = var-injective s6 in
      cc (
        signer,
        signing,
        type,
        version,
        body,
        x.is_signer,
        y.is_signer,
        x.is_signing,
        y.is_signing,
        twos8-injective _ _ hd.1 hd'.1 issued,
        twos8-injective _ _ hd.2 hd'.2 expires,
      )

  -- Two documents with one transcript, whose version and times are in the ranges of a u64 and an i64,
  -- agree in every field but the signature and the rotations.
  pub signed_document_transcript-injective :
      (d d' : Pb.SignedDocument) {t : Bytes}
      → DocumentInRange d
      → DocumentInRange d'
      → signed_document_transcript d ≡ ok t
      → signed_document_transcript d' ≡ ok t
      → unsigned_document d ≡ unsigned_document d'
  signed_document_transcript-injective d d' {t} hd hd' h h' =
      Document-unique (covered_fields d t hd h) (covered_fields d' t hd' h') hd hd'
