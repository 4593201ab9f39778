-- ===== src/Transcripts/Keys/Covers.antt =====
-- What `key_delegation_transcript` (src/transcripts.rs) covers.
use identity_crypto.Prelude.{◌≡◌, refl, ap, Option, none, some, List, [], ◌∷◌, ◌++◌, All}
use identity_crypto.Prelude.Int.{ℤ, pos, negsuc, pos_part, IsI64}
use identity_crypto.Primitives.{Bytes, Primitives}
use identity_crypto.KeyTypes.{PublicKey}
use identity_crypto.PublicKey.{to_pb}
use identity_crypto.Error.{ok, >>=-eq-ok}
use identity_crypto.Pb
use identity_crypto.Transcripts.Tags.{key_delegation_tag}
use identity_crypto.Transcripts.Layout.{Item, int, twos, twos8-injective, render, Fits, Aligned}
use identity_crypto.Transcripts.Purpose.{KeyPurpose}
use identity_crypto.Transcripts.Enc
use identity_crypto.Transcripts.Enc.{req, opt_try}
use identity_crypto.Transcripts.Enc.Writes.{
  Writes, Writes-bind, Writes-key, Writes-opt_key, Writes-u8, Writes-i64, Writes-done, key_items,
  opt_key_items,
}
use identity_crypto.Transcripts.Enc.Aligned.{
  int-injective, Aligned-int, Aligned-key, Aligned-opt_key, key_items-injective,
  opt_key_items-injective, same_items,
}
use identity_crypto.Transcripts.Enc.Keys.{opt_pb, req-eq-ok, opt_try-eq-ok}
use identity_crypto.Transcripts.Keys.{
  signing_purpose, encryption_half, write_key_delegation, key_delegation_transcript,
}

-- All fields of a delegation but the signature.
abbrev pub unsigned : Pb.KeyDelegation → Pb.KeyDelegation
unsigned d = record d { signature = [] }

abbrev delegation_items :
    PublicKey → PublicKey → PublicKey → Option PublicKey → Pb.KeyDelegation → List Item
delegation_items principal root delegated encryption d =
    key_items principal
    ++ (key_items root
        ++ (int 1 (pos_part d.purpose)
            ∷ (key_items delegated
                ++ (opt_key_items encryption
                    ++ (int 8 (twos 8 d.issued_at_unix_seconds)
                        ∷ int 8 (twos 8 d.not_after_unix_seconds)
                        ∷ [])))))

purpose-nonneg : (z : ℤ) (q : KeyPurpose) → signing_purpose z ≡ ok q → z ≡ pos (pos_part z)
unfolding signing_purpose
purpose-nonneg (pos n) q h = refl
purpose-nonneg (negsuc n) q h = cc

-- What a delegation with a transcript `t` holds.
record Delegation ⦃p : Primitives⦄ (d : Pb.KeyDelegation) (t : Bytes) : Type 0 where
  pub principal : PublicKey
  pub root : PublicKey
  pub delegated : PublicKey
  pub encryption : Option PublicKey
  pub is_principal : d.principal_genesis ≡ some (to_pb principal)
  pub is_root : d.signing_root ≡ some (to_pb root)
  pub is_delegated : d.delegated ≡ some (to_pb delegated)
  pub is_encryption : d.delegated_encryption ≡ opt_pb encryption
  pub is_purpose : d.purpose ≡ pos (pos_part d.purpose)
  pub bytes :
      (t
        ≡ Enc.new key_delegation_tag
          ++ render (delegation_items principal root delegated encryption d))
      × All Fits (delegation_items principal root delegated encryption d)

module _ ⦃p : Primitives⦄ where
  encryption_half-eq-ok :
      (q : KeyPurpose) (w : Option Pb.PublicKey) (k : Option PublicKey)
      → encryption_half q w ≡ ok k
      → w ≡ opt_pb k
  unfolding encryption_half
  encryption_half-eq-ok KeyPurpose.device none k h = cc
  encryption_half-eq-ok KeyPurpose.approval (some v) k h = cc
  encryption_half-eq-ok _ w k h = opt_try-eq-ok w k h

  delegation-Writes :
      (a r g : PublicKey) (e : Option PublicKey) (d : Pb.KeyDelegation)
      → IsI64 d.issued_at_unix_seconds
      → IsI64 d.not_after_unix_seconds
      → Writes
          (Enc.new key_delegation_tag)
          (delegation_items a r g e d)
          (write_key_delegation a r g e d)
  unfolding write_key_delegation
  delegation-Writes a r g e d hi hn = Writes-bind (Writes-key _ a) λ e1.
      Writes-bind (Writes-key e1 r) λ e2. Writes-bind (Writes-u8 e2 "purpose" d.purpose) λ e3.
        Writes-bind (Writes-key e3 g) λ e4.
          Writes-bind (Writes-opt_key e4 e)
            λ e5. Writes-i64 e5 _ hi (Writes-i64 _ _ hn (Writes-done _))

  covered_parts :
      (d : Pb.KeyDelegation) (t : Bytes)
      → IsI64 d.issued_at_unix_seconds
      → IsI64 d.not_after_unix_seconds
      → key_delegation_transcript d ≡ ok t
      → Delegation d t
  unfolding key_delegation_transcript
  covered_parts d t hi hn h =
      let (a, ea, h1) = >>=-eq-ok _ _ h in
      let (r, er, h2) = >>=-eq-ok _ _ h1 in
      let (q, eq, h3) = >>=-eq-ok _ _ h2 in
      let (g, eg, h4) = >>=-eq-ok _ _ h3 in
      let (e, ee, h5) = >>=-eq-ok _ _ h4 in
      let (u, eu, h6) = >>=-eq-ok _ _ h5 in
      record {
        principal = a;
        root = r;
        delegated = g;
        encryption = e;
        is_principal = (req-eq-ok _ _ a ea).1;
        is_root = (req-eq-ok _ _ r er).1;
        is_delegated = (req-eq-ok _ _ g eg).1;
        is_encryption = encryption_half-eq-ok q _ e ee;
        is_purpose = purpose-nonneg _ q eq;
        bytes = (delegation-Writes a r g e d hi hn).at t h6;
      }

  Delegation-unique :
      {d d' : Pb.KeyDelegation} {t : Bytes} (x : Delegation d t) (y : Delegation d' t)
      → IsI64 d.issued_at_unix_seconds × IsI64 d.not_after_unix_seconds
      → IsI64 d'.issued_at_unix_seconds × IsI64 d'.not_after_unix_seconds
      → unsigned d ≡ unsigned d'
  Delegation-unique {d} {d'} {t} x y hd hd' =
      let a1 = Aligned-int (Aligned-int Aligned.nil 8 _ _) 8 _ _ in
      let a2 = Aligned-int (Aligned-key (Aligned-opt_key a1 _ _) _ _) 1 _ _ in
      let same =
        same_items key_delegation_tag _ _ t x.bytes.0 y.bytes.0 x.bytes.1 y.bytes.1
          (Aligned-key (Aligned-key a2 _ _) _ _) in
      let (principal, s1) = key_items-injective x.principal y.principal same in
      let (root, s2) = key_items-injective x.root y.root s1 in
      let (purpose, s3) = int-injective s2 in
      let (delegated, s4) = key_items-injective x.delegated y.delegated s3 in
      let (encryption, s5) = opt_key_items-injective x.encryption y.encryption s4 in
      let (issued, s6) = int-injective s5 in
      let (not_after, s7) = int-injective s6 in
      cc (
        principal,
        root,
        delegated,
        encryption,
        x.is_principal,
        y.is_principal,
        x.is_root,
        y.is_root,
        x.is_delegated,
        y.is_delegated,
        x.is_encryption,
        y.is_encryption,
        x.is_purpose,
        y.is_purpose,
        ap pos purpose,
        twos8-injective _ _ hd.0 hd'.0 issued,
        twos8-injective _ _ hd.1 hd'.1 not_after,
      )

  -- Two delegations with one transcript agree in every field but the signature.
  pub key_delegation_transcript-injective :
      (d d' : Pb.KeyDelegation) {t : Bytes}
      → IsI64 d.issued_at_unix_seconds × IsI64 d.not_after_unix_seconds
      → IsI64 d'.issued_at_unix_seconds × IsI64 d'.not_after_unix_seconds
      → key_delegation_transcript d ≡ ok t
      → key_delegation_transcript d' ≡ ok t
      → unsigned d ≡ unsigned d'
  key_delegation_transcript-injective d d' {t} hd hd' h h' =
      Delegation-unique (covered_parts d t hd.0 hd.1 h) (covered_parts d' t hd'.0 hd'.1 h') hd hd'
