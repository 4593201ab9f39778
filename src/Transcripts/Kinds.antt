-- ===== src/Transcripts/Kinds.antt =====
-- The thirteen kinds of transcripts of src/transcripts.rs, and their tags.
use identity_crypto.Prelude.{
  ◌==◌, nat_eq, list_eq, if◌then◌else◌, ℕ, suc, ◌≡◌, refl, sym, ap, ◌∙◌, Bool, true, List, [], ◌∷◌,
  ◌++◌, arith, all, ltb,
}
use identity_crypto.Primitives.{Bytes, Str, Primitives}
use identity_crypto.KeyTypes.{PublicKey, PrincipalId}
use identity_crypto.Error.{Result, ok}
use identity_crypto.Pb
use mathlib.Core.List.{append_assoc}
use identity_crypto.Transcripts.Tags.{
  key_challenge_tag, principal_rename_tag, key_delegation_tag, key_revocation_tag,
  root_rotation_tag, session_delegation_tag, signed_message_tag, signed_document_tag, approval_tag,
  peer_revocation_tag, delivery_attestation_tag, request_digest_tag, client_request_digest_tag,
  all_tags,
}
use identity_crypto.Transcripts.Enc
use identity_crypto.Transcripts.Enc.{Enc}
use identity_crypto.Transcripts.Enc.Appends.{
  Appends, Appends-bind, Appends-try, Appends-done, Appends-var, Appends-u8, Appends-u32,
  Appends-fixed, Appends-key, Appends-i64, Appends-i32, Appends-u64, Appends-opt_key,
}
use identity_crypto.Transcripts.Fronts.{
  Appends-opt_var, Appends-opt_fixed, Appends-opt_host, Appends-opt_resource, Appends-cert,
  Appends-devices, Appends-messages, Appends-delegation,
}
use identity_crypto.Transcripts.Keys.{
  key_challenge_transcript, principal_rename_transcript, key_delegation_transcript,
  key_revocation_transcript, root_rotation_transcript,
}
use identity_crypto.Transcripts.Messages.{
  session_delegation_transcript, signed_message_transcript, signed_document_transcript,
  approval_transcript, peer_revocation_transcript,
}
use identity_crypto.Transcripts.Requests.{
  RequestDigestInput, ClientRequestDigestInput, request_digest_transcript,
  client_request_digest_transcript, delivery_attestation_transcript,
}

-- What has a transcript.
pub data Subject : Type 0 where
  key_challenge : Str → Bytes → PublicKey → Subject
  principal_rename : Bytes → PrincipalId → Str → Subject
  key_delegation : Pb.KeyDelegation → Subject
  key_revocation : Pb.KeyRevocation → Subject
  root_rotation : Pb.RootRotation → Subject
  session_delegation : Pb.DelegationCert → Subject
  signed_message : Pb.SignedMessage → Subject
  signed_document : Pb.SignedDocument → Subject
  approval : Pb.Approval → Subject
  peer_revocation : Pb.PeerRevocation → Subject
  delivery_attestation : Pb.DeliveryAttestation → Subject
  request_digest : RequestDigestInput → Subject
  client_request_digest : ClientRequestDigestInput → Subject

abbrev pub tag_of : Subject → Str
tag_of (key_challenge a n k) = key_challenge_tag
tag_of (principal_rename n p m) = principal_rename_tag
tag_of (key_delegation d) = key_delegation_tag
tag_of (key_revocation r) = key_revocation_tag
tag_of (root_rotation r) = root_rotation_tag
tag_of (session_delegation c) = session_delegation_tag
tag_of (signed_message m) = signed_message_tag
tag_of (signed_document d) = signed_document_tag
tag_of (approval a) = approval_tag
tag_of (peer_revocation r) = peer_revocation_tag
tag_of (delivery_attestation a) = delivery_attestation_tag
tag_of (request_digest i) = request_digest_tag
tag_of (client_request_digest i) = client_request_digest_tag

-- The place of a kind in the list of tags of the source.
abbrev pub kind_of : Subject → ℕ
kind_of (key_challenge a n k) = 0
kind_of (principal_rename n p m) = 1
kind_of (key_delegation d) = 2
kind_of (key_revocation r) = 3
kind_of (root_rotation r) = 4
kind_of (session_delegation c) = 5
kind_of (signed_message m) = 6
kind_of (signed_document d) = 7
kind_of (approval a) = 8
kind_of (peer_revocation r) = 9
kind_of (delivery_attestation a) = 10
kind_of (request_digest i) = 11
kind_of (client_request_digest i) = 12

module _ ⦃p : Primitives⦄ where
  abbrev pub transcript_of : Subject → Result Bytes
  transcript_of (key_challenge a n k) = key_challenge_transcript a n k
  transcript_of (principal_rename n i m) = principal_rename_transcript n i m
  transcript_of (key_delegation d) = key_delegation_transcript d
  transcript_of (key_revocation r) = key_revocation_transcript r
  transcript_of (root_rotation r) = root_rotation_transcript r
  transcript_of (session_delegation c) = session_delegation_transcript c
  transcript_of (signed_message m) = signed_message_transcript m
  transcript_of (signed_document d) = signed_document_transcript d
  transcript_of (approval a) = approval_transcript a
  transcript_of (peer_revocation r) = peer_revocation_transcript r
  transcript_of (delivery_attestation a) = delivery_attestation_transcript a
  transcript_of (request_digest i) = request_digest_transcript i
  transcript_of (client_request_digest i) = client_request_digest_transcript i

  -- Every transcript begins with its tag and a NUL.
  transcript-Appends : (s : Subject) → Appends (Enc.new (tag_of s)) (transcript_of s)
  unfolding key_challenge_transcript principal_rename_transcript key_delegation_transcript
      key_revocation_transcript root_rotation_transcript session_delegation_transcript
      signed_message_transcript signed_document_transcript approval_transcript
      peer_revocation_transcript delivery_attestation_transcript request_digest_transcript
      client_request_digest_transcript
  transcript-Appends (key_challenge a n k) = Appends-try _ λ _. Appends-try _ λ _.
      Appends-bind (Appends-var _ _) λ b1. Appends-bind (Appends-var b1 _) λ b2. Appends-key b2 _
  transcript-Appends (principal_rename n i m) = Appends-try _ λ _. Appends-try _ λ _.
      Appends-bind (Appends-var _ _) λ b1. Appends-bind (Appends-key b1 _) λ b2. Appends-var b2 _
  transcript-Appends (key_delegation d) = Appends-try _ λ a. Appends-try _ λ r.
      Appends-try _
        λ _. Appends-try _ λ g. Appends-try _ λ x. Appends-try _ λ _. Appends-delegation a r g x d
  transcript-Appends (key_revocation r) = Appends-try _ λ _. Appends-try _ λ _. Appends-try _ λ _.
      Appends-bind (Appends-key _ _) λ b1.
        Appends-bind (Appends-key b1 _)
          λ b2. Appends-bind (Appends-key b2 _) λ b3. Appends-i64 b3 _ (Appends-done _)
  transcript-Appends (root_rotation r) = Appends-try _ λ _. Appends-try _ λ _. Appends-try _ λ _.
      Appends-try _ λ _. Appends-bind (Appends-key _ _) λ b1.
        Appends-bind (Appends-key b1 _)
          λ b2. Appends-bind (Appends-key b2 _) λ b3. Appends-i64 b3 _ (Appends-done _)
  transcript-Appends (session_delegation c) = Appends-cert _ c
  transcript-Appends (signed_message m) = Appends-try _ λ _. Appends-try _ λ _. Appends-try _ λ _.
      Appends-try _ λ _. Appends-try _ λ _. Appends-try _ λ _. Appends-try _ λ _.
        Appends-bind (Appends-key _ _) λ b1. Appends-bind (Appends-key b1 _) λ b2.
          Appends-bind (Appends-var b2 _) λ b3. Appends-bind (Appends-fixed b3 _ _ _) λ b4.
            Appends-i64 b4 _ (
              Appends-bind (Appends-opt_fixed _ _ _ _)
                λ b5. Appends-bind (Appends-var b5 _) λ b6. Appends-var b6 _)
  transcript-Appends (signed_document d) = Appends-try _ λ _. Appends-try _ λ _. Appends-try _ λ _.
      Appends-bind (Appends-key _ _) λ b1. Appends-bind (Appends-key b1 _) λ b2.
        Appends-bind (Appends-var b2 _)
          λ b3. Appends-u64 b3 _ (Appends-i64 _ _ (Appends-i64 _ _ (Appends-var _ _)))
  transcript-Appends (approval a) = Appends-try _ λ _. Appends-try _ λ _. Appends-try _ λ _.
      Appends-try _ λ _. Appends-try _ λ _. Appends-bind (Appends-key _ _) λ b1.
        Appends-bind (Appends-key b1 _) λ b2. Appends-bind (Appends-key b2 _) λ b3.
          Appends-bind (Appends-var b3 _) λ b4. Appends-bind (Appends-var b4 _) λ b5.
            Appends-bind (Appends-fixed b5 _ _ _)
              λ b6. Appends-bind (Appends-u8 b6 _ _) λ b7. Appends-i64 b7 _ (Appends-done _)
  transcript-Appends (peer_revocation r) = Appends-try _ λ _. Appends-try _ λ _. Appends-try _ λ _.
      Appends-try _ λ revoked. Appends-bind (Appends-key _ _) λ b1.
        Appends-bind (Appends-key b1 _) λ b2. Appends-bind (Appends-key b2 _) λ b3.
          Appends-bind (Appends-opt_key b3 revoked) λ b4. Appends-i64 b4 _ (Appends-fixed _ _ _ _)
  transcript-Appends (delivery_attestation a) = Appends-bind (Appends-u32 _ _ _) λ b1.
      Appends-bind (Appends-devices b1 _) λ b2. Appends-bind (Appends-var b2 _) λ b3.
        Appends-u64 b3 _ (
          Appends-try _ λ _. Appends-try _ λ _.
            Appends-i64 _ _
              (Appends-i32 _ _ (Appends-bind (Appends-u32 _ _ _) λ b4. Appends-messages b4 _)))
  transcript-Appends (request_digest i) = Appends-try _ λ _. Appends-try _ λ _. Appends-try _ λ _.
      Appends-try _ λ _. Appends-bind (Appends-key _ _) λ b1. Appends-bind (Appends-key b1 _) λ b2.
        Appends-bind (Appends-opt_var b2 _) λ b3. Appends-bind (Appends-var b3 _) λ b4.
          Appends-bind (Appends-var b4 _) λ b5.
            Appends-bind (Appends-var b5 _)
              λ b6. Appends-bind (Appends-var b6 _) λ b7. Appends-key b7 _
  transcript-Appends (client_request_digest i) = Appends-try _ λ _. Appends-try _ λ _.
      Appends-try _ λ _. Appends-bind (Appends-key _ _) λ b1.
        Appends-bind (Appends-opt_host b1 _) λ b2. Appends-bind (Appends-opt_resource b2 _) λ b3.
          Appends-bind (Appends-var b3 _) λ b4.
            Appends-bind (Appends-var b4 _)
              λ b5. Appends-bind (Appends-var b5 _) λ b6. Appends-key b6 _

-- A text without NUL bytes, as far as its end.
abbrev no_nul : Str → Bool
no_nul s = all (ltb 0) s

no_nul-tag_of : (s : Subject) → no_nul (tag_of s) ≡ true
no_nul-tag_of (key_challenge a n k) = refl
no_nul-tag_of (principal_rename n i m) = refl
no_nul-tag_of (key_delegation d) = refl
no_nul-tag_of (key_revocation r) = refl
no_nul-tag_of (root_rotation r) = refl
no_nul-tag_of (session_delegation c) = refl
no_nul-tag_of (signed_message m) = refl
no_nul-tag_of (signed_document d) = refl
no_nul-tag_of (approval a) = refl
no_nul-tag_of (peer_revocation r) = refl
no_nul-tag_of (delivery_attestation a) = refl
no_nul-tag_of (request_digest i) = refl
no_nul-tag_of (client_request_digest i) = refl

-- A NUL ends a text without NUL bytes.
no_nul-cancel :
    (a b : Str) (x y : Bytes)
    → no_nul a ≡ true
    → no_nul b ≡ true
    → a ++ (0 ∷ x) ≡ b ++ (0 ∷ y)
    → a ≡ b
no_nul-cancel [] [] x y ha hb e = refl
no_nul-cancel [] (j ∷ b) x y ha hb e = absurd (ground arith)
no_nul-cancel (i ∷ a) [] x y ha hb e = absurd (ground arith)
no_nul-cancel (i ∷ a) (j ∷ b) x y ha hb e =
    let rest = no_nul-cancel a b x y (ground arith) (ground arith) (cc e) in ground (arith, rest)

-- The place of a tag in a list of tags.
abbrev index_of : Str → List Str → ℕ
index_of t [] = 0
index_of t (x ∷ xs) = let rest = index_of t xs in if x == t then 0 else suc rest

kind_of-index : (s : Subject) → kind_of s ≡ index_of (tag_of s) all_tags
kind_of-index (key_challenge a n k) = refl
kind_of-index (principal_rename n i m) = refl
kind_of-index (key_delegation d) = refl
kind_of-index (key_revocation r) = refl
kind_of-index (root_rotation r) = refl
kind_of-index (session_delegation c) = refl
kind_of-index (signed_message m) = refl
kind_of-index (signed_document d) = refl
kind_of-index (approval a) = refl
kind_of-index (peer_revocation r) = refl
kind_of-index (delivery_attestation a) = refl
kind_of-index (request_digest i) = refl
kind_of-index (client_request_digest i) = refl

module _ ⦃p : Primitives⦄ where
  -- Two subjects with one transcript are of one kind: a signature over the transcript of one kind is
  -- never a signature over that of another.
  pub transcript_of-kind :
      (s s' : Subject) {t : Bytes}
      → transcript_of s ≡ ok t
      → transcript_of s' ≡ ok t
      → kind_of s ≡ kind_of s'
  transcript_of-kind s s' {t} h h' =
      let (x, e) = (transcript-Appends s).at t h in
      let (y, e') = (transcript-Appends s').at t h' in
      let front =
        sym (append_assoc (tag_of s) (0 ∷ []) x)
        ∙ sym e
        ∙ e'
        ∙ append_assoc (tag_of s') (0 ∷ []) y in
      let same =
        no_nul-cancel (tag_of s) (tag_of s') x y (no_nul-tag_of s) (no_nul-tag_of s') front in
      kind_of-index s ∙ ap (λ (g : Str). index_of g all_tags) same ∙ sym (kind_of-index s')
