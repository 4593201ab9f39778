-- ===== src/Authority/Documents.antt =====
-- What an accepted document of `verify_signed_document` (src/authority.rs) guarantees.
use Prim.Native.Nat.{min}
use identity_crypto.Prelude.{
  ◌≤◌, ◌≡◌, refl, ap, ◌∙◌, Bool, true, false, some, List, [], ◌∷◌, ◌++◌, arith, length, take, drop,
  take-append-drop, Extends, last?, list_eq, nat_eq, eq_of_not_ne, if◌then◌else◌,
}
use identity_crypto.Prelude.Int.{int_eq}
use identity_crypto.Primitives.{Bytes, Str, Primitives}
use identity_crypto.KeyTypes.{PublicKey, PrincipalId, key_eq}
use identity_crypto.PublicKey.{to_pb}
use identity_crypto.Error.{
  Result, ok, err, root_fork, ◌>>=◌, >>=-elim, reject_if-eq-ok, expect-eq-ok, ok-injective,
}
use identity_crypto.Pb
use identity_crypto.Signature.{Signed, verify_p256-eq-ok}
use identity_crypto.Transcripts.Enc.Keys.{req-eq-ok}
use identity_crypto.Transcripts.Messages.{signed_document_transcript}
use identity_crypto.Authority.{
  AuthorityChain, VerifiedDocument, head, from_rotations, check_extends, verify_signed_document,
  first?,
}
use identity_crypto.Authority.Chains.{RootChain, rotation_roots-RootChain}

take-length : (xs : List PublicKey) → take (length xs) xs ≡ xs
take-length [] = refl
take-length (x ∷ xs) = ap (λ (ys : List PublicKey). x ∷ ys) (take-length xs)

-- A check that fails when a test is true, and else goes on.
if_err-eq-ok :
    (c : Bool) (m : Result (Unit {0})) (id : Result PrincipalId) {u : Unit {0}}
    → (if c then (do principal ← id; err (root_fork principal)) else m) ≡ ok u
    → (c ≡ false) × (m ≡ ok u)
if_err-eq-ok true m id h = >>=-elim _ _ h λ principal e h'. absurd (cc (h'))
if_err-eq-ok false m id h = (refl, h)

common_prefix-Extends :
    (a b : List PublicKey)
    → take (min (length a) (length b)) b ≡ take (min (length a) (length b)) a
    → length a ≤ length b
    → Extends a b
common_prefix-Extends a b h le =
    let shorter : min (length a) (length b) ≡ length a = omega arith in
    let same : take (length a) b ≡ take (length a) a = rw shorter at h in
    (
      drop (length a) b,
      take-append-drop (length a) b
          ∙ ap (λ (x : List PublicKey). x ++ drop (length a) b) (same ∙ take-length a),
    )

check_extends-Extends :
    ⦃p : Primitives⦄ (accepted chain : AuthorityChain) {u : Unit {0}}
    → check_extends accepted chain ≡ ok u
    → Extends accepted.roots chain.roots
unfolding check_extends
check_extends-Extends accepted chain h =
    let (same, fresh) = if_err-eq-ok _ _ _ h in
    let shorter = reject_if-eq-ok _ _ fresh in
    common_prefix-Extends accepted.roots chain.roots (eq_of_not_ne _ _ same) (ground arith)

module _ ⦃p : Primitives⦄ where
  -- What is known of a document that is accepted against the chain `accepted`.
  pub record AcceptedDocument (doc : Pb.SignedDocument) (type : Str) (accepted : AuthorityChain)
      (v : VerifiedDocument) : Type 0 where
    pub genesis : PublicKey
    pub signing : PublicKey
    pub transcript : Bytes
    pub same_genesis : first? accepted.roots ≡ some genesis
    pub of_genesis : doc.signer_genesis ≡ some (to_pb genesis)
    pub chain : RootChain genesis doc.signer_rotations v.chain.roots
    pub rotations : v.chain.rotations ≡ doc.signer_rotations
    pub extends : Extends accepted.roots v.chain.roots
    pub of_signing : doc.signing ≡ some (to_pb signing)
    pub signing_is_head : last? v.chain.roots ≡ some signing
    pub covers : signed_document_transcript doc ≡ ok transcript
    pub signed : Signed signing transcript doc.signature
    pub id : v.id ≡ p.sha256 transcript
    pub of_type : (doc.document_type ≡ type) × (v.document_type ≡ type)
    pub version : v.version ≡ doc.version
    pub times :
        (v.issued_at ≡ doc.issued_at_unix_seconds) × (v.expires_at ≡ doc.expires_at_unix_seconds)
    pub body : v.body ≡ doc.body

  from_rotations-eq-ok :
      (genesis : PublicKey) (rs : List Pb.RootRotation) (c : AuthorityChain)
      → from_rotations genesis rs ≡ ok c
      → RootChain genesis rs c.roots × (c.rotations ≡ rs)
  unfolding from_rotations
  from_rotations-eq-ok genesis rs c h =
      >>=-elim _ _ h
        λ roots e h'. rw (← (ok-injective h')) (rotation_roots-RootChain genesis rs roots e, refl)

  -- A document that `verify_signed_document` accepts against a chain has the same genesis; the root
  -- chain of its rotations is valid and is the accepted one with nothing or more behind it; the
  -- last root of it signed the document's transcript; the type is the expected
  -- one; and the result is the hash of the transcript with the document's own fields.
  pub verify_signed_document-AcceptedDocument :
      (doc : Pb.SignedDocument) (type : Str) (accepted : AuthorityChain) (v : VerifiedDocument)
      → verify_signed_document doc type accepted ≡ ok v
      → AcceptedDocument doc type accepted v
  unfolding verify_signed_document head
  verify_signed_document-AcceptedDocument doc type accepted v h = >>=-elim _ _ h λ _ e1 h1.
      >>=-elim _ _ h1 λ _ e2 h2. >>=-elim _ _ h2 λ _ e3 h3. >>=-elim _ _ h3 λ signer e4 h4.
        >>=-elim _ _ h4 λ genesis e5 h5. >>=-elim _ _ h5 λ _ e6 h6. >>=-elim _ _ h6 λ chain e7 h7.
          >>=-elim _ _ h7 λ _ e8 h8. >>=-elim _ _ h8 λ signing e9 h9.
            >>=-elim _ _ h9 λ current e10 h10. >>=-elim _ _ h10 λ _ e11 h11.
              >>=-elim _ _ h11 λ t e12 h12. >>=-elim _ _ h12 λ _ e13 h13.
                let same : signer ≡ genesis =
                  eq_of_not_ne signer genesis (reject_if-eq-ok _ _ e6) in
                let is_head : signing ≡ current =
                  eq_of_not_ne signing current (reject_if-eq-ok _ _ e11) in
                let type_is : doc.document_type ≡ type =
                  eq_of_not_ne doc.document_type type (reject_if-eq-ok _ _ e3) in
                let built = from_rotations-eq-ok signer doc.signer_rotations chain e7 in
                rw (← (ok-injective h13)) (record {
                  genesis = signer;
                  signing = signing;
                  transcript = t;
                  same_genesis = cc (expect-eq-ok _ e5, same);
                  of_genesis = (req-eq-ok _ _ signer e4).1;
                  chain = built.0;
                  rotations = built.1;
                  extends = check_extends-Extends accepted chain e8;
                  of_signing = (req-eq-ok _ _ signing e9).1;
                  signing_is_head = cc (expect-eq-ok _ e10, is_head);
                  covers = e12;
                  signed = verify_p256-eq-ok signing t doc.signature e13;
                  id = refl;
                  of_type = (type_is, type_is);
                  version = refl;
                  times = (refl, refl);
                  body = refl;
                })
