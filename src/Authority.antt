-- ===== src/Authority.antt =====
-- src/authority.rs: the authority's root chain and verified documents.
pub mod Chains
pub mod Documents
use Prim.Native.Nat.{min}
use identity_crypto.Prelude.{
  ℕ, ◌+◌, Bool, true, false, ◌&&◌, Option, none, some, List, [], ◌∷◌, ◌++◌, not, if◌then◌else◌,
  length, take, last?, is_empty, leb, ltb, contains, ◌==◌, ◌!=◌, nat_eq, list_eq, option_eq,
}
use identity_crypto.Prelude.Int.{ℤ, pos, int_eq}
use identity_crypto.Primitives.{Bytes, Str, Primitives}
use identity_crypto.KeyTypes.{PublicKey, PrincipalId, key_eq}
use identity_crypto.Error.{
  Result, ok, err, ◌>>=◌, ◌>>◌, reject_if, expect, chain_mismatch, rotation_cycle, empty_signature,
  invalid_field, wrong_document_type, not_authority, root_fork, stale_root, not_current_root,
}
use identity_crypto.Pb
use identity_crypto.Signature.{verify_p256}
use identity_crypto.Transcripts.Enc.{req}
use identity_crypto.Transcripts.Keys.{root_rotation_transcript}
use identity_crypto.Transcripts.Messages.{signed_document_transcript}

-- `roots.first()`
abbrev pub first? {ℓ} : {A : Type ℓ} → List A → Option A
first? [] = none
first? (x ∷ xs) = some x

pub record AuthorityChain : Type 0 where
  pub roots : List PublicKey
  pub rotations : List Pb.RootRotation

pub record VerifiedDocument : Type 0 where
  pub id : Bytes
  pub chain : AuthorityChain
  pub document_type : Str
  pub version : ℕ
  pub issued_at : ℤ
  pub expires_at : ℤ
  pub body : Bytes

-- `AuthorityChain::genesis`
unfoldable pub genesis_chain : PublicKey → AuthorityChain
genesis_chain genesis = record { roots = genesis ∷ []; rotations = [] }

-- `AuthorityChain::principal`: `roots[0]` panics on an empty list.
unfoldable pub chain_principal : AuthorityChain → Result PrincipalId
chain_principal c = do genesis ← expect (first? c.roots); ok (record { genesis = genesis })

-- `AuthorityChain::head`
unfoldable pub head : AuthorityChain → Result PublicKey
head c = expect (last? c.roots)

abbrev pub prefix_of : List PublicKey → List PublicKey → Bool
prefix_of a b = leb (length a) (length b) && a == take (length a) b

-- `AuthorityChain::is_prefix_of`
unfoldable pub is_prefix_of : AuthorityChain → AuthorityChain → Bool
is_prefix_of a b = prefix_of a.roots b.roots

module _ ⦃p : Primitives⦄ where
  -- One round of the loop of `rotation_roots`.
  unfoldable pub rotate : PublicKey → List PublicKey → Pb.RootRotation → Result (List PublicKey)
  rotate genesis roots r = do
    principal ← req r.principal_genesis "rotations.principal_genesis"
    reject_if (principal != genesis) (chain_mismatch "rotation principal")
    old ← req r.old_root "rotations.old_root"
    new ← req r.new_root "rotations.new_root"
    reject_if (some old != last? roots) (chain_mismatch "rotation old_root")
    reject_if (contains roots new) rotation_cycle
    transcript ← root_rotation_transcript r
    verify_p256 old transcript r.signature
    ok (roots ++ (new ∷ []))

  unfoldable pub rotate_all :
      PublicKey → List PublicKey → List Pb.RootRotation → Result (List PublicKey)
  rotate_all genesis roots [] = ok roots
  rotate_all genesis roots (r ∷ rs) = do
    roots' ← rotate genesis roots r
    rotate_all genesis roots' rs

  unfoldable pub rotation_roots : PublicKey → List Pb.RootRotation → Result (List PublicKey)
  rotation_roots genesis rotations = rotate_all genesis (genesis ∷ []) rotations

  -- `AuthorityChain::from_rotations`
  unfoldable pub from_rotations : PublicKey → List Pb.RootRotation → Result AuthorityChain
  from_rotations genesis rotations = do
    roots ← rotation_roots genesis rotations
    ok (record { roots = roots; rotations = rotations })

  -- The chain checks of `verify_signed_document`, up to the fork and the stale root.
  unfoldable pub check_extends : AuthorityChain → AuthorityChain → Result (Unit {0})
  check_extends accepted chain =
      let n = min (length accepted.roots) (length chain.roots) in
      if take n chain.roots != take n accepted.roots
      then (do principal ← chain_principal accepted; err (root_fork principal))
      else reject_if (ltb (length chain.roots) (length accepted.roots)) stale_root

  unfoldable pub verify_signed_document :
      Pb.SignedDocument → Str → AuthorityChain → Result VerifiedDocument
  verify_signed_document doc expected_type accepted = do
    reject_if (is_empty doc.signature) empty_signature
    reject_if (doc.expires_at_unix_seconds == pos 0)
        (invalid_field "expires_at_unix_seconds" "0 is not an expiry; write i64::MAX for none")
    reject_if (doc.document_type != expected_type) wrong_document_type
    signer ← req doc.signer_genesis "signer_genesis"
    genesis ← expect (first? accepted.roots)
    reject_if (signer != genesis) not_authority
    chain ← from_rotations signer doc.signer_rotations
    check_extends accepted chain
    signing ← req doc.signing "signing"
    current ← head chain
    reject_if (signing != current) not_current_root
    transcript ← signed_document_transcript doc
    verify_p256 signing transcript doc.signature
    ok (record {
      id = p.sha256 transcript;
      chain = chain;
      document_type = doc.document_type;
      version = doc.version;
      issued_at = doc.issued_at_unix_seconds;
      expires_at = doc.expires_at_unix_seconds;
      body = doc.body;
    })
