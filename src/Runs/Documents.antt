-- ===== src/Runs/Documents.antt =====
-- Root chains, documents and successive registries on concrete data.
use identity_crypto.Prelude.{arith, ◌≡◌, refl, some, List, [], ◌∷◌, length}
use identity_crypto.Primitives.{Bytes}
use identity_crypto.Transcripts.Messages.Documents.{
  unsigned_document, signed_document_transcript-injective,
}
use identity_crypto.Prelude.Int.{pos}
use identity_crypto.KeyTypes.{PublicKey}
use identity_crypto.Kind.{PrincipalKind}
use identity_crypto.Error.{ok, ◌>>=◌}
use identity_crypto.PublicKey.{or_invalid_key, p256, try_from}
use identity_crypto.Signature.{verify_p256}
use identity_crypto.Map.{get, insert, values}
use identity_crypto.Transcripts.Enc
use identity_crypto.Transcripts.Enc.{req, non_empty}
use identity_crypto.Transcripts.Keys.{root_rotation_transcript}
use identity_crypto.Transcripts.Messages.{signed_document_transcript}
use identity_crypto.Authority.{
  VerifiedDocument, first?, genesis_chain, rotate, rotate_all, rotation_roots, from_rotations,
  chain_principal, head, check_extends, verify_signed_document,
}
use identity_crypto.Authority.Chains.{
  RootChain, NoRepeats, rotation_roots-RootChain, rotation_roots-NoRepeats,
}
use identity_crypto.Authority.Documents.{AcceptedDocument, verify_signed_document-AcceptedDocument}
use identity_crypto.Accepted.{
  AcceptedChains, recorded, accept_entry, accept_entries, extend_entry, check_successor,
}
use identity_crypto.Accepted.History.{Grows, History, History-Grows}
use identity_crypto.Pb
use identity_crypto.Runs.{toy, key, rotation, document, resolver, bob}

abbrev roots : List PublicKey
roots = key 1 ∷ key 6 ∷ []

roots_are_built : rotation_roots (key 1) (rotation ∷ []) ≡ ok roots
unfolding rotation_roots rotate_all rotate req try_from p256 or_invalid_key verify_p256
    root_rotation_transcript Enc.key Enc.u8 Enc.var Enc.i64 ◌>>=◌
roots_are_built = refl

abbrev verified : VerifiedDocument
verified = record {
  id = toy.sha256 (elim (signed_document_transcript document) [ ok t ↦ t | _ ↦ [] ]);
  chain = record { roots = roots; rotations = rotation ∷ [] };
  document_type = document.document_type;
  version = 7;
  issued_at = pos 4_000;
  expires_at = pos 90_000;
  body = document.body;
}

document_is_accepted :
    verify_signed_document document document.document_type (genesis_chain (key 1)) ≡ ok verified
unfolding genesis_chain verify_signed_document from_rotations check_extends head chain_principal
    signed_document_transcript non_empty Enc.u64 rotation_roots rotate_all rotate req try_from p256
    or_invalid_key verify_p256 root_rotation_transcript Enc.key Enc.u8 Enc.var Enc.i64 ◌>>=◌
document_is_accepted = refl

rotation_roots-RootChain_example : RootChain (key 1) (rotation ∷ []) roots
rotation_roots-RootChain_example =
    rotation_roots-RootChain (key 1) (rotation ∷ []) roots roots_are_built

rotation_roots-NoRepeats_example :
    NoRepeats roots × (length roots ≡ 2) × (first? roots ≡ some (key 1))
rotation_roots-NoRepeats_example =
    rotation_roots-NoRepeats (key 1) (rotation ∷ []) roots roots_are_built

verify_signed_document-AcceptedDocument_example :
    AcceptedDocument document document.document_type (genesis_chain (key 1)) verified
verify_signed_document-AcceptedDocument_example =
    verify_signed_document-AcceptedDocument document document.document_type (genesis_chain (key 1))
      verified document_is_accepted

-- Bob as accepted before his root became 21, and after.
abbrev earlier : AcceptedChains
earlier = (bob, record { kind = PrincipalKind.service; roots = key 20 ∷ []; rotations = [] }) ∷ []

abbrev later : AcceptedChains
later =
    (bob, record { kind = PrincipalKind.service; roots = key 20 ∷ key 21 ∷ []; rotations = [] })
    ∷ []

successor_is_accepted : check_successor resolver earlier ≡ ok later
unfolding check_successor accept_entries accept_entry extend_entry recorded get insert values ◌>>=◌
successor_is_accepted = refl

same_successor_is_accepted : check_successor resolver later ≡ ok later
unfolding check_successor accept_entries accept_entry extend_entry recorded get insert values ◌>>=◌
same_successor_is_accepted = refl

two_versions : History earlier later
two_versions =
    History.version resolver (History.version resolver History.start successor_is_accepted)
      same_successor_is_accepted

History-Grows_example : Grows earlier later
History-Grows_example = History-Grows two_versions

-- The document with another signature and no rotations.
abbrev forged : Pb.SignedDocument
forged = record document { signature = []; signer_rotations = [] }

abbrev transcript : Bytes
transcript = elim (signed_document_transcript document) [ ok t ↦ t | _ ↦ [] ]

document_covers : signed_document_transcript document ≡ ok transcript
unfolding req try_from p256 or_invalid_key signed_document_transcript non_empty Enc.key Enc.u8
    Enc.var Enc.u64 Enc.i64 ◌>>=◌
document_covers = refl

forged_covers : signed_document_transcript forged ≡ ok transcript
unfolding req try_from p256 or_invalid_key signed_document_transcript non_empty Enc.key Enc.u8
    Enc.var Enc.u64 Enc.i64 ◌>>=◌
forged_covers = refl

signed_document_transcript-injective_example : unsigned_document document ≡ unsigned_document forged
signed_document_transcript-injective_example =
    signed_document_transcript-injective document forged (omega arith, ground arith, ground arith)
      (omega arith, ground arith, ground arith) document_covers forged_covers
