-- ===== src/Transcripts/Tags.antt =====
-- src/transcripts.rs: the tags that open the transcripts.
use identity_crypto.Prelude.{List, [], ◌∷◌}
use identity_crypto.Primitives.{Str}
use identity_crypto.Principal.{ascii}

abbrev pub key_challenge_tag : Str
key_challenge_tag = ascii "identitycrypto.key-challenge.v1"

abbrev pub principal_rename_tag : Str
principal_rename_tag = ascii "identitycrypto.principal-rename.v1"

abbrev pub key_delegation_tag : Str
key_delegation_tag = ascii "identitycrypto.key-delegation.v1"

abbrev pub key_revocation_tag : Str
key_revocation_tag = ascii "identitycrypto.key-revocation.v1"

abbrev pub root_rotation_tag : Str
root_rotation_tag = ascii "identitycrypto.root-rotation.v1"

abbrev pub session_delegation_tag : Str
session_delegation_tag = ascii "identitycrypto.session-delegation.v1"

abbrev pub signed_message_tag : Str
signed_message_tag = ascii "identitycrypto.signed-message.v1"

abbrev pub signed_document_tag : Str
signed_document_tag = ascii "identitycrypto.signed-document.v1"

abbrev pub approval_tag : Str
approval_tag = ascii "identitycrypto.approval.v1"

abbrev pub peer_revocation_tag : Str
peer_revocation_tag = ascii "identitycrypto.peer-revocation.v1"

abbrev pub delivery_attestation_tag : Str
delivery_attestation_tag = ascii "identitycrypto.delivery-attestation.v1"

abbrev pub request_digest_tag : Str
request_digest_tag = ascii "identitycrypto.request-digest.v1"

abbrev pub client_request_digest_tag : Str
client_request_digest_tag = ascii "identitycrypto.client-request-digest.v1"

abbrev pub all_tags : List Str
all_tags =
    key_challenge_tag ∷ principal_rename_tag ∷ key_delegation_tag ∷ key_revocation_tag
    ∷ root_rotation_tag ∷ session_delegation_tag ∷ signed_message_tag ∷ signed_document_tag
    ∷ approval_tag ∷ peer_revocation_tag ∷ delivery_attestation_tag ∷ request_digest_tag
    ∷ client_request_digest_tag ∷ []
