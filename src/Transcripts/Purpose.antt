-- ===== src/Transcripts/Purpose.antt =====
-- `pb::KeyPurpose` of proto/identitycrypto/v1/identity.proto, and its numbers.
use identity_crypto.Prelude.{Option, none, some, ◌==◌, nat_eq, if◌then◌else◌}
use identity_crypto.Prelude.Int.{ℤ, pos, negsuc}

-- `pb::KeyPurpose`
pub data KeyPurpose : Type 0 where
  unspecified root device approval encryption : KeyPurpose

-- `pb::KeyPurpose::try_from(i32)`
abbrev pub purpose_of : ℤ → Option KeyPurpose
purpose_of (pos n) =
    if n == 0
    then some unspecified
    else if n == 1
    then some root
    else if n == 2
    then some device
    else if n == 3
    then some approval
    else if n == 4
    then some encryption
    else none
purpose_of (negsuc n) = none
