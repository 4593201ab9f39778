-- ===== src/Kind.antt =====
-- `PrincipalKind` of src/registry.rs, `pb::PrincipalKind` of the proto file, and their conversion.
use identity_crypto.Prelude.{
  ◌≡◌, ◌↔◌, Bool, true, false, Option, none, some, PartialEq, ◌==◌, nat_eq, if◌then◌else◌, arith,
}
use identity_crypto.Prelude.Int.{ℤ, pos, negsuc}

pub data PrincipalKind : Type 0 where
  human agent daemon service : PrincipalKind

abbrev pub kind_beq : PrincipalKind → PrincipalKind → Bool
kind_beq PrincipalKind.human PrincipalKind.human = true
kind_beq PrincipalKind.agent PrincipalKind.agent = true
kind_beq PrincipalKind.daemon PrincipalKind.daemon = true
kind_beq PrincipalKind.service PrincipalKind.service = true
kind_beq a b = false

pub kind_beq_iff : (a b : PrincipalKind) → (kind_beq a b ≡ true) ↔ (a ≡ b)
kind_beq_iff a b = ground arith

instance abbrev pub kind_eq : PartialEq PrincipalKind
kind_eq = record { eq_iff = kind_beq_iff; eq = kind_beq }

-- The enum of the wire: `unspecified` is number 0.
pub data WireKind : Type 0 where
  unspecified : WireKind
  known : PrincipalKind → WireKind

-- `pb::PrincipalKind::try_from(i32)`
unfoldable pub wire_kind : ℤ → Option WireKind
wire_kind (pos n) =
    if n == 0
    then some unspecified
    else if n == 1
    then some (known PrincipalKind.human)
    else if n == 2
    then some (known PrincipalKind.agent)
    else if n == 3
    then some (known PrincipalKind.daemon)
    else if n == 4
    then some (known PrincipalKind.service)
    else none
wire_kind (negsuc n) = none

-- `kind_to_pb(kind) as i32` of src/accepted.rs
unfoldable pub kind_to_pb : PrincipalKind → ℤ
kind_to_pb PrincipalKind.human = pos 1
kind_to_pb PrincipalKind.agent = pos 2
kind_to_pb PrincipalKind.daemon = pos 3
kind_to_pb PrincipalKind.service = pos 4

pub wire_kind-kind_to_pb : (k : PrincipalKind) → wire_kind (kind_to_pb k) ≡ some (known k)
unfolding wire_kind kind_to_pb
wire_kind-kind_to_pb k = ground arith
