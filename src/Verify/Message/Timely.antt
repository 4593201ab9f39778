-- ===== src/Verify/Message/Timely.antt =====
-- The bounds on time, in seconds, of a message that src/verify.rs accepts live.
use identity_crypto.Prelude.{◌≡◌, refl, ap, ◌⊎◌, inl, inr, Option, some, none, arith}
use identity_crypto.Prelude.Int.{
  ℤ, pos, ◌≤ℤ◌, ◌<ℤ◌, ◌+ℤ◌, ◌-ℤ◌, i64_min, i64_max, saturating_add, saturating_sub,
}
use identity_crypto.Primitives.{Str, Primitives}
use identity_crypto.KeyTypes.{PublicKey}
use identity_crypto.Kind.{PrincipalKind}
use identity_crypto.Error.{ok}
use identity_crypto.Pb
use identity_crypto.Registry.Types.{VerifiedEntry}
use identity_crypto.Resolver.{Resolver}
use identity_crypto.Verify.Time.{live}
use identity_crypto.Verify.Time.Windows.{check_skew_live_iff}
use identity_crypto.Verify.Chain.{VerifiedChain}
use identity_crypto.Verify.Chain.Sound.{Unlisted, Listed, CertCurrent}
use identity_crypto.Verify.Chain.Accepts.{AcceptedChain}
use identity_crypto.Verify.Message.{VerifiedMessage, verify_signed_message}
use identity_crypto.Verify.Message.Sound.{verify_signed_message-AcceptedMessage}

-- A time from `now` to at most `most` seconds after it.
abbrev pub Within : ℤ → ℤ → ℤ → Type 0
Within most now end = (now ≤ℤ end) × (end ≤ℤ now +ℤ most)

-- The device delegation that a signer chain carries.
abbrev pub device_delegation : Pb.SignerChain → Option Pb.KeyDelegation
device_delegation signer = elim signer.chain [
  | none ↦ none
  | some chain ↦ elim chain [ Pb.self_rooted s ↦ s.device | Pb.host_vouched h ↦ h.host_device ]
]

-- The message was issued within 30 seconds of `now`; its session ends now or later, by no more than 24
-- hours and 30 seconds; so does the delegation of its device, which is a human's or ends by no more
-- than 31 days and 30 seconds after now.
pub record Timely (msg : Pb.SignedMessage) (now : ℤ) (v : VerifiedMessage) : Type 0 where
  pub signer : Pb.SignerChain
  pub delegation : Pb.KeyDelegation
  pub has_signer : msg.signer ≡ some signer
  pub has_delegation : device_delegation signer ≡ some delegation
  pub not_late : now ≤ℤ v.issued_at +ℤ pos 30
  pub not_early : v.issued_at ≤ℤ now +ℤ pos 30
  pub session : Within (pos 86_430) now v.chain.session_not_after
  pub device_unexpired : now ≤ℤ delegation.not_after_unix_seconds
  pub device_ends :
      (v.chain.kind ≡ PrincipalKind.human)
      ⊎ (delegation.not_after_unix_seconds ≤ℤ now +ℤ pos 2_678_430)

-- What the window of a session says of its end.
session_bounds :
    (nb na at : ℤ)
    → at <ℤ i64_max
    → na ≤ℤ nb +ℤ pos 86_400
    → saturating_sub nb (pos 30) ≤ℤ at
    → na ≤ℤ at +ℤ pos 86_430
unfolding saturating_sub ◌+ℤ◌ ◌-ℤ◌
session_bounds nb na at hi span started = ground arith

Unlisted-bounds :
    (d : Pb.KeyDelegation) (at : ℤ)
    → i64_min ≤ℤ at
    → Unlisted d at
    → d.not_after_unix_seconds ≤ℤ at +ℤ pos 2_678_430
unfolding saturating_add ◌+ℤ◌
Unlisted-bounds d at lo u = let span = u.span in let started = u.started in ground arith

Listed-bounds :
    (d : Pb.KeyDelegation) (e : VerifiedEntry) (r : Resolver) (at : ℤ) (device : PublicKey)
    (kind : PrincipalKind)
    → i64_min ≤ℤ at
    → Listed d e r at device kind
    → (at ≤ℤ d.not_after_unix_seconds)
      × ((kind ≡ PrincipalKind.human) ⊎ (d.not_after_unix_seconds ≤ℤ at +ℤ pos 2_678_430))
Listed-bounds d e r at device PrincipalKind.human lo h = (h.unexpired, inl refl)
Listed-bounds d e r at device PrincipalKind.agent lo h =
    (h.unexpired, inr (Unlisted-bounds d at lo h))
Listed-bounds d e r at device PrincipalKind.service lo h =
    (h.unexpired, inr (Unlisted-bounds d at lo h))
Listed-bounds d e r at device PrincipalKind.daemon lo h =
    (h.unexpired, inr (Unlisted-bounds d at lo h))

module _ ⦃p : Primitives⦄ where
  CertCurrent-bounds :
      (c : Pb.DelegationCert) (device : PublicKey) (at : ℤ) (session : PublicKey) (end : ℤ)
      → at <ℤ i64_max
      → end ≡ c.not_after_unix_seconds
      → CertCurrent c device at session
      → Within (pos 86_430) at end
  CertCurrent-bounds c device at session end hi same h = rw same (
    h.unexpired,
    session_bounds c.not_before_unix_seconds c.not_after_unix_seconds at hi h.span h.started,
  )

  AcceptedChain-bounds :
      (signer : Pb.SignerChain) (r : Resolver) (at : ℤ) (v : VerifiedChain)
      → i64_min ≤ℤ at
      → at <ℤ i64_max
      → AcceptedChain signer r at v
      → Within (pos 86_430) at v.session_not_after
        × ((d : Pb.KeyDelegation) × (device_delegation signer ≡ some d)
            × (at ≤ℤ d.not_after_unix_seconds)
            × ((v.kind ≡ PrincipalKind.human) ⊎ (d.not_after_unix_seconds ≤ℤ at +ℤ pos 2_678_430)))
  AcceptedChain-bounds signer r at v lo hi (AcceptedChain.of_root s is h) =
      let d = h.delegation in
      (
        CertCurrent-bounds h.cert v.device at v.session_key v.session_not_after hi h.not_after
            h.session,
        (
          d,
          rw is h.has_delegation,
          (Listed-bounds d h.registered r at v.device h.registered.kind lo h.device.listed).0,
          rw h.kind
              (Listed-bounds d h.registered r at v.device h.registered.kind lo h.device.listed).1,
        ),
      )
  AcceptedChain-bounds signer r at v lo hi (AcceptedChain.of_host s is h) =
      let d = h.delegation in
      let (unexpired, ends) =
        Listed-bounds d h.host_entry r at v.device h.host_entry.kind lo h.device.listed in
      (
        CertCurrent-bounds h.cert v.device at v.session_key v.session_not_after hi
            (ap (λ (x : VerifiedChain). x.session_not_after) h.result) h.session,
        (d, rw is h.has_delegation, unexpired, not_human h.host_is_daemon ends),
      )
    where
      not_human :
          {A B : Type 0} {kind : PrincipalKind}
          → kind ≡ PrincipalKind.daemon
          → (kind ≡ PrincipalKind.human) ⊎ A
          → B ⊎ A
      not_human is_daemon (inl is_human) = cc
      not_human is_daemon (inr a) = inr a

  -- A message that `verify_signed_message` accepts live, at a time that is not the last of an i64, was
  -- issued within 30 seconds of it, before or after. The session has not ended and ends within 24 hours
  -- and 30 seconds. The delegation of the device has not ended, and it ends within 31 days and 30 seconds
  -- unless the principal is a human.
  pub verify_signed_message-Timely :
      (msg : Pb.SignedMessage) (audience : Str) (r : Resolver) (now : ℤ) (v : VerifiedMessage)
      → i64_min ≤ℤ now
      → now <ℤ i64_max
      → verify_signed_message msg audience r (live now) ≡ ok v
      → Timely msg now v
  verify_signed_message-Timely msg audience r now v lo hi h =
      let a = verify_signed_message-AcceptedMessage msg audience r (live now) v h in
      let (early, late) =
        (check_skew_live_iff now msg.issued_at_unix_seconds).0 a.session.in_window in
      let (session, (d, has, unexpired, ends)) =
        AcceptedChain-bounds a.signer r now v.chain lo hi a.chain in
      record {
        signer = a.signer;
        delegation = d;
        has_signer = a.has_signer;
        has_delegation = has;
        not_late = rw a.issued_at late;
        not_early = rw a.issued_at early;
        session = session;
        device_unexpired = unexpired;
        device_ends = ends;
      }
