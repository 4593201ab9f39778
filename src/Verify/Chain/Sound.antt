-- ===== src/Verify/Chain/Sound.antt =====
-- What an accepted chain of src/verify.rs guarantees: its device and its certificate.
use identity_crypto.Prelude.{◌≡◌, sym, false, some, arith, option_eq, eq_of_not_ne}
use identity_crypto.Prelude.Int.{ℤ, pos, ◌≤ℤ◌, ◌<ℤ◌, ◌+ℤ◌, int_eq, saturating_add, saturating_sub}
use identity_crypto.Primitives.{Bytes, Primitives}
use identity_crypto.KeyTypes.{PublicKey, key_eq}
use identity_crypto.Kind.{PrincipalKind}
use identity_crypto.PublicKey.{to_pb}
use identity_crypto.Error.{ok, ok-injective, >>=-eq-ok, reject_if-eq-ok, ok_or-eq-ok}
use identity_crypto.Pb
use identity_crypto.Pb.Equality.{delegation_eq}
use identity_crypto.Signature.{Signed, verify_p256-eq-ok}
use identity_crypto.Transcripts.Enc.Keys.{req-eq-ok}
use identity_crypto.Transcripts.Keys.{key_delegation_transcript}
use identity_crypto.Transcripts.Messages.{session_delegation_transcript}
use identity_crypto.Registry.Types.{VerifiedEntry, VerifiedBinding, current_signing}
use identity_crypto.Registry.Checks.{device_purpose}
use identity_crypto.Resolver.{Resolver, binding, is_revoked}
use identity_crypto.Verify.Time.Windows.{check_session_span_iff, check_unlisted_span_iff}
use identity_crypto.Verify.Chain.{
  host_is_frozen, bound_device, unlisted_device, device_listed, device_current, check_cert,
}

-- The device delegation of a human is the bound one, and its host is not frozen.
pub record Bound (d : Pb.KeyDelegation) (e : VerifiedEntry) (r : Resolver) (at : ℤ)
    (device : PublicKey) : Type 0 where
  pub bound : VerifiedBinding
  pub found : binding r e.id device ≡ some bound
  pub same : bound.device ≡ d
  pub unexpired : at ≤ℤ d.not_after_unix_seconds
  pub host_unfrozen : host_is_frozen r bound at ≡ false

-- The delegation of an unlisted device spans at most 31 days and is current, with 30 seconds of skew
-- at its start.
pub record Unlisted (d : Pb.KeyDelegation) (at : ℤ) : Type 0 where
  pub ordered : d.issued_at_unix_seconds <ℤ d.not_after_unix_seconds
  pub span : d.not_after_unix_seconds ≤ℤ d.issued_at_unix_seconds +ℤ pos 2_678_400
  pub started : d.issued_at_unix_seconds ≤ℤ saturating_add at (pos 30)
  pub unexpired : at ≤ℤ d.not_after_unix_seconds

abbrev pub Listed :
    Pb.KeyDelegation → VerifiedEntry → Resolver → ℤ → PublicKey → PrincipalKind → Type 0
Listed d e r at device PrincipalKind.human = Bound d e r at device
Listed d e r at device _ = Unlisted d at

bound_device-eq-ok :
    (d : Pb.KeyDelegation) (e : VerifiedEntry) (r : Resolver) (at : ℤ) (device : PublicKey)
    {u : Unit {0}}
    → bound_device d e r at device ≡ ok u
    → Bound d e r at device
unfolding bound_device
bound_device-eq-ok d e r at device h =
    let (b, e1, h1) = >>=-eq-ok _ _ h in
    let (u2, e2, h2) = >>=-eq-ok _ _ h1 in
    let (u3, e3, h3) = >>=-eq-ok _ _ h2 in
    let differs = reject_if-eq-ok _ _ e2 in
    let expired = reject_if-eq-ok _ _ e3 in
    record {
      bound = b;
      found = ok_or-eq-ok _ _ e1;
      same = eq_of_not_ne b.device d differs;
      unexpired = ground arith;
      host_unfrozen = reject_if-eq-ok _ _ h3;
    }

unlisted_device-eq-ok :
    (d : Pb.KeyDelegation) (at : ℤ) {u : Unit {0}} → unlisted_device d at ≡ ok u → Unlisted d at
unfolding unlisted_device
unlisted_device-eq-ok d at h =
    let (u1, e1, h1) = >>=-eq-ok _ _ h in
    let (u2, e2, h2) = >>=-eq-ok _ _ h1 in
    let late = reject_if-eq-ok _ _ e2 in
    let expired = reject_if-eq-ok _ _ h2 in
    let (a, b) =
      (check_unlisted_span_iff "device.not_after_unix_seconds" d.issued_at_unix_seconds
          d.not_after_unix_seconds).0
        e1 in
    record { ordered = a; span = b; started = ground arith; unexpired = ground arith }

device_listed-eq-ok :
    (d : Pb.KeyDelegation) (e : VerifiedEntry) (r : Resolver) (at : ℤ) (device : PublicKey)
    {u : Unit {0}}
    → device_listed d e r at device ≡ ok u
    → Listed d e r at device e.kind
unfolding device_listed
device_listed-eq-ok d e r at device {u} = go e.kind
  where
    go :
        (k : PrincipalKind)
        → (elim k [ PrincipalKind.human ↦ bound_device d e r at device | _ ↦ unlisted_device d at ])
          ≡ ok u
        → Listed d e r at device k
    go PrincipalKind.human h = bound_device-eq-ok d e r at device h
    go _ h = unlisted_device-eq-ok d at h

module _ ⦃p : Primitives⦄ where
  -- The device delegation `d`, for the entry `e`, makes `device` current at `at`.
  pub record DeviceCurrent (d : Pb.KeyDelegation) (e : VerifiedEntry) (r : Resolver) (at : ℤ)
      (device : PublicKey) : Type 0 where
    pub root : PublicKey
    pub transcript : Bytes
    pub of_principal : d.principal_genesis ≡ some (to_pb e.id.genesis)
    pub of_root : d.signing_root ≡ some (to_pb root)
    pub root_current : some root ≡ current_signing e
    pub root_unrevoked : is_revoked r e.id root at ≡ false
    pub purpose : d.purpose ≡ device_purpose
    pub covers : key_delegation_transcript d ≡ ok transcript
    pub signed : Signed root transcript d.signature
    pub of_device : d.delegated ≡ some (to_pb device)
    pub device_unrevoked : is_revoked r e.id device at ≡ false
    pub listed : Listed d e r at device e.kind

  -- The session certificate `c`, under `device`, makes `session` current at `at`.
  pub record CertCurrent (c : Pb.DelegationCert) (device : PublicKey) (at : ℤ) (session : PublicKey)
      : Type 0 where
    pub transcript : Bytes
    pub of_device : c.device ≡ some (to_pb device)
    pub covers : session_delegation_transcript c ≡ ok transcript
    pub signed : Signed device transcript c.signature
    pub ordered : c.not_before_unix_seconds <ℤ c.not_after_unix_seconds
    pub span : c.not_after_unix_seconds ≤ℤ c.not_before_unix_seconds +ℤ pos 86_400
    pub started : saturating_sub c.not_before_unix_seconds (pos 30) ≤ℤ at
    pub unexpired : at ≤ℤ c.not_after_unix_seconds
    pub of_session : c.session ≡ some (to_pb session)

  pub device_current-eq-ok :
      (d : Pb.KeyDelegation) (e : VerifiedEntry) (r : Resolver) (at : ℤ) (device : PublicKey)
      → device_current d e r at ≡ ok device
      → DeviceCurrent d e r at device
  unfolding device_current
  device_current-eq-ok d e r at device h =
      let (principal, e1, h1) = >>=-eq-ok _ _ h in
      let (u2, e2, h2) = >>=-eq-ok _ _ h1 in
      let (root, e3, h3) = >>=-eq-ok _ _ h2 in
      let (u4, e4, h4) = >>=-eq-ok _ _ h3 in
      let (u5, e5, h5) = >>=-eq-ok _ _ h4 in
      let (u6, e6, h6) = >>=-eq-ok _ _ h5 in
      let (transcript, e7, h7) = >>=-eq-ok _ _ h6 in
      let (v8, e8, h8) = >>=-eq-ok _ _ h7 in
      let (dev, e9, h9) = >>=-eq-ok _ _ h8 in
      let (u10, e10, h10) = >>=-eq-ok _ _ h9 in
      let (u11, e11, h11) = >>=-eq-ok _ _ h10 in
      let (u12, e12, h12) = >>=-eq-ok _ _ h11 in
      let other_principal = reject_if-eq-ok _ _ e2 in
      let other_root = reject_if-eq-ok _ _ e4 in
      let other_purpose = reject_if-eq-ok _ _ e6 in
      let same : dev ≡ device = ok-injective h12 in
      record {
        root = root;
        transcript = transcript;
        of_principal =
            cc
              ((req-eq-ok _ _ principal e1).1, eq_of_not_ne principal e.id.genesis other_principal);
        of_root = (req-eq-ok _ _ root e3).1;
        root_current = eq_of_not_ne (some root) (current_signing e) other_root;
        root_unrevoked = reject_if-eq-ok _ _ e5;
        purpose = eq_of_not_ne d.purpose device_purpose other_purpose;
        covers = e7;
        signed = verify_p256-eq-ok root transcript d.signature e8;
        of_device = cc ((req-eq-ok _ _ dev e9).1, same);
        device_unrevoked = rw (← same) (reject_if-eq-ok _ _ e10);
        listed = rw (← same) (device_listed-eq-ok d e r at dev e12);
      }

  pub check_cert-eq-ok :
      (c : Pb.DelegationCert) (device : PublicKey) (at : ℤ) (session : PublicKey) (not_after : ℤ)
      → check_cert c device at ≡ ok (session, not_after)
      → CertCurrent c device at session × (not_after ≡ c.not_after_unix_seconds)
  unfolding check_cert
  check_cert-eq-ok c device at session not_after h =
      let (signer, e1, h1) = >>=-eq-ok _ _ h in
      let (u2, e2, h2) = >>=-eq-ok _ _ h1 in
      let (transcript, e3, h3) = >>=-eq-ok _ _ h2 in
      let (v4, e4, h4) = >>=-eq-ok _ _ h3 in
      let (u5, e5, h5) = >>=-eq-ok _ _ h4 in
      let (u6, e6, h6) = >>=-eq-ok _ _ h5 in
      let (u7, e7, h7) = >>=-eq-ok _ _ h6 in
      let (key, e8, h8) = >>=-eq-ok _ _ h7 in
      let other = reject_if-eq-ok _ _ e2 in
      let early = reject_if-eq-ok _ _ e6 in
      let late = reject_if-eq-ok _ _ e7 in
      let (a, b) =
        (check_session_span_iff c.not_before_unix_seconds c.not_after_unix_seconds).0 e5 in
      let same : signer ≡ device = eq_of_not_ne signer device other in
      let (sk, sn) = pair_parts (ok-injective h8) in
      (
        record {
          transcript = transcript;
          of_device = cc ((req-eq-ok _ _ signer e1).1, same);
          covers = e3;
          signed = verify_p256-eq-ok device transcript c.signature e4;
          ordered = a;
          span = b;
          started = ground arith;
          unexpired = ground arith;
          of_session = cc ((req-eq-ok _ _ key e8).1, sk);
        },
        sym sn,
      )
    where
      pair_parts :
          {a b : PublicKey} {x y : ℤ} → ◌≡◌ {A = PublicKey × ℤ} (a, x) (b, y) → (a ≡ b) × (x ≡ y)
      pair_parts q = (cc, cc)
