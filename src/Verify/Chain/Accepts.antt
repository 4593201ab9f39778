-- ===== src/Verify/Chain/Accepts.antt =====
-- The two kinds of chains that `verify_chain` of src/verify.rs accepts, as specifications.
use identity_crypto.Prelude.{
  negated, both_false, ◌≡◌, refl, ap, true, false, Option, none, some, any, ◌!=◌, nat_eq,
  eq_of_not_ne,
}
use identity_crypto.Prelude.Int.{ℤ}
use identity_crypto.Primitives.{Str, Primitives}
use identity_crypto.KeyTypes.{PrincipalId, key_eq}
use identity_crypto.Kind.{PrincipalKind, kind_eq}
use identity_crypto.PublicKey.{to_pb}
use identity_crypto.Error.{ok, >>=-eq-ok, >>=-elim, reject_if-eq-ok, ok_or-eq-ok, ok-injective}
use identity_crypto.Pb
use identity_crypto.Transcripts.Enc.Keys.{req-eq-ok}
use identity_crypto.Registry.Types.{VerifiedEntry, is_self_rooted}
use identity_crypto.Resolver.{Resolver, entry, is_frozen}
use identity_crypto.Verify.Time.{When, time_of}
use identity_crypto.Verify.Chain
use identity_crypto.Verify.Chain.{
  VerifiedChain, Host, principal_at, host_of, starts_with, vouched_prefix, allows,
  verify_self_rooted, verify_host_vouched, verify_chain,
}
use identity_crypto.Verify.Chain.Sound.{
  DeviceCurrent, CertCurrent, device_current-eq-ok, check_cert-eq-ok,
}

module _ ⦃p : Primitives⦄ where
  pub principal_at-eq-ok :
      (w : Option Pb.PublicKey) (field : _) (id : PrincipalId)
      → principal_at w field ≡ ok id
      → w ≡ some (to_pb id.genesis)
  unfolding principal_at
  principal_at-eq-ok w field id h =
      let (k, e, h') = >>=-eq-ok _ _ h in
      let same : k ≡ id.genesis = ap (λ (x : PrincipalId). x.genesis) (ok-injective h') in
      cc ((req-eq-ok _ _ k e).1, same)

  -- A principal with a root of its own, through its own device.
  pub record SelfRooted (s : Pb.SelfRooted) (r : Resolver) (at : ℤ) (v : VerifiedChain)
      : Type 0 where
    pub delegation : Pb.KeyDelegation
    pub cert : Pb.DelegationCert
    pub registered : VerifiedEntry
    pub has_delegation : s.device ≡ some delegation
    pub has_cert : s.session ≡ some cert
    pub of_principal : cert.principal_genesis ≡ some (to_pb v.principal.genesis)
    pub has_entry : entry r v.principal ≡ some registered
    pub self_rooted : is_self_rooted registered ≡ true
    pub unfrozen : is_frozen r v.principal at ≡ false
    pub mode : cert.mode ≡ 0
    pub device : DeviceCurrent delegation registered r at v.device
    pub session : CertCurrent cert v.device at v.session_key
    pub kind : v.kind ≡ registered.kind
    pub host : v.host ≡ host_of r registered v.principal v.device
    pub subject : v.subject ≡ none
    pub not_after : v.session_not_after ≡ cert.not_after_unix_seconds

  -- An agent without a root, vouched for by a daemon's device.
  pub record HostVouched (s : Pb.HostVouched) (r : Resolver) (at : ℤ) (v : VerifiedChain)
      : Type 0 where
    pub delegation : Pb.KeyDelegation
    pub cert : Pb.DelegationCert
    pub host : PrincipalId
    pub host_entry : VerifiedEntry
    pub agent_entry : VerifiedEntry
    pub subject : Str
    pub has_delegation : s.host_device ≡ some delegation
    pub has_cert : s.session ≡ some cert
    pub of_host : delegation.principal_genesis ≡ some (to_pb host.genesis)
    pub has_host : entry r host ≡ some host_entry
    pub host_is_daemon : host_entry.kind ≡ PrincipalKind.daemon
    pub host_unfrozen : is_frozen r host at ≡ false
    pub mode : cert.mode ≡ 1
    pub names_host : cert.host_genesis ≡ some (to_pb host.genesis)
    pub has_subject : cert.subject ≡ some subject
    pub subject_under_host : starts_with subject (vouched_prefix host) ≡ true
    pub of_agent : cert.principal_genesis ≡ some (to_pb v.principal.genesis)
    pub has_agent : entry r v.principal ≡ some agent_entry
    pub agent_is_agent : agent_entry.kind ≡ PrincipalKind.agent
    pub agent_has_no_root : is_self_rooted agent_entry ≡ false
    pub agent_unfrozen : is_frozen r v.principal at ≡ false
    pub allowed : any (allows host) agent_entry.allowed_hosts ≡ true
    pub device : DeviceCurrent delegation host_entry r at v.device
    pub session : CertCurrent cert v.device at v.session_key
    pub result : v ≡ record {
      principal = v.principal;
      kind = PrincipalKind.agent;
      host = Chain.daemon host;
      subject = some subject;
      device = v.device;
      session_key = v.session_key;
      session_not_after = cert.not_after_unix_seconds;
    }

  verify_self_rooted-eq-ok :
      (s : Pb.SelfRooted) (r : Resolver) (at : ℤ) (v : VerifiedChain)
      → verify_self_rooted s r at ≡ ok v
      → SelfRooted s r at v
  unfolding verify_self_rooted
  verify_self_rooted-eq-ok s r at v h = >>=-elim _ _ h λ d e1 h1. >>=-elim _ _ h1 λ cert e2 h2.
      >>=-elim _ _ h2 λ principal e3 h3. >>=-elim _ _ h3 λ e e4 h4. >>=-elim _ _ h4 λ _ e5 h5.
        >>=-elim _ _ h5 λ _ e6 h6. >>=-elim _ _ h6 λ _ e7 h7. >>=-elim _ _ h7 λ device e8 h8.
          >>=-elim _ _ h8 λ session e9 h9.
            let checked = check_cert-eq-ok cert device at session.0 session.1 e9 in
            rw (← (ok-injective h9)) (record {
              delegation = d;
              cert = cert;
              registered = e;
              has_delegation = ok_or-eq-ok _ _ e1;
              has_cert = ok_or-eq-ok _ _ e2;
              of_principal = principal_at-eq-ok _ _ principal e3;
              has_entry = ok_or-eq-ok _ _ e4;
              self_rooted = negated _ (reject_if-eq-ok _ _ e5);
              unfrozen = reject_if-eq-ok _ _ e6;
              mode = eq_of_not_ne cert.mode 0 (reject_if-eq-ok _ _ e7);
              device = device_current-eq-ok d e r at device e8;
              session = checked.0;
              kind = refl;
              host = refl;
              subject = refl;
              not_after = checked.1;
            })

  verify_host_vouched-eq-ok :
      (s : Pb.HostVouched) (r : Resolver) (at : ℤ) (v : VerifiedChain)
      → verify_host_vouched s r at ≡ ok v
      → HostVouched s r at v
  unfolding verify_host_vouched
  verify_host_vouched-eq-ok s r at v h = >>=-elim _ _ h λ d e1 h1. >>=-elim _ _ h1 λ cert e2 h2.
      >>=-elim _ _ h2 λ host e3 h3. >>=-elim _ _ h3 λ host_entry e4 h4. >>=-elim _ _ h4 λ _ e5 h5.
        >>=-elim _ _ h5 λ _ e6 h6. >>=-elim _ _ h6 λ _ e7 h7. >>=-elim _ _ h7 λ host_genesis e8 h8.
          >>=-elim _ _ h8 λ _ e9 h9. >>=-elim _ _ h9 λ subject e10 h10.
            >>=-elim _ _ h10 λ _ e11 h11. >>=-elim _ _ h11 λ agent e12 h12.
              >>=-elim _ _ h12 λ agent_entry e13 h13. >>=-elim _ _ h13 λ _ e14 h14.
                >>=-elim _ _ h14 λ _ e15 h15. >>=-elim _ _ h15 λ _ e16 h16.
                  >>=-elim _ _ h16 λ device e17 h17. >>=-elim _ _ h17 λ session e18 h18.
                    let checked = check_cert-eq-ok cert device at session.0 session.1 e18 in
                    let named = eq_of_not_ne host_genesis host.genesis (reject_if-eq-ok _ _ e9) in
                    let (other_kind, rooted) =
                      both_false (agent_entry.kind != PrincipalKind.agent)
                        (is_self_rooted agent_entry) (reject_if-eq-ok _ _ e14) in
                    rw (← (ok-injective h18)) (record {
                      delegation = d;
                      cert = cert;
                      host = host;
                      host_entry = host_entry;
                      agent_entry = agent_entry;
                      subject = subject;
                      has_delegation = ok_or-eq-ok _ _ e1;
                      has_cert = ok_or-eq-ok _ _ e2;
                      of_host = principal_at-eq-ok _ _ host e3;
                      has_host = ok_or-eq-ok _ _ e4;
                      host_is_daemon =
                          eq_of_not_ne host_entry.kind PrincipalKind.daemon
                            (reject_if-eq-ok _ _ e5);
                      host_unfrozen = reject_if-eq-ok _ _ e6;
                      mode = eq_of_not_ne cert.mode 1 (reject_if-eq-ok _ _ e7);
                      names_host = cc ((req-eq-ok _ _ host_genesis e8).1, named);
                      has_subject = ok_or-eq-ok _ _ e10;
                      subject_under_host = negated _ (reject_if-eq-ok _ _ e11);
                      of_agent = principal_at-eq-ok _ _ agent e12;
                      has_agent = ok_or-eq-ok _ _ e13;
                      agent_is_agent = eq_of_not_ne agent_entry.kind PrincipalKind.agent other_kind;
                      agent_has_no_root = rooted;
                      agent_unfrozen = reject_if-eq-ok _ _ e15;
                      allowed = negated _ (reject_if-eq-ok _ _ e16);
                      device = device_current-eq-ok d host_entry r at device e17;
                      session = checked.0;
                      result =
                          ap
                            (λ (n : ℤ). record {
                              principal = agent;
                              kind = PrincipalKind.agent;
                              host = Chain.daemon host;
                              subject = some subject;
                              device = device;
                              session_key = session.0;
                              session_not_after = n;
                            })
                            checked.1;
                    })

  -- What an accepted chain is: one of the two kinds.
  pub data AcceptedChain (signer : Pb.SignerChain) (r : Resolver) (at : ℤ) (v : VerifiedChain)
      : Type 0 where
    of_root :
        (s : Pb.SelfRooted)
        → signer.chain ≡ some (Pb.self_rooted s)
        → SelfRooted s r at v
        → AcceptedChain signer r at v
    of_host :
        (s : Pb.HostVouched)
        → signer.chain ≡ some (Pb.host_vouched s)
        → HostVouched s r at v
        → AcceptedChain signer r at v

  -- A chain that `verify_chain` accepts is of one of two kinds. Either it is self-rooted: the registry
  -- has an entry for the principal with a root of its own, the principal is not frozen at the time of
  -- the check, the device's delegation is signed by the current signing root and is of the right
  -- purpose, neither key is revoked, the delegation is listed (a human's, with its host not frozen) or
  -- spans at most 31 days, and the session's certificate is signed by the device, spans at most 24
  -- hours and is current. Or it is vouched for: the device is such a device of an unfrozen daemon
  -- that the unfrozen agent's entry allows, and the subject begins with the daemon's short id.
  pub verify_chain-AcceptedChain :
      (signer : Pb.SignerChain) (r : Resolver) (when : When) (v : VerifiedChain)
      → verify_chain signer r when ≡ ok v
      → AcceptedChain signer r (time_of when) v
  unfolding verify_chain
  verify_chain-AcceptedChain signer r when v h =
      >>=-elim _ _ h λ chain e h'. by_kind chain (ok_or-eq-ok _ _ e) h'
    where
      by_kind :
          (c : _)
          → signer.chain ≡ some c
          → (elim c [
            | Pb.self_rooted s ↦ verify_self_rooted s r (time_of when)
            | Pb.host_vouched s ↦ verify_host_vouched s r (time_of when)
          ])
            ≡ ok v
          → AcceptedChain signer r (time_of when) v
      by_kind (Pb.self_rooted s) e h = of_root s e (verify_self_rooted-eq-ok s r _ v h)
      by_kind (Pb.host_vouched s) e h = of_host s e (verify_host_vouched-eq-ok s r _ v h)
