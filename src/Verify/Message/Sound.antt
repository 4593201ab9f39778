-- ===== src/Verify/Message/Sound.antt =====
-- What an accepted message of src/verify.rs guarantees, against a resolver and against trusted devices.
use identity_crypto.Prelude.{
  ◌≡◌, refl, true, some, contains, eq_of_not_ne, list_eq, nat_eq, negated,
}
use identity_crypto.Primitives.{Bytes, Str, Primitives}
use identity_crypto.KeyTypes.{PublicKey, key_eq}
use identity_crypto.PublicKey.{to_pb}
use identity_crypto.Error.{ok, >>=-elim, reject_if-eq-ok, ok_or-eq-ok, ok-injective}
use identity_crypto.Pb
use identity_crypto.Signature.{Signed, verify_p256-eq-ok}
use identity_crypto.Transcripts.Enc.Keys.{req-eq-ok}
use identity_crypto.Transcripts.Messages.{signed_message_transcript}
use identity_crypto.Resolver.{Resolver}
use identity_crypto.Verify.Time.{When, time_of, check_skew}
use identity_crypto.Verify.Chain.Sound.{CertCurrent, check_cert-eq-ok}
use identity_crypto.Verify.Chain.Accepts.{AcceptedChain, verify_chain-AcceptedChain}
use identity_crypto.Verify.Message.{
  VerifiedMessage, AuthorDevices, VerifiedTrustedMessage, self_rooted_cert,
  check_message_under_session, verify_signed_message, verify_signed_message_trusted_devices,
}

module _ ⦃p : Primitives⦄ where
  -- The message is for `audience`, its session key signed it, and its time is in the window.
  pub record UnderSession (msg : Pb.SignedMessage) (audience : Str) (session : PublicKey)
      (when : When) : Type 0 where
    pub transcript : Bytes
    pub for_audience : msg.audience ≡ audience
    pub covers : signed_message_transcript msg ≡ ok transcript
    pub signed : Signed session transcript msg.signature
    pub in_window : check_skew when msg.issued_at_unix_seconds ≡ ok tt

  under_session-eq-ok :
      (msg : Pb.SignedMessage) (audience : Str) (session : PublicKey) (when : When) {u : Unit {0}}
      → check_message_under_session msg audience session when ≡ ok u
      → UnderSession msg audience session when
  unfolding check_message_under_session
  under_session-eq-ok msg audience session when h = >>=-elim _ _ h λ _ e1 h1.
      >>=-elim _ _ h1 λ t e2 h2. >>=-elim _ _ h2 λ s e3 h3. record {
        transcript = t;
        for_audience = eq_of_not_ne msg.audience audience (reject_if-eq-ok _ _ e1);
        covers = e2;
        signed = verify_p256-eq-ok session t msg.signature e3;
        in_window = h3;
      }

  -- What `verify_signed_message` returns: a chain that is accepted, and the message's own fields.
  pub record AcceptedMessage (msg : Pb.SignedMessage) (audience : Str) (r : Resolver) (when : When)
      (v : VerifiedMessage) : Type 0 where
    pub signer : Pb.SignerChain
    pub has_signer : msg.signer ≡ some signer
    pub chain : AcceptedChain signer r (time_of when) v.chain
    pub session : UnderSession msg audience v.chain.session_key when
    pub nonce : v.nonce ≡ msg.nonce
    pub issued_at : v.issued_at ≡ msg.issued_at_unix_seconds
    pub in_reply_to : v.in_reply_to_nonce ≡ msg.in_reply_to_nonce
    pub body_type : v.body_type ≡ msg.body_type
    pub body : v.body ≡ msg.body

  -- A message that `verify_signed_message` accepts is addressed to the expected audience, its signer
  -- is a chain of one of the two accepted kinds under the same resolver and time, its signature
  -- verifies under that chain's session key over the message's transcript, its time of issue is in the
  -- window, and what is returned is the message's nonce, times and body.
  pub verify_signed_message-AcceptedMessage :
      (msg : Pb.SignedMessage) (audience : Str) (r : Resolver) (when : When) (v : VerifiedMessage)
      → verify_signed_message msg audience r when ≡ ok v
      → AcceptedMessage msg audience r when v
  unfolding verify_signed_message
  verify_signed_message-AcceptedMessage msg audience r when v h = >>=-elim _ _ h λ _ e1 h1.
      >>=-elim _ _ h1 λ signer e2 h2. >>=-elim _ _ h2 λ chain e3 h3. >>=-elim _ _ h3 λ _ e4 h4.
        rw (← (ok-injective h4)) (record {
          signer = signer;
          has_signer = ok_or-eq-ok _ _ e2;
          chain = verify_chain-AcceptedChain signer r when chain e3;
          session = under_session-eq-ok msg audience chain.session_key when e4;
          nonce = refl;
          issued_at = refl;
          in_reply_to = refl;
          body_type = refl;
          body = refl;
        })

  -- What `verify_signed_message_trusted_devices` returns: a session of a trusted device.
  pub record TrustedMessage (msg : Pb.SignedMessage) (audience : Str) (author : AuthorDevices)
      (when : When) (v : VerifiedTrustedMessage) : Type 0 where
    pub signer : Pb.SignerChain
    pub root : Pb.SelfRooted
    pub cert : Pb.DelegationCert
    pub has_signer : msg.signer ≡ some signer
    pub is_self_rooted : signer.chain ≡ some (Pb.self_rooted root)
    pub has_cert : root.session ≡ some cert
    pub mode : cert.mode ≡ 0
    pub by_author : cert.principal_genesis ≡ some (to_pb author.author_genesis)
    pub trusted : contains author.devices v.device ≡ true
    pub current : CertCurrent cert v.device (time_of when) v.session_key
    pub session : UnderSession msg audience v.session_key when
    pub author_genesis : v.author_genesis ≡ author.author_genesis
    pub not_after : v.session_not_after ≡ cert.not_after_unix_seconds
    pub nonce : v.nonce ≡ msg.nonce
    pub body : v.body ≡ msg.body

  self_rooted_cert-eq-ok :
      (c : Pb.Chain) (cert : Pb.DelegationCert)
      → self_rooted_cert c ≡ ok cert
      → (s : Pb.SelfRooted) × (c ≡ Pb.self_rooted s) × (s.session ≡ some cert)
  unfolding self_rooted_cert
  self_rooted_cert-eq-ok (Pb.self_rooted s) cert h = (s, refl, ok_or-eq-ok _ _ h)
  self_rooted_cert-eq-ok (Pb.host_vouched s) cert h = cc

  -- A message that `verify_signed_message_trusted_devices` accepts carries a self-rooted chain of mode
  -- 0 whose principal is the author, whose device is among the author's devices and signed the
  -- session's current certificate, and whose session key signed the message for the expected audience
  -- in the window; the body and the nonce returned are the message's.
  pub verify_signed_message_trusted_devices-TrustedMessage :
      (msg : Pb.SignedMessage) (audience : Str) (author : AuthorDevices) (when : When)
      (v : VerifiedTrustedMessage)
      → verify_signed_message_trusted_devices msg audience author when ≡ ok v
      → TrustedMessage msg audience author when v
  unfolding verify_signed_message_trusted_devices
  verify_signed_message_trusted_devices-TrustedMessage msg audience author when v h =
      >>=-elim _ _ h λ _ e1 h1. >>=-elim _ _ h1 λ signer e2 h2. >>=-elim _ _ h2 λ chain e3 h3.
        >>=-elim _ _ h3 λ cert e4 h4. >>=-elim _ _ h4 λ _ e5 h5. >>=-elim _ _ h5 λ principal e6 h6.
          >>=-elim _ _ h6 λ _ e7 h7. >>=-elim _ _ h7 λ device e8 h8. >>=-elim _ _ h8 λ _ e9 h9.
            >>=-elim _ _ h9 λ session e10 h10. >>=-elim _ _ h10 λ _ e11 h11.
              let (root, chain_is, cert_is) = self_rooted_cert-eq-ok chain cert e4 in
              let author_is =
                eq_of_not_ne principal author.author_genesis (reject_if-eq-ok _ _ e7) in
              let checked = check_cert-eq-ok cert device (time_of when) session.0 session.1 e10 in
              rw (← (ok-injective h11)) (record {
                signer = signer;
                root = root;
                cert = cert;
                has_signer = ok_or-eq-ok _ _ e2;
                is_self_rooted = cc (ok_or-eq-ok _ _ e3, chain_is);
                has_cert = cert_is;
                mode = eq_of_not_ne cert.mode 0 (reject_if-eq-ok _ _ e5);
                by_author = cc ((req-eq-ok _ _ principal e6).1, author_is);
                trusted = negated _ (reject_if-eq-ok _ _ e9);
                current = checked.0;
                session = under_session-eq-ok msg audience session.0 when e11;
                author_genesis = refl;
                not_after = checked.1;
                nonce = refl;
                body = refl;
              })
