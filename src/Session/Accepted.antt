-- ===== src/Session/Accepted.antt =====
-- Sessions and messages of src/session.rs under the verifiers of src/verify.rs.
use identity_crypto.Prelude.{
  ◌≡◌, refl, sym, ap, ◌∙◌, true, false, not, Option, List, [], ◌∷◌, arith, is_empty, contains,
  nat_eq, list_eq, not_ne_of_eq,
}
use identity_crypto.Prelude.Int.{ℤ, pos, ◌≤ℤ◌, saturating_sub}
use identity_crypto.Primitives.{Bytes, Str, Primitives}
use identity_crypto.KeyTypes.{PublicKey, key_eq}
use identity_crypto.PublicKey.{IsKey}
use identity_crypto.Error.{ok, >>=-elim, >>=-ok, reject_if-ok, ok_or-ok, ok-injective}
use identity_crypto.Pb
use identity_crypto.Jwk.{Jwk, JwkLaws, from_key_pair}
use identity_crypto.Signature.{Signed, verify_p256-Signed}
use identity_crypto.Transcripts.Enc.Keys.{req-to_pb}
use identity_crypto.Transcripts.Enc.{req}
use identity_crypto.Transcripts.Messages.{
  session_delegation_transcript, signed_message_transcript, encode_cert_body, host_and_subject,
  write_cert_body,
}
use identity_crypto.Session.{
  SessionCredential, sign, mint_session, sign_message, cert_to_sign, message_to_sign,
}
use identity_crypto.Verify.Time.{When, time_of, check_skew}
use identity_crypto.Verify.Chain.{check_cert}
use identity_crypto.Verify.Message.{
  self_rooted_cert, check_message_under_session, verify_signed_message_trusted_devices,
}

module _ {K : Type 0} ⦃p : Primitives⦄ ⦃j : Jwk K⦄ (laws : JwkLaws K) where
  pub sign-Signed : (k : K) (m s : Bytes) → sign k m ≡ ok s → Signed (from_key_pair k) m s
  unfolding sign
  sign-Signed k m s h = laws.signs k m s (ground arith)

  -- A session that `mint_session` mints is accepted by `check_cert` under the device's public key, from
  -- 30 seconds before its start until its end, and gives the session's public key and its end.
  pub mint_session-check_cert :
      (device : K) (principal : PublicKey) (not_before not_after : ℤ) (key : K)
      (c : SessionCredential K) (at : ℤ)
      → mint_session device principal not_before not_after key ≡ ok c
      → saturating_sub not_before (pos 30) ≤ℤ at
      → at ≤ℤ not_after
      → check_cert c.cert (from_key_pair device) at ≡ ok (from_key_pair key, not_after)
  unfolding mint_session check_cert session_delegation_transcript encode_cert_body host_and_subject
      write_cert_body
  mint_session-check_cert device principal nb na key c at h early late = >>=-elim _ _ h λ _ e1 h1.
      >>=-elim _ _ h1 λ t e2 h2. >>=-elim _ _ h2 λ s e3 h3. rw (← (ok-injective h3)) (
        >>=-ok _ _ (req-to_pb (from_key_pair device) _ (laws.is_key device)) (
          >>=-ok _ _
            (reject_if-ok _ _ (not_ne_of_eq (from_key_pair device) (from_key_pair device) refl))
            (>>=-ok _ _ e2 (
              >>=-ok _ _ (verify_p256-Signed (from_key_pair device) t s (sign-Signed device t s e3))
                (>>=-ok _ _ e1 (
                  >>=-ok _ _ (reject_if-ok _ _ (ground arith)) (
                    >>=-ok _ _ (reject_if-ok _ _ (ground arith))
                      (>>=-ok _ _ (req-to_pb (from_key_pair key) _ (laws.is_key key)) refl))))))))

  -- What `mint_session` gives is the certificate with a signature, and the key.
  pub mint_session-fields :
      (device : K) (principal : PublicKey) (not_before not_after : ℤ) (key : K)
      (c : SessionCredential K)
      → mint_session device principal not_before not_after key ≡ ok c
      → (s : Bytes) × (c ≡ record {
        cert = record (cert_to_sign device principal not_before not_after key) { signature = s };
        key = key;
      })
  unfolding mint_session
  mint_session-fields device principal nb na key c h =
      >>=-elim _ _ h
        λ _ e1 h1. >>=-elim _ _ h1 λ t e2 h2. >>=-elim _ _ h2 λ s e3 h3. (s, sym (ok-injective h3))

  pub sign-nonempty : (k : K) (m s : Bytes) → sign k m ≡ ok s → is_empty s ≡ false
  sign-nonempty k m [] h = absurd (let r = (sign-Signed k m [] h).size in omega arith)
  sign-nonempty k m (x ∷ xs) h = refl

  pub check_message_under_session-signed :
      (msg : Pb.SignedMessage) (key : K) (t s : Bytes) (when : When)
      → signed_message_transcript msg ≡ ok t
      → sign key t ≡ ok s
      → check_skew when msg.issued_at_unix_seconds ≡ ok tt
      → check_message_under_session
          (record msg { signature = s })
          msg.audience
          (from_key_pair key)
          when
        ≡ ok tt
  unfolding check_message_under_session signed_message_transcript
  check_message_under_session-signed msg key t s when e1 e2 skew =
      >>=-ok _ _ (reject_if-ok _ _ (not_ne_of_eq msg.audience msg.audience refl)) (
        >>=-ok _ _ e1
          (>>=-ok _ _ (verify_p256-Signed (from_key_pair key) t s (sign-Signed key t s e2)) skew))

  -- A message that a minted session signs is accepted, with what it says, by a receiver that trusts the
  -- device: within the session's window and the receiver's skew.
  pub sign_message-verify_signed_message_trusted_devices :
      (device : K) (principal : PublicKey) (not_before not_after : ℤ) (key : K)
      (c : SessionCredential K) (d : Option Pb.KeyDelegation) (audience : Str) (nonce : Bytes)
      (issued_at : ℤ) (reply : Option Bytes) (body_type : Str) (body : Bytes)
      (msg : Pb.SignedMessage) (devices : List PublicKey) (when : When)
      → IsKey principal
      → mint_session device principal not_before not_after key ≡ ok c
      → sign_message c d audience nonce issued_at reply body_type body ≡ ok msg
      → contains devices (from_key_pair device) ≡ true
      → saturating_sub not_before (pos 30) ≤ℤ time_of when
      → time_of when ≤ℤ not_after
      → check_skew when issued_at ≡ ok tt
      → verify_signed_message_trusted_devices msg audience
          (record { author_genesis = principal; devices = devices })
          when
        ≡ ok (record {
          author_genesis = principal;
          device = from_key_pair device;
          session_key = from_key_pair key;
          session_not_after = not_after;
          nonce = nonce;
          issued_at = issued_at;
          in_reply_to_nonce = reply;
          body_type = body_type;
          body = body;
        })
  unfolding sign_message verify_signed_message_trusted_devices self_rooted_cert
  sign_message-verify_signed_message_trusted_devices device principal nb na key c d audience nonce
        issued reply ty body msg devices when is_key minted signed trusted early late skew =
      let (sig, e) = mint_session-fields device principal nb na key c minted in
      >>=-elim _ _ signed λ t e1 h1. >>=-elim _ _ h1 λ s e2 h2. rw (← (ok-injective h2)) (
        >>=-ok _ _ (reject_if-ok _ _ (sign-nonempty c.key t s e2)) (
          >>=-ok _ _ (ok_or-ok _ _ refl) (
            >>=-ok _ _ (ok_or-ok _ _ refl) (
              >>=-ok _ _ (ok_or-ok _ _ refl) (
                >>=-ok _ _ (reject_if-ok _ _ (not_ne_of_eq c.cert.mode 0 (ap (λ x. x.cert.mode) e)))
                  (>>=-ok _ _
                    (ap (λ x. req x.cert.principal_genesis "session.principal_genesis") e
                      ∙ req-to_pb principal _ is_key)
                    (>>=-ok _ _ (reject_if-ok _ _ (not_ne_of_eq principal principal refl)) (
                      >>=-ok _ _
                        (ap (λ x. req x.cert.device "session.device") e
                          ∙ req-to_pb (from_key_pair device) _ (laws.is_key device))
                        (>>=-ok _ _ (reject_if-ok _ _ (ap not trusted)) (
                          >>=-ok _ _
                            (mint_session-check_cert device principal nb na key c (time_of when)
                              minted early late)
                            (>>=-ok _ _
                              (check_message_under_session-signed
                                (message_to_sign c d audience nonce issued reply ty body) key t s
                                when e1 (ap (λ x. sign x.key t) (sym e) ∙ e2) skew)
                              refl)))))))))))
