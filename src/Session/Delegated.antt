-- ===== src/Session/Delegated.antt =====
-- A device that src/keys.rs delegates, a session of src/session.rs that it mints, and a message under that
-- session, before `verify_signed_message` of src/verify.rs.
use identity_crypto.Prelude.{
  ◌≡◌, ◌≢◌, refl, sym, ap, ◌∙◌, true, false, not, Option, none, some, nat_eq, list_eq, not_ne_of_eq,
}
use identity_crypto.Prelude.Int.{ℤ, pos, ◌≤ℤ◌, saturating_sub, saturating_add}
use identity_crypto.Primitives.{Bytes, Str, Primitives}
use identity_crypto.KeyTypes.{PublicKey, PrincipalId}
use identity_crypto.Kind.{PrincipalKind}
use identity_crypto.PublicKey.{IsKey, to_pb}
use identity_crypto.Error.{ok, >>=-elim, >>=-ok, reject_if-ok, ok_or-ok, ok-injective}
use identity_crypto.Pb
use identity_crypto.Jwk.{Jwk, JwkLaws, KeyDuo, from_key_pair}
use identity_crypto.Transcripts.Enc.Keys.{req-to_pb}
use identity_crypto.Registry.Types.{VerifiedEntry, is_self_rooted, current_signing}
use identity_crypto.Resolver.{Resolver, entry, is_frozen, is_revoked}
use identity_crypto.Session.{SessionCredential, sign, mint_session, sign_message, message_to_sign}
use identity_crypto.Session.Accepted.{
  mint_session-check_cert, mint_session-fields, sign-nonempty, check_message_under_session-signed,
}
use identity_crypto.Keys.{signing_public, delegate_device}
use identity_crypto.Keys.Accepted.{delegate_device-device_current}
use identity_crypto.Verify.Time.{When, time_of, check_skew}
use identity_crypto.Verify.Chain.{host_of, principal_at, verify_chain, verify_self_rooted}
use identity_crypto.Verify.Message.{verify_signed_message}

-- A principal that is not a human in a resolver, as a device under its root needs it at a time.
pub record Stands (r : Resolver) (e : VerifiedEntry) (genesis : PrincipalId)
    (root device : PublicKey) (at : ℤ) : Type 0 where
  pub known : entry r genesis ≡ some e
  pub id : e.id ≡ genesis
  pub not_human : e.kind ≢ PrincipalKind.human
  pub self_rooted : is_self_rooted e ≡ true
  pub current : current_signing e ≡ some root
  pub not_frozen : is_frozen r genesis at ≡ false
  pub root_not_revoked : is_revoked r genesis root at ≡ false
  pub device_not_revoked : is_revoked r genesis device at ≡ false

module _ {K : Type 0} ⦃p : Primitives⦄ ⦃j : Jwk K⦄ (laws : JwkLaws K) where
  principal_at-to_pb :
      (genesis : PrincipalId) (field : _)
      → IsKey genesis.genesis
      → principal_at (some (to_pb genesis.genesis)) field ≡ ok genesis
  unfolding principal_at
  principal_at-to_pb genesis field h = >>=-ok _ _ (req-to_pb genesis.genesis field h) refl

  -- The builders compose: a root that delegates a device, a session that the device mints, and a message
  -- under the session are accepted together by `verify_signed_message`, as the principal's message. The
  -- principal is not a human and stands in the resolver, its key is a P-256 point, the delegation
  -- does not end at 0, and the receiver's time is in both windows and within the skew.
  pub sign_message-verify_signed_message :
      (root : KeyDuo K) (genesis : PrincipalId) (device : KeyDuo K) (issued not_after : ℤ)
      (d : Pb.KeyDelegation) (session_start session_end : ℤ) (key : K) (c : SessionCredential K)
      (audience : Str) (nonce : Bytes) (sent : ℤ) (reply : Option Bytes) (body_type : Str)
      (body : Bytes) (msg : Pb.SignedMessage) (r : Resolver) (e : VerifiedEntry) (when : When)
      → IsKey genesis.genesis
      → Stands r e genesis (signing_public root) (signing_public device) (time_of when)
      → delegate_device root genesis device issued not_after ≡ ok d
      → mint_session device.signing_key_pair genesis.genesis session_start session_end key ≡ ok c
      → sign_message c (some d) audience nonce sent reply body_type body ≡ ok msg
      → not_after ≢ pos 0
      → issued ≤ℤ saturating_add (time_of when) (pos 30)
      → time_of when ≤ℤ not_after
      → saturating_sub session_start (pos 30) ≤ℤ time_of when
      → time_of when ≤ℤ session_end
      → check_skew when sent ≡ ok tt
      → verify_signed_message msg audience r when
        ≡ ok (record {
          chain = record {
            principal = genesis;
            kind = e.kind;
            host = host_of r e genesis (signing_public device);
            subject = none;
            device = signing_public device;
            session_key = from_key_pair key;
            session_not_after = session_end;
          };
          nonce = nonce;
          issued_at = sent;
          in_reply_to_nonce = reply;
          body_type = body_type;
          body = body;
        })
  unfolding sign_message verify_signed_message verify_chain verify_self_rooted
  sign_message-verify_signed_message root genesis device issued na d start end key c audience nonce
        sent reply ty body msg r e when is_key stands delegated minted signed nonzero d_early d_late
        early late skew =
      let (sig, same) =
        mint_session-fields laws device.signing_key_pair genesis.genesis start end key c minted in
      >>=-elim _ _ signed λ t e1 h1. >>=-elim _ _ h1 λ s e2 h2. rw (← (ok-injective h2)) (
        >>=-ok _ _ (reject_if-ok _ _ (sign-nonempty laws c.key t s e2)) (
          >>=-ok _ _ (ok_or-ok _ _ refl) (
            >>=-ok _ _
              (>>=-ok _ _ (ok_or-ok _ _ refl) (
                >>=-ok _ _ (ok_or-ok _ _ refl) (
                  >>=-ok _ _ (ok_or-ok _ _ refl) (
                    >>=-ok _ _
                      (ap (λ x. principal_at x.cert.principal_genesis "session.principal_genesis")
                          same
                        ∙ principal_at-to_pb genesis _ is_key)
                      (>>=-ok _ _ (ok_or-ok _ _ stands.known) (
                        >>=-ok _ _ (reject_if-ok _ _ (ap not stands.self_rooted)) (
                          >>=-ok _ _ (reject_if-ok _ _ stands.not_frozen) (
                            >>=-ok _ _
                              (reject_if-ok _ _
                                (not_ne_of_eq c.cert.mode 0 (ap (λ x. x.cert.mode) same)))
                              (>>=-ok _ _
                                (delegate_device-device_current laws root genesis device issued na d
                                  e r (time_of when) is_key delegated stands.id stands.not_human
                                  stands.current stands.root_not_revoked stands.device_not_revoked
                                  nonzero d_early d_late)
                                (>>=-ok _ _
                                  (mint_session-check_cert laws device.signing_key_pair
                                    genesis.genesis start end key c (time_of when) minted early
                                    late)
                                  refl))))))))))
              (>>=-ok _ _
                (check_message_under_session-signed laws
                  (message_to_sign c (some d) audience nonce sent reply ty body) key t s when e1
                  (ap (λ x. sign x.key t) (sym same) ∙ e2) skew)
                refl))))
