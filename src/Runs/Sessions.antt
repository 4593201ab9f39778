-- ===== src/Runs/Sessions.antt =====
-- The builders of src/session.rs and src/keys.rs on concrete keys.
use identity_crypto.Prelude.{ℕ, Bool, ◌≡◌, ◌≢◌, refl, none, some, [], ◌∷◌, arith}
use identity_crypto.Prelude.Int.{pos, saturating_add, saturating_sub, abs_diff, ◌-ℤ◌}
use identity_crypto.Kind.{PrincipalKind}
use identity_crypto.Error.{ok, reject_if, ◌>>=◌}
use identity_crypto.Principal.{ascii}
use identity_crypto.PublicKey.{p256, try_from, or_invalid_key}
use identity_crypto.Transcripts.Enc
use identity_crypto.Transcripts.Enc.{req, opt_try, non_empty}
use identity_crypto.Transcripts.Keys.{key_delegation_transcript, signing_purpose, encryption_half}
use identity_crypto.Transcripts.Messages.{
  session_delegation_transcript, encode_cert_body, host_and_subject, opt_var,
  signed_message_transcript, opt_fixed, chain_cert,
}
use identity_crypto.Registry.Types.{VerifiedEntry}
use identity_crypto.Resolver.{Resolver, entry, is_frozen, is_revoked}
use identity_crypto.Map.{get}
use identity_crypto.Session.{SessionCredential, sign, mint_session, sign_message}
use identity_crypto.Session.Accepted.{sign_message-verify_signed_message_trusted_devices}
use identity_crypto.Session.Delegated.{Stands, sign_message-verify_signed_message}
use identity_crypto.Keys.{delegate_device, device_delegation, sign_key_delegation}
use identity_crypto.Keys.Accepted.{delegate_device-device_current}
use identity_crypto.Verify.Time.{When, check_skew, check_session_span, check_unlisted_span}
use identity_crypto.Verify.Chain.{host_of, device_current}
use identity_crypto.Verify.Message.Timely.{Timely, verify_signed_message-Timely}
use identity_crypto.Verify.Message.{
  VerifiedMessage, verify_signed_message, verify_signed_message_trusted_devices,
}
use identity_crypto.Runs.{
  toy, key, alice, alice_entry, device, cert, message, room, resolver, copies,
}
use identity_crypto.Runs.Keyfiles.{toy_jwk, toy-JwkLaws, key-IsKey, duo}

abbrev session : SessionCredential ℕ
session = record { cert = cert; key = 4 }

abbrev daemon_entry : VerifiedEntry
daemon_entry = record alice_entry { kind = PrincipalKind.daemon; bindings = [] }

abbrev daemons : Resolver
daemons = record resolver { entries = (alice, daemon_entry) ∷ [] }

minted : mint_session 3 (key 1) (pos 1000) (pos 5000) 4 ≡ ok session
unfolding mint_session check_session_span session_delegation_transcript sign ◌-ℤ◌ ◌>>=◌
    encode_cert_body req try_from p256 or_invalid_key host_and_subject Enc.u8 Enc.key Enc.var
    Enc.opt_key opt_var
minted = refl

delegated : delegate_device (duo 1 2) alice (duo 3 5) (pos 100) (pos 9000) ≡ ok device
unfolding delegate_device check_unlisted_span device_delegation sign_key_delegation sign
    key_delegation_transcript ◌>>=◌ req try_from p256 or_invalid_key signing_purpose encryption_half
    opt_try Enc.key Enc.u8 Enc.var Enc.opt_key
delegated = refl

signed :
    sign_message session
      (some device)
      room
      (copies 16 7)
      (pos 2000)
      none
      (ascii "text")
      (ascii "hi")
    ≡ ok message
unfolding sign_message signed_message_transcript sign ◌>>=◌ chain_cert req try_from p256
    or_invalid_key non_empty Enc.key Enc.u8 Enc.var Enc.fixed opt_fixed
signed = refl

sign_message-verify_signed_message_trusted_devices_example :
    verify_signed_message_trusted_devices message room
      (record { author_genesis = key 1; devices = key 2 ∷ key 3 ∷ [] })
      (When.live (pos 2010))
    ≡ ok (record {
      author_genesis = key 1;
      device = key 3;
      session_key = key 4;
      session_not_after = pos 5000;
      nonce = copies 16 7;
      issued_at = pos 2000;
      in_reply_to_nonce = none;
      body_type = ascii "text";
      body = ascii "hi";
    })
unfolding saturating_sub check_skew abs_diff reject_if
sign_message-verify_signed_message_trusted_devices_example =
    sign_message-verify_signed_message_trusted_devices toy-JwkLaws 3 (key 1) (pos 1000) (pos 5000) 4
      session (some device) room (copies 16 7) (pos 2000) none (ascii "text") (ascii "hi") message
      (key 2 ∷ key 3 ∷ []) (When.live (pos 2010)) (key-IsKey 1) minted signed refl (ground arith)
      (ground arith) refl

not_human : PrincipalKind.daemon ≢ PrincipalKind.human
not_human h = cc

known : entry daemons alice ≡ some daemon_entry
unfolding entry get
known = refl

not_frozen : is_frozen daemons alice (pos 2010) ≡ Bool.false
unfolding is_frozen get
not_frozen = refl

root_not_revoked : is_revoked daemons alice (key 1) (pos 2010) ≡ Bool.false
unfolding is_revoked get
root_not_revoked = refl

device_not_revoked : is_revoked daemons alice (key 3) (pos 2010) ≡ Bool.false
unfolding is_revoked get
device_not_revoked = refl

stands : Stands daemons daemon_entry alice (key 1) (key 3) (pos 2010)
stands = record {
  known = known;
  id = refl;
  not_human = not_human;
  self_rooted = refl;
  current = refl;
  not_frozen = not_frozen;
  root_not_revoked = root_not_revoked;
  device_not_revoked = device_not_revoked;
}

later : pos 9000 ≢ pos 0
later h = cc

delegate_device-device_current_example :
    device_current device daemon_entry daemons (pos 2010) ≡ ok (key 3)
unfolding saturating_add
delegate_device-device_current_example =
    delegate_device-device_current toy-JwkLaws (duo 1 2) alice (duo 3 5) (pos 100) (pos 9000) device
      daemon_entry daemons (pos 2010) (key-IsKey 1) delegated refl not_human refl root_not_revoked
      device_not_revoked later (ground arith) (ground arith)

sign_message-verify_signed_message_example :
    verify_signed_message message room daemons (When.live (pos 2010))
    ≡ ok (record {
      chain = record {
        principal = alice;
        kind = PrincipalKind.daemon;
        host = host_of daemons daemon_entry alice (key 3);
        subject = none;
        device = key 3;
        session_key = key 4;
        session_not_after = pos 5000;
      };
      nonce = copies 16 7;
      issued_at = pos 2000;
      in_reply_to_nonce = none;
      body_type = ascii "text";
      body = ascii "hi";
    })
unfolding saturating_sub saturating_add check_skew abs_diff reject_if
sign_message-verify_signed_message_example =
    sign_message-verify_signed_message toy-JwkLaws (duo 1 2) alice (duo 3 5) (pos 100) (pos 9000)
      device (pos 1000) (pos 5000) 4 session room (copies 16 7) (pos 2000) none (ascii "text")
      (ascii "hi") message daemons daemon_entry (When.live (pos 2010)) (key-IsKey 1) stands
      delegated minted signed later (ground arith) (ground arith) (ground arith) (ground arith) refl

-- What the daemon's message comes to.
abbrev daemon_verified : VerifiedMessage
daemon_verified = record {
  chain = record {
    principal = alice;
    kind = PrincipalKind.daemon;
    host = host_of daemons daemon_entry alice (key 3);
    subject = none;
    device = key 3;
    session_key = key 4;
    session_not_after = pos 5000;
  };
  nonce = copies 16 7;
  issued_at = pos 2000;
  in_reply_to_nonce = none;
  body_type = ascii "text";
  body = ascii "hi";
}

daemon_is_accepted :
    verify_signed_message message room daemons (When.live (pos 2010)) ≡ ok daemon_verified
unfolding saturating_sub saturating_add check_skew abs_diff reject_if
daemon_is_accepted =
    sign_message-verify_signed_message toy-JwkLaws (duo 1 2) alice (duo 3 5) (pos 100) (pos 9000)
      device (pos 1000) (pos 5000) 4 session room (copies 16 7) (pos 2000) none (ascii "text")
      (ascii "hi") message daemons daemon_entry (When.live (pos 2010)) (key-IsKey 1) stands
      delegated minted signed later (ground arith) (ground arith) (ground arith) (ground arith) refl

verify_signed_message-Timely_example : Timely message (pos 2010) daemon_verified
verify_signed_message-Timely_example =
    verify_signed_message-Timely message room daemons (pos 2010) daemon_verified (omega arith)
      (omega arith) daemon_is_accepted
