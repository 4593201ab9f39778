-- ===== src/Transcripts/Fronts.antt =====
-- What the parts that the transcripts of src/transcripts.rs are written in do to the front of a buffer.
use identity_crypto.Prelude.{nat_eq, list_eq, ℕ, Option, none, some, List, [], ◌∷◌, String}
use identity_crypto.Primitives.{Bytes, Str, Primitives}
use identity_crypto.KeyTypes.{PublicKey, PrincipalId}
use identity_crypto.Pb
use identity_crypto.Transcripts.Tags.{key_delegation_tag}
use identity_crypto.Transcripts.Enc
use identity_crypto.Transcripts.Enc.{Enc}
use identity_crypto.Transcripts.Enc.Appends.{
  Appends, Appends-bind, Appends-try, Appends-done, Appends-var, Appends-u8, Appends-fixed,
  Appends-key, Appends-absent, Appends-present, Appends-i64, Appends-opt_key,
}
use identity_crypto.Transcripts.Keys.{write_key_delegation}
use identity_crypto.Transcripts.Messages.{opt_var, opt_fixed, write_cert_body, encode_cert_body}
use identity_crypto.Transcripts.Requests.{
  opt_host, opt_resource, encode_devices, encode_message, encode_messages,
}

pub Appends-opt_var : (e : Enc) (x : Option Bytes) → Appends e (opt_var e x)
unfolding opt_var
Appends-opt_var e none = Appends-absent e
Appends-opt_var e (some x) = Appends-present e (Appends-var _ x)

pub Appends-opt_fixed :
    (e : Enc) (field : String) (x : Option Bytes) (n : ℕ) → Appends e (opt_fixed e field x n)
unfolding opt_fixed
Appends-opt_fixed e field none n = Appends-absent e
Appends-opt_fixed e field (some x) n = Appends-present e (Appends-fixed _ field x n)

pub Appends-opt_host : (e : Enc) (x : Option PrincipalId) → Appends e (opt_host e x)
unfolding opt_host
Appends-opt_host e none = Appends-absent e
Appends-opt_host e (some x) = Appends-present e (Appends-key _ x.genesis)

pub Appends-opt_resource : (e : Enc) (x : Option (Str × Str)) → Appends e (opt_resource e x)
unfolding opt_resource
Appends-opt_resource e none = Appends-absent e
Appends-opt_resource e (some (kind, id)) =
    Appends-present e (Appends-bind (Appends-var _ kind) λ b. Appends-var b id)

module _ ⦃p : Primitives⦄ where
  pub Appends-cert : (e : Enc) (c : Pb.DelegationCert) → Appends e (encode_cert_body e c)
  unfolding encode_cert_body write_cert_body
  Appends-cert e c = Appends-try _ λ _. Appends-try _ λ _. Appends-try _ λ parts. Appends-try _ λ _.
      Appends-try _ λ _. Appends-try _ λ _. Appends-bind (Appends-u8 e _ _) λ b1.
        Appends-bind (Appends-key b1 _) λ b2. Appends-bind (Appends-opt_key b2 parts.0) λ b3.
          Appends-bind (Appends-opt_var b3 parts.1) λ b4. Appends-bind (Appends-key b4 _) λ b5.
            Appends-bind (Appends-key b5 _)
              λ b6. Appends-i64 b6 _ (Appends-i64 _ _ (Appends-done _))

  pub Appends-devices : (e : Enc) (ws : List Pb.PublicKey) → Appends e (encode_devices e ws)
  unfolding encode_devices
  Appends-devices e [] = Appends-done e
  Appends-devices e (w ∷ ws) =
      Appends-try _ λ k. Appends-bind (Appends-key e k) λ b. Appends-devices b ws

  pub Appends-message : (e : Enc) (m : Pb.AttestedMessage) → Appends e (encode_message e m)
  unfolding encode_message
  Appends-message e m = Appends-bind (Appends-var e _) λ b1. Appends-bind (Appends-var b1 _) λ b2.
      Appends-try _ λ author. Appends-try _ λ cert. Appends-bind (Appends-key b2 author) λ b3.
        Appends-bind (Appends-var b3 _)
          λ b4. Appends-bind (Appends-cert b4 cert) λ b5. Appends-var b5 _

  pub Appends-messages : (e : Enc) (ms : List Pb.AttestedMessage) → Appends e (encode_messages e ms)
  unfolding encode_messages
  Appends-messages e [] = Appends-done e
  Appends-messages e (m ∷ ms) = Appends-bind (Appends-message e m) λ b. Appends-messages b ms

  pub Appends-delegation :
      (a r g : PublicKey) (x : Option PublicKey) (d : Pb.KeyDelegation)
      → Appends (Enc.new key_delegation_tag) (write_key_delegation a r g x d)
  unfolding write_key_delegation
  Appends-delegation a r g x d = Appends-bind (Appends-key _ a) λ b1.
      Appends-bind (Appends-key b1 r) λ b2. Appends-bind (Appends-u8 b2 _ _) λ b3.
        Appends-bind (Appends-key b3 g) λ b4.
          Appends-bind (Appends-opt_key b4 x)
            λ b5. Appends-i64 b5 _ (Appends-i64 _ _ (Appends-done _))
