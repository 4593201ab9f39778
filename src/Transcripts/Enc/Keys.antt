-- ===== src/Transcripts/Enc/Keys.antt =====
-- What `req` and `opt_key` of src/transcripts.rs tell of the wire keys that they accept.
use identity_crypto.Prelude.{◌≡◌, ap, Option, none, some, String}
use identity_crypto.Primitives.{Primitives}
use identity_crypto.KeyTypes.{PublicKey}
use identity_crypto.PublicKey.{to_pb, IsKey, try_from-eq-ok, try_from-to_pb}
use identity_crypto.Error.{ok, ok_or, ◌>>=◌, >>=-eq-ok, ok_or-eq-ok, ok-injective}
use identity_crypto.Pb
use identity_crypto.Transcripts.Enc.{req, opt_try}

abbrev pub opt_pb : Option PublicKey → Option Pb.PublicKey
opt_pb none = none
opt_pb (some k) = some (to_pb k)

module _ ⦃p : Primitives⦄ where
  pub req-eq-ok :
      (w : Option Pb.PublicKey) (field : String) (k : PublicKey)
      → req w field ≡ ok k
      → IsKey k × (w ≡ some (to_pb k))
  unfolding req
  req-eq-ok w field k h =
      let (v, e, h') = >>=-eq-ok _ _ h in
      let (a, b) = try_from-eq-ok v k h' in (a, cc (ok_or-eq-ok w _ e, b))

  -- The wire form of a validated key converts back.
  pub req-to_pb : (k : PublicKey) (field : String) → IsKey k → req (some (to_pb k)) field ≡ ok k
  unfolding req ok_or ◌>>=◌
  req-to_pb k field v = try_from-to_pb k v

  pub opt_try-eq-ok :
      (w : Option Pb.PublicKey) (k : Option PublicKey) → opt_try w ≡ ok k → w ≡ opt_pb k
  unfolding opt_try
  opt_try-eq-ok none k h = rw (← (ok-injective h))
  opt_try-eq-ok (some v) k h =
      let (a, e, h') = >>=-eq-ok _ _ h in
      rw (← (ok-injective h')) (ap some (try_from-eq-ok v a e).1)
