-- ===== src/Keyfile/Outcome.antt =====
-- `?` over `Result<T, KeyfileError>`, and the conversions of the crate's errors.
use identity_crypto.Prelude.{◌≡◌, refl, ap, ◌∙◌, Bool, true, false, Option, none, some}
use identity_crypto.Error.{Error, Result}
use identity_crypto.Error
use identity_crypto.Keyfile.Disk.{
  KeyfileError, crypto, verify_failed, VerifyCheck, Outcome, panic, err, ok,
}

unfoldable pub reject_if : Bool → KeyfileError → Outcome (Unit {0})
reject_if true e = err e
reject_if false e = ok tt

unfoldable pub ok_or {ℓ} : {A : Type ℓ} → Option A → KeyfileError → Outcome A
ok_or none e = err e
ok_or (some a) e = ok a

-- `impl From<identity_crypto::Error> for KeyfileError`
unfoldable pub crypto_result {ℓ} : {A : Type ℓ} → Result A → Outcome A
crypto_result Error.panic = panic
crypto_result (Error.err e) = err (crypto e)
crypto_result (Error.ok a) = ok a

-- `.map_err(|_| KeyfileError::VerifyFailed(check))`
unfoldable pub or_verify_failed {ℓ} : {A : Type ℓ} → Result A → VerifyCheck → Outcome A
or_verify_failed Error.panic check = panic
or_verify_failed (Error.err e) check = err (verify_failed check)
or_verify_failed (Error.ok a) check = ok a

-- The same over a `KeyfileError`.
unfoldable pub to_verify_failed {ℓ} : {A : Type ℓ} → Outcome A → VerifyCheck → Outcome A
to_verify_failed panic check = panic
to_verify_failed (err e) check = err (verify_failed check)
to_verify_failed (ok a) check = ok a

infixl 5 ◌>>=◌ ◌>>◌
unfoldable pub ◌>>=◌ {ℓ κ} : {T : Type ℓ} {U : Type κ} → Outcome T → (T → Outcome U) → Outcome U
unfolding reject_if ok_or crypto_result or_verify_failed to_verify_failed
panic >>= rest = panic
err e >>= rest = err e
ok t >>= rest = rest t

abbrev pub ◌>>◌ {ℓ κ} : {T : Type ℓ} {U : Type κ} → Outcome T → Outcome U → Outcome U
first >> second = first >>= λ _. second

pub ok-injective {ℓ} : {A : Type ℓ} {a b : A} → ok a ≡ ok b → a ≡ b
ok-injective h = cc

-- A run that gives a value, taken apart.
pub >>=-elim {ℓ κ η} :
    {A : Type ℓ} {B : Type κ} {C : Type η} (first : Outcome A) (rest : A → Outcome B) {b : B}
    → (first >>= rest) ≡ ok b
    → ((a : A) → first ≡ ok a → rest a ≡ ok b → C)
    → C
unfolding ◌>>=◌
>>=-elim (ok a) rest h k = k a refl h
>>=-elim (err e) rest h k = cc
>>=-elim panic rest h k = cc

-- A step that succeeds, and what follows it.
pub >>=-ok {ℓ κ} :
    {T : Type ℓ} {U : Type κ} (first : Outcome T) (rest : T → Outcome U) {t : T} {out : Outcome U}
    → first ≡ ok t
    → rest t ≡ out
    → (first >>= rest) ≡ out
unfolding ◌>>=◌
>>=-ok (ok x) rest h k = ap rest (ok-injective h) ∙ k
>>=-ok (err x) rest h k = cc
>>=-ok panic rest h k = cc

pub reject_if-ok : (c : Bool) (e : KeyfileError) → c ≡ false → reject_if c e ≡ ok tt
unfolding reject_if
reject_if-ok true e h = cc
reject_if-ok false e h = refl

pub reject_if-eq-ok :
    (c : Bool) (e : KeyfileError) {u : Unit {0}} → reject_if c e ≡ ok u → c ≡ false
unfolding reject_if
reject_if-eq-ok true e h = cc
reject_if-eq-ok false e h = refl

module _ {ℓ} {A : Type ℓ} where
  pub ok_or-eq-ok : (o : Option A) (e : KeyfileError) {a : A} → ok_or o e ≡ ok a → o ≡ some a
  unfolding ok_or
  ok_or-eq-ok none e h = cc
  ok_or-eq-ok (some x) e h = cc

  pub ok_or-ok : (o : Option A) (e : KeyfileError) {a : A} → o ≡ some a → ok_or o e ≡ ok a
  unfolding ok_or
  ok_or-ok none e h = cc
  ok_or-ok (some x) e h = cc

  pub crypto_result-eq-ok : (r : Result A) {a : A} → crypto_result r ≡ ok a → r ≡ Error.ok a
  unfolding crypto_result
  crypto_result-eq-ok Error.panic h = cc
  crypto_result-eq-ok (Error.err e) h = cc
  crypto_result-eq-ok (Error.ok x) h = cc

  pub crypto_result-ok : (r : Result A) {a : A} → r ≡ Error.ok a → crypto_result r ≡ ok a
  unfolding crypto_result
  crypto_result-ok Error.panic h = cc
  crypto_result-ok (Error.err e) h = cc
  crypto_result-ok (Error.ok x) h = cc

  pub or_verify_failed-eq-ok :
      (r : Result A) (c : VerifyCheck) {a : A} → or_verify_failed r c ≡ ok a → r ≡ Error.ok a
  unfolding or_verify_failed
  or_verify_failed-eq-ok Error.panic c h = cc
  or_verify_failed-eq-ok (Error.err e) c h = cc
  or_verify_failed-eq-ok (Error.ok x) c h = cc

  pub or_verify_failed-ok :
      (r : Result A) (c : VerifyCheck) {a : A} → r ≡ Error.ok a → or_verify_failed r c ≡ ok a
  unfolding or_verify_failed
  or_verify_failed-ok Error.panic c h = cc
  or_verify_failed-ok (Error.err e) c h = cc
  or_verify_failed-ok (Error.ok x) c h = cc
