-- ===== src/Error.antt =====
-- src/error.rs: the error type, and results. `panic` is the outcome of an `expect` that fails.
pub mod Restricts
use identity_crypto.Prelude.{ℕ, String, Bool, true, false, Option, none, some, ◌≡◌, refl, ap, ◌∙◌}
use identity_crypto.Prelude.Int.{ℤ}
use identity_crypto.KeyTypes.{PrincipalId}

pub data Error : Type 0 where
  unsupported_scheme : ℤ → Error
  invalid_key : String → Error
  non_canonical_principal : Error
  malformed_principal : String → Error
  malformed_short_id : String → Error
  bad_length : String → ℕ → ℕ → Error
  scalar_out_of_range : String → ℤ → Error
  missing_field : String → Error
  invalid_field : String → String → Error
  not_distinct : String → Error
  empty_signature bad_signature wrong_document_type not_authority stale_root : Error
  root_fork : PrincipalId → Error
  kind_changed : PrincipalId → Error
  rotation_cycle not_current_root : Error
  invalid_registry : String → String → Error
  unknown_principal wrong_kind frozen host_frozen : Error
  chain_mismatch : String → Error
  key_revoked : Error
  expired : String → Error
  not_yet_valid : String → Error
  not_bound not_vouched wrong_audience skew digest_mismatch : Error
  peer_revocation_disabled stale_peer_revocation : Error

pub data Result {ℓ} (T : Type ℓ) : Type ℓ where
  panic : Result T
  err : Error → Result T
  ok : T → Result T

-- `if c { return Err(e) }`
unfoldable pub reject_if : Bool → Error → Result (Unit {0})
reject_if true e = err e
reject_if false e = ok tt

-- `Option::ok_or`, `Result::map_err` with a constant error, and `Option::expect`.
unfoldable pub ok_or {ℓ} : {A : Type ℓ} → Option A → Error → Result A
ok_or none e = err e
ok_or (some a) e = ok a

unfoldable pub map_err {ℓ} : {A : Type ℓ} → Result A → Error → Result A
map_err (ok a) e = ok a
map_err (err x) e = err e
map_err panic e = panic

unfoldable pub expect {ℓ} : {A : Type ℓ} → Option A → Result A
expect none = panic
expect (some a) = ok a

infixl 5 ◌>>=◌ ◌>>◌
-- To open this is to open the ways to raise an error too.
unfoldable pub ◌>>=◌ {ℓ κ} : {T : Type ℓ} {U : Type κ} → Result T → (T → Result U) → Result U
unfolding reject_if ok_or map_err expect
panic >>= rest = panic
err x >>= rest = err x
ok t >>= rest = rest t

abbrev pub ◌>>◌ {ℓ κ} : {T : Type ℓ} {U : Type κ} → Result T → Result U → Result U
first >> second = first >>= λ _. second

-- Where a `?` lets the computation go on, it had a value.
pub >>=-eq-ok {ℓ κ} :
    {T : Type ℓ} {U : Type κ} (first : Result T) (rest : T → Result U) {out : U}
    → (first >>= rest) ≡ ok out
    → (t : T) × (first ≡ ok t) × (rest t ≡ ok out)
unfolding ◌>>=◌
>>=-eq-ok panic rest h = cc
>>=-eq-ok (err x) rest h = cc
>>=-eq-ok (ok t) rest h = (t, refl, h)

-- The same as an elimination, for a long run of steps.
pub >>=-elim {ℓ κ η} :
    {A : Type ℓ} {B : Type κ} {C : Type η} (m : Result A) (f : A → Result B) {b : B}
    → (m >>= f) ≡ ok b
    → ((a : A) → m ≡ ok a → f a ≡ ok b → C)
    → C
unfolding ◌>>=◌
>>=-elim (ok a) f h k = k a refl h
>>=-elim (err e) f h k = cc
>>=-elim panic f h k = cc

pub ok-injective {ℓ} : {A : Type ℓ} {a b : A} → ok a ≡ ok b → a ≡ b
ok-injective h = cc

-- The way forward: a step that succeeds, and what follows it.
pub >>=-ok {ℓ κ} :
    {T : Type ℓ} {U : Type κ} (first : Result T) (rest : T → Result U) {t : T} {out : Result U}
    → first ≡ ok t
    → rest t ≡ out
    → (first >>= rest) ≡ out
unfolding ◌>>=◌
>>=-ok (ok x) rest h k = ap rest (ok-injective h) ∙ k
>>=-ok (err x) rest h k = cc
>>=-ok panic rest h k = cc

pub reject_if-ok : (c : Bool) (e : Error) → c ≡ false → reject_if c e ≡ ok tt
unfolding reject_if
reject_if-ok true e h = cc
reject_if-ok false e h = refl

pub ok_or-ok {ℓ} : {T : Type ℓ} (o : Option T) (e : Error) {t : T} → o ≡ some t → ok_or o e ≡ ok t
unfolding ok_or
ok_or-ok none e h = cc
ok_or-ok (some x) e h = cc

pub reject_if-eq-ok : (c : Bool) (e : Error) {u : Unit {0}} → reject_if c e ≡ ok u → c ≡ false
unfolding reject_if
reject_if-eq-ok true e h = cc
reject_if-eq-ok false e h = refl

pub ok_or-eq-ok {ℓ} :
    {A : Type ℓ} (o : Option A) (e : Error) {a : A} → ok_or o e ≡ ok a → o ≡ some a
unfolding ok_or
ok_or-eq-ok none e h = cc
ok_or-eq-ok (some x) e h = cc

pub map_err-eq-ok {ℓ} :
    {A : Type ℓ} (m : Result A) (e : Error) {a : A} → map_err m e ≡ ok a → m ≡ ok a
unfolding map_err
map_err-eq-ok (ok x) e h = h
map_err-eq-ok (err x) e h = cc
map_err-eq-ok panic e h = cc

pub expect-eq-ok {ℓ} : {A : Type ℓ} (o : Option A) {a : A} → expect o ≡ ok a → o ≡ some a
unfolding expect
expect-eq-ok none h = cc
expect-eq-ok (some x) h = cc
