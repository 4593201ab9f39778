-- ===== src/Keyfile/Store/Refused.antt =====
-- The refusals of identity-keyfile/src/keys.rs, which leave the directory as it is.
use identity_crypto.Prelude.{◌≡◌, ◌⊎◌, inl, inr, ap, true, any, Option, arith, nat_eq}
use identity_crypto.Prelude.Int.{ℤ, pos, ◌≤ℤ◌, ◌<ℤ◌, ◌+ℤ◌, ◌-ℤ◌, i64_min, i64_max, saturating_add}
use identity_crypto.Verify.Time.{check_unlisted_span}
use identity_crypto.Primitives.{Primitives}
use identity_crypto.Error
use identity_crypto.KeyTypes.{PrincipalId}
use identity_crypto.Pb
use identity_crypto.Jwk.{Jwk, KeyDuo}
use identity_crypto.Keys
use identity_crypto.Keys.{delegate_device}
use identity_crypto.Keyfile.Disk
use identity_crypto.Keyfile.Disk.{
  KeyfileError, crypto, insecure_dir, already_initialised, Outcome, panic, ok, err, World, File,
}
use identity_crypto.Keyfile.Outcome.{◌>>=◌, crypto_result, reject_if}
use identity_crypto.Keyfile.Op.{Op, follow, follow-ok, follow-elim, read-elim}
use identity_crypto.Keyfile.Files.{DuoCodec, Jsons, exists, ensure_dir, lock_exclusive}
use identity_crypto.Keyfile.Files.Access.{
  Loose, Private, Loose-insecure, Private-checked, ensure_dir-checked, ensure_dir-insecure,
}
use identity_crypto.Keyfile.Identity.{IdentityKeys}
use identity_crypto.Keyfile.Load.{load_files, load, load_verified, load_device}
use identity_crypto.Keyfile.Store.{
  save, init, renew, next_device, rotate_root, check_uninitialised, agent_files,
}

>>=-err {ℓ κ} :
    {T : Type ℓ} {U : Type κ} (first : Outcome T) (rest : T → Outcome U) {e : KeyfileError}
    → first ≡ err e
    → (first >>= rest) ≡ err e
unfolding ◌>>=◌
>>=-err first rest h = ap (λ o. o >>= rest) h

follow-err :
    {T U : Type 0} (rest : T → Op U) (r : Outcome T × World) {e : KeyfileError} {w : World}
    → r ≡ (err e, w)
    → follow rest r ≡ (err e, w)
follow-err rest r h = ap (follow rest) h

result-err {ℓ κ} :
    {A : Type ℓ} {B : Type κ} (first : Error.Result A) (rest : A → Error.Result B) {e : Error.Error}
    → first ≡ Error.err e
    → Error.◌>>=◌ first rest ≡ Error.err e
unfolding Error.◌>>=◌
result-err first rest h = ap (λ o. Error.◌>>=◌ o rest) h

crypto_result-err {ℓ} :
    {A : Type ℓ} (r : Error.Result A) {e : Error.Error}
    → r ≡ Error.err e
    → crypto_result r ≡ err (crypto e)
unfolding crypto_result
crypto_result-err r h = ap crypto_result h

-- Any file of an agent counts.
agent_files-any : (w : World) (f : File) → exists w f ≡ true → any (exists w) agent_files ≡ true
unfolding exists
agent_files-any w Disk.root_file h = ground arith
agent_files-any w Disk.device_file h = ground arith
agent_files-any w Disk.delegation_file h = ground arith
agent_files-any w Disk.agent_id_file h = ground arith
agent_files-any w Disk.history_file h = ground arith
agent_files-any w Disk.rotations_file h = ground arith

lock-granted : (w : World) → w.lock ≡ Disk.granted → lock_exclusive w ≡ ok tt
unfolding lock_exclusive
lock-granted w h = ground arith

check_uninitialised-err :
    (w : World) (f : File) → exists w f ≡ true → check_uninitialised w ≡ err already_initialised
unfolding check_uninitialised reject_if
check_uninitialised-err w f h = ap (λ b. reject_if b already_initialised) (agent_files-any w f h)

abbrev pub overlong : Error.Error
overlong =
    Error.invalid_field "device.not_after_unix_seconds" "must be within 31 days after issued_at"

overlong_span :
    (now ttl : ℤ)
    → i64_min ≤ℤ now
    → now +ℤ pos 2_678_400 <ℤ i64_max
    → (ttl ≤ℤ pos 0) ⊎ (pos 2_678_400 <ℤ ttl)
    → check_unlisted_span "device.not_after_unix_seconds" now (saturating_add now ttl)
      ≡ Error.err overlong
unfolding check_unlisted_span Error.reject_if saturating_add ◌+ℤ◌ ◌-ℤ◌
overlong_span now ttl lo hi (inl h) = ground arith
overlong_span now ttl lo hi (inr h) = ground arith

module _ {K : Type 0} ⦃j : Jwk K⦄ ⦃c : DuoCodec K⦄ ⦃x : Jsons⦄ ⦃p : Primitives⦄ where
  -- Where one of the six bits that let the group or others read, write or enter the directory is set, or
  -- where it is no directory, `load`, `load_verified`, the loading of the device, `save`, `init`, `renew` and
  -- `rotate_root` all give `insecure_dir` alone, and those that write leave everything as it is.
  pub insecure-refused :
      (w : World) (keys : IdentityKeys K) (one two : KeyDuo K) (replacement : Option (KeyDuo K))
      (now ttl : ℤ)
      → Loose w.dir
      → (load {K = K} w ≡ err insecure_dir)
        × (load_verified {K = K} w ≡ err insecure_dir)
        × (load_device {K = K} w ≡ err insecure_dir)
        × (save keys w ≡ (err insecure_dir, w))
        × (init one two now ttl w ≡ (err insecure_dir, w))
        × (renew now ttl replacement w ≡ (err insecure_dir, w))
        × (rotate_root one now w ≡ (err insecure_dir, w))
  unfolding load load_verified load_device save init renew rotate_root
  insecure-refused w keys one two replacement now ttl loose =
      let h = Loose-insecure w loose in
      let r = ap (λ (o : Outcome (Unit {0})). (o, w)) h in
      let e = ensure_dir-insecure w h in
      (
        >>=-err _ _ h,
        >>=-err _ _ h,
        >>=-err _ _ h,
        follow-err _ _ e,
        follow-err _ _ e,
        follow-err _ _ r,
        follow-err _ _ r,
      )

  -- An `init` that makes an agent has delegated its device.
  init-delegated :
      (before after : World) (root device : KeyDuo K) (now ttl : ℤ) (keys : IdentityKeys K)
      → init root device now ttl before ≡ (ok keys, after)
      → (d : Pb.KeyDelegation) × (crypto_result
            (delegate_device root (Keys.principal_id root) device now (saturating_add now ttl))
          ≡ ok d)
  unfolding init
  init-delegated before after root device now ttl keys h =
      follow-elim _ (ensure_dir before) h λ _ v e1 h1.
        read-elim _
          (crypto_result
            (delegate_device root (Keys.principal_id root) device now (saturating_add now ttl)))
          v h1 λ d e2 h2. (d, e2)

  -- A call of `init` that makes an agent in some directory gives `already_initialised`, and leaves everything
  -- as it is, in every directory that none but its owner may access, that can be locked and where any one
  -- file of an agent is.
  pub init-refused :
      (w before after : World) (f : File) (root device : KeyDuo K) (now ttl : ℤ)
      (keys : IdentityKeys K)
      → init root device now ttl before ≡ (ok keys, after)
      → Private w.dir
      → w.lock ≡ Disk.granted
      → exists w f ≡ true
      → init root device now ttl w ≡ (err already_initialised, w)
  unfolding init
  init-refused w before after f root device now ttl keys makes private free there =
      let (d, delegated) = init-delegated before after root device now ttl keys makes in
      follow-ok _ _ (ensure_dir-checked w (Private-checked w private)) (
        follow-ok _ _ (ap (λ o. (o, w)) delegated) (
          follow-ok _ _ (ap (λ o. (o, w)) (lock-granted w free))
            (follow-err _ _ (ap (λ o. (o, w)) (check_uninitialised-err w f there)))))

  overlong-undelegated :
      (root device : KeyDuo K) (id : PrincipalId) (now ttl : ℤ)
      → i64_min ≤ℤ now
      → now +ℤ pos 2_678_400 <ℤ i64_max
      → (ttl ≤ℤ pos 0) ⊎ (pos 2_678_400 <ℤ ttl)
      → crypto_result (delegate_device root id device now (saturating_add now ttl))
        ≡ err (crypto overlong)
  unfolding delegate_device
  overlong-undelegated root device id now ttl lo hi h =
      crypto_result-err _ (result-err _ _ (overlong_span now ttl lo hi h))

  -- With a lifetime of no seconds or fewer, or of more than 31 days of 86400 seconds, `init` and `renew` give
  -- the error that says so and leave everything as it is: in a directory that none but its owner may access,
  -- that can be locked and that reads as an agent, at a time that is not within 31 days of the largest i64.
  pub overlong-refused :
      (w : World) (keys : IdentityKeys K) (root device : KeyDuo K) (replacement : Option (KeyDuo K))
      (now ttl : ℤ)
      → Private w.dir
      → w.lock ≡ Disk.granted
      → load_files w ≡ ok keys
      → i64_min ≤ℤ now
      → now +ℤ pos 2_678_400 <ℤ i64_max
      → (ttl ≤ℤ pos 0) ⊎ (pos 2_678_400 <ℤ ttl)
      → (init root device now ttl w ≡ (err (crypto overlong), w))
        × (renew now ttl replacement w ≡ (err (crypto overlong), w))
  unfolding init renew
  overlong-refused w keys root device replacement now ttl private free reads lo hi h =
      let checked = Private-checked w private in
      (
        follow-ok _ _ (ensure_dir-checked w checked) (
            follow-err _ _ (ap (λ o. (o, w)) (overlong-undelegated root device _ now ttl lo hi h))),
        follow-ok _ _ (ap (λ o. (o, w)) checked) (
            follow-ok _ _ (ap (λ o. (o, w)) (lock-granted w free)) (
              follow-ok _ _ (ap (λ o. (o, w)) reads) (
                follow-err _ _ (
                  ap (λ o. (o, w))
                    (overlong-undelegated keys.root (next_device keys replacement) _ now ttl lo hi
                      h))))),
      )
