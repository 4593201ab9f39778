-- ===== src/Resolver/Peer.antt =====
-- Peer revocations of src/resolver.rs, and the freezes and revocations that they add.
use identity_crypto.Prelude.{
  ◌≡◌, refl, Bool, true, false, ◌&&◌, ◌||◌, Option, none, some, List, [], ◌∷◌, ◌++◌, any, arith,
  ◌==◌, list_eq, nat_eq, list_beq_iff,
}
use identity_crypto.Prelude.Int.{ℤ, ◌≤ℤ◌, leb_ℤ}
use identity_crypto.KeyTypes.{
  PublicKey, PrincipalId, principal_eq, key_eq, principal_beq_iff, key_beq_iff,
}
use identity_crypto.Error.{ok, ◌>>=◌}
use identity_crypto.Registry.Types.{VerifiedEntry, current_signing}
use identity_crypto.Resolver.{
  Resolver, VerifiedPeerRevocation, with_peer_revocation, entry, is_frozen, is_revoked, freezes,
  revokes,
}

any-append {ℓ} :
    {A : Type ℓ} (f : A → Bool) (xs ys : List A) → any f (xs ++ ys) ≡ (any f xs || any f ys)
any-append f [] ys = refl
any-append f (x ∷ xs) ys = ground (arith, any-append f xs ys)

abbrev pub with_peer : Resolver → VerifiedPeerRevocation → Resolver
with_peer r rev = record r { peer = r.peer ++ (rev ∷ []) }

pub with_peer_revocation-eq-ok :
    (r r' : Resolver) (rev : VerifiedPeerRevocation)
    → with_peer_revocation r rev ≡ ok r'
    → (r' ≡ with_peer r rev) × (rev.document_id ≡ r.document_id)
unfolding with_peer_revocation ◌>>=◌
with_peer_revocation-eq-ok r r' rev h = ground (arith, list_beq_iff rev.document_id r.document_id)

module _ (r : Resolver) (rev : VerifiedPeerRevocation) (id : PrincipalId) (at : ℤ) where
  pub frozen-with_peer : is_frozen (with_peer r rev) id at ≡ false → is_frozen r id at ≡ false
  unfolding is_frozen
  frozen-with_peer = go (entry r id)
    where
      go :
          (o : Option VerifiedEntry)
          → (elim o [
            | none ↦ false
            | some e ↦ e.frozen || any (freezes id (current_signing e) at) (r.peer ++ (rev ∷ []))
          ])
            ≡ false
          → (elim o [
            | none ↦ false
            | some e ↦ e.frozen || any (freezes id (current_signing e) at) r.peer
          ])
            ≡ false
      go none h = refl
      go (some e) h =
          ground (arith, any-append (freezes id (current_signing e) at) r.peer (rev ∷ []))

  pub revoked-with_peer :
      (key : PublicKey)
      → is_revoked (with_peer r rev) id key at ≡ false
      → is_revoked r id key at ≡ false
  unfolding is_revoked
  revoked-with_peer key = go (entry r id)
    where
      own : VerifiedEntry → Bool
      own e = any (λ (x : PublicKey × ℤ). x.0 == key && leb_ℤ x.1 at) e.revocations

      go :
          (o : Option VerifiedEntry)
          → (elim o [
            | none ↦ false
            | some e ↦ own e || any (revokes id key at) (r.peer ++ (rev ∷ []))
          ])
            ≡ false
          → (elim o [ none ↦ false | some e ↦ own e || any (revokes id key at) r.peer ]) ≡ false
      go none h = refl
      go (some e) h = ground (arith, any-append (revokes id key at) r.peer (rev ∷ []))

  -- A revocation without a key freezes its target from the time of its acceptance.
  pub with_peer-freezes :
      (e : VerifiedEntry)
      → entry r id ≡ some e
      → rev.target ≡ id
      → rev.revoked ≡ none
      → rev.accepted_at ≤ℤ at
      → is_frozen (with_peer r rev) id at ≡ true
  unfolding is_frozen
  with_peer-freezes e he ht hr ha =
      rw (he, is_frozen)
        (ground (
          arith,
          any-append (freezes id (current_signing e) at) r.peer (rev ∷ []),
          principal_beq_iff rev.target id,
        ))

  -- A revocation of a key revokes it for its target from the time of its acceptance.
  pub with_peer-revokes :
      (e : VerifiedEntry) (k : PublicKey)
      → entry r id ≡ some e
      → rev.target ≡ id
      → rev.revoked ≡ some k
      → rev.accepted_at ≤ℤ at
      → is_revoked (with_peer r rev) id k at ≡ true
  unfolding is_revoked
  with_peer-revokes e k he ht hr ha =
      rw (he, is_revoked)
        (ground (
          arith,
          any-append (revokes id k at) r.peer (rev ∷ []),
          principal_beq_iff rev.target id,
          key_beq_iff k k,
        ))
