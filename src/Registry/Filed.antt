-- ===== src/Registry/Filed.antt =====
-- The entries that `check_registry` (src/registry.rs) files, and the entry of the authority.
use identity_crypto.Prelude.{
  ◌≡◌, refl, sym, ap, ◌∙◌, Bool, true, false, ◌||◌, inl, inr, Option, none, some, List, [], ◌∷◌,
  arith, ◌==◌, Bool-cases, eq_of, eq_self, negated,
}
use identity_crypto.Primitives.{Str, Primitives}
use identity_crypto.KeyTypes.{PrincipalId, principal_eq}
use identity_crypto.Kind.{PrincipalKind, kind_eq, kind_beq_iff}
use identity_crypto.Error.{ok, ◌>>=◌, >>=-elim, reject_if-eq-ok, ok-injective}
use identity_crypto.Pb
use identity_crypto.Map.{Map, get, insert, get-insert, get-empty}
use identity_crypto.Authority.{AuthorityChain, VerifiedDocument, chain_principal}
use identity_crypto.Registry.{check_registry}
use identity_crypto.Registry.Types.{VerifiedEntry, Parsed, CheckedRegistry}
use identity_crypto.Registry.Checks
use identity_crypto.Registry.Entry.{Check, authority_rules, check_known, check_entry, check_entries}
use identity_crypto.Resolver.{Prost, Resolver, entry, from_document}

-- Each entry is filed under its id, and an entry of the authority is human and not frozen.
pub record Filed (authority : PrincipalId) (entries : Map VerifiedEntry) : Type 0 where
  pub own_id : (id : PrincipalId) (e : VerifiedEntry) → get id entries ≡ some e → e.id ≡ id
  pub human :
      (e : VerifiedEntry)
      → get authority entries ≡ some e
      → (e.kind ≡ PrincipalKind.human) × (e.frozen ≡ false)

-- The authority has an entry, if it was seen.
Seen : PrincipalId → Check → Type 0
Seen authority st =
    st.authority_seen ≡ true → (e : VerifiedEntry) × (get authority st.entries ≡ some e)

empty-Filed : (authority : PrincipalId) → Filed authority []
empty-Filed authority = record {
  own_id = λ id e h. cc (get-empty {V = VerifiedEntry} id, h);
  human = λ e h. cc (get-empty {V = VerifiedEntry} authority, h);
}

get-insert_same :
    (k : PrincipalId) (v : VerifiedEntry) (m : Map VerifiedEntry) → get k (insert k v m) ≡ some v
get-insert_same k v m = rw (get-insert, eq_self k) refl

insert-Filed :
    (authority : PrincipalId) (m : Map VerifiedEntry) (v : VerifiedEntry)
    → Filed authority m
    → (v.id ≡ authority → (v.kind ≡ PrincipalKind.human) × (v.frozen ≡ false))
    → Filed authority (insert v.id v m)
insert-Filed authority m v filed allowed = record {
  own_id = λ id e h. elim (Bool-cases (v.id == id)) [
    | inl same ↦
        let is_v : v ≡ e = found_new id e same h in
        ap (λ (x : VerifiedEntry). x.id) (sym is_v) ∙ eq_of v.id id same
    | inr other ↦ filed.own_id id e (rw (get-insert, other) at h)
  ];
  human = λ e h. elim (Bool-cases (v.id == authority)) [
    | inl same ↦
        let is_v : v ≡ e = found_new authority e same h in
        rw (← is_v) (allowed (eq_of v.id authority same))
    | inr other ↦ filed.human e (rw (get-insert, other) at h)
  ];
}
  where
    found_new :
        (id : PrincipalId) (e : VerifiedEntry)
        → (v.id == id) ≡ true
        → get id (insert v.id v m) ≡ some e
        → v ≡ e
    found_new id e same h = ground (arith, rw (get-insert, same) at h)

insert-Seen :
    (authority id : PrincipalId) (v : VerifiedEntry) (m : Map VerifiedEntry) (b : Bool)
    → (b ≡ true → (e : VerifiedEntry) × (get authority m ≡ some e))
    → (b || id == authority) ≡ true
    → (e : VerifiedEntry) × (get authority (insert id v m) ≡ some e)
insert-Seen authority id v m b seen h = elim (Bool-cases (id == authority)) [
  | inl same ↦ (v, rw (get-insert, same) refl)
  | inr other ↦ let (old, found) = seen (ground arith) in (old, rw (get-insert, other) found)
]

authority_rules-eq-ok :
    (authority id : PrincipalId) (kind : PrincipalKind) (e : Pb.RegistryEntry) {u : Unit {0}}
    → authority_rules (id == authority) kind e ≡ ok u
    → id ≡ authority
    → (kind ≡ PrincipalKind.human) × (e.frozen ≡ false)
unfolding authority_rules
authority_rules-eq-ok authority id kind e h same = >>=-elim _ _ h λ _ e1 h1.
    let is_authority : (id == authority) ≡ true = rw same (eq_self authority) in
    let other_kind = reject_if-eq-ok _ _ e1 in
    let frozen = reject_if-eq-ok _ _ h1 in
    (ground (arith, kind_beq_iff kind PrincipalKind.human), ground arith)

-- What a check of the registry keeps.
record Kept (authority : PrincipalId) (st : Check) : Type 0 where
  pub filed : Filed authority st.entries
  pub seen : Seen authority st

module _ ⦃p : Primitives⦄ where
  check_known-Kept :
      (authority : PrincipalId) (chain : AuthorityChain) (daemons : List PrincipalId)
      (st st' : Check) (e : Pb.RegistryEntry) (id : PrincipalId) (kind : PrincipalKind)
      → check_known authority chain daemons st e id kind ≡ ok st'
      → Kept authority st
      → Kept authority st'
  unfolding check_known Seen
  check_known-Kept authority chain daemons st st' e id kind h kept = >>=-elim _ _ h λ _ e1 h1.
      >>=-elim _ _ h1 λ _ e2 h2. >>=-elim _ _ h2 λ r e3 h3. >>=-elim _ _ h3 λ b e4 h4.
        >>=-elim _ _ h4 λ revocations e5 h5. >>=-elim _ _ h5 λ hosts e6 h6.
          rw (← (ok-injective h6)) (record {
            filed =
                insert-Filed authority st.entries _ kept.filed
                  (authority_rules-eq-ok authority id kind e e1);
            seen = λ s. insert-Seen authority id _ st.entries st.authority_seen kept.seen s;
          })

  check_entry-Kept :
      (authority : PrincipalId) (chain : AuthorityChain) (daemons : List PrincipalId)
      (st st' : Check) (x : Parsed)
      → check_entry authority chain daemons st x ≡ ok st'
      → Kept authority st
      → Kept authority st'
  unfolding check_entry Seen
  check_entry-Kept authority chain daemons st st' x h kept = go x.kind h
    where
      go :
          (k : Option PrincipalKind)
          → (elim k [
            | none ↦ (do keys ← Checks.add st.keys x.id.genesis; ok (record st { keys = keys }))
            | some kind ↦ check_known authority chain daemons st x.entry x.id kind
          ])
            ≡ ok st'
          → Kept authority st'
      go none h =
          >>=-elim _ _ h
            λ keys e1 h1. rw (← (ok-injective h1)) (record { filed = kept.filed; seen = kept.seen })
      go (some kind) h = check_known-Kept authority chain daemons st st' x.entry x.id kind h kept

  check_entries-Kept :
      (authority : PrincipalId) (chain : AuthorityChain) (daemons : List PrincipalId)
      (st st' : Check) (xs : List Parsed)
      → check_entries authority chain daemons st xs ≡ ok st'
      → Kept authority st
      → Kept authority st'
  unfolding check_entries
  check_entries-Kept authority chain daemons st st' [] h kept = rw (← (ok-injective h)) kept
  check_entries-Kept authority chain daemons st st' (x ∷ xs) h kept = >>=-elim _ _ h λ next e1 h1.
      check_entries-Kept authority chain daemons next st' xs h1
        (check_entry-Kept authority chain daemons st next x e1 kept)

  check_registry-Filed :
      (reg : Pb.PrincipalRegistry) (chain : AuthorityChain) (c : CheckedRegistry)
      (authority : PrincipalId)
      → chain_principal chain ≡ ok authority
      → check_registry reg chain ≡ ok c
      → Filed authority c.entries × ((e : VerifiedEntry) × (get authority c.entries ≡ some e))
  unfolding check_registry Seen
  check_registry-Filed reg chain c authority ha h = >>=-elim _ _ h λ id e1 h1.
      >>=-elim _ _ h1 λ parsed e2 h2. >>=-elim _ _ h2 λ _ e3 h3. >>=-elim _ _ h3 λ st e4 h4.
        >>=-elim _ _ h4 λ _ e5 h5.
          let same : id ≡ authority = ok-injective (sym e1 ∙ ha) in
          let kept =
            check_entries-Kept id chain _ _ st parsed e4
              (record { filed = empty-Filed id; seen = λ s. cc }) in
          let result : Filed id c.entries × ((e : VerifiedEntry) × (get id c.entries ≡ some e)) =
            rw (← (ok-injective h5)) (kept.filed, kept.seen (negated _ (reject_if-eq-ok _ _ e5))) in
          rw (← same) result

  -- A resolver that `from_document` builds files each entry under its id and has an entry for the
  -- document's authority, which is a human and not frozen.
  pub from_document-Filed :
      ⦃w : Prost⦄ (doc : VerifiedDocument) (type : Str) (r : Resolver)
      → from_document doc type ≡ ok r
      → Filed r.authority r.entries
        × ((e : VerifiedEntry) × (entry r r.authority ≡ some e)
            × (e.kind ≡ PrincipalKind.human)
            × (e.frozen ≡ false))
  unfolding from_document
  from_document-Filed doc type r h = >>=-elim _ _ h λ _ e1 h1. >>=-elim _ _ h1 λ registry e2 h2.
      >>=-elim _ _ h2 λ checked e3 h3. >>=-elim _ _ h3 λ authority e4 h4.
        let (filed, (e, found)) = check_registry-Filed registry doc.chain checked authority e4 e3 in
        let (kind, unfrozen) = filed.human e found in
        rw (← (ok-injective h4)) (filed, (e, found, kind, unfrozen))
