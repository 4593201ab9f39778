-- ===== src/Accepted/History.antt =====
-- `check_successor` of src/accepted.rs over any number of versions.
use identity_crypto.Prelude.{
  ◌≡◌, refl, sym, ap, ◌∙◌, Bool, true, false, not, ◌&&◌, inl, inr, Option, none, some, List, [],
  ◌∷◌, ◌++◌, arith, ◌==◌, ◌!=◌, list_eq, if◌then◌else◌, Bool-cases, Extends, eq_of,
}
use identity_crypto.KeyTypes.{PublicKey, PrincipalId, key_eq, principal_eq}
use identity_crypto.Kind.{kind_eq, kind_beq_iff}
use mathlib.Core.List.{append-nil, append_assoc}
use identity_crypto.Authority.Chains.{prefix_of-Extends}
use identity_crypto.Error.{ok-injective, ok, >>=-eq-ok, reject_if-eq-ok}
use identity_crypto.Authority.{prefix_of}
use identity_crypto.Map.{get, insert, values, get-insert}
use identity_crypto.Registry.Types.{VerifiedEntry, is_self_rooted}
use identity_crypto.Resolver.{Resolver}
use identity_crypto.Accepted.{
  Accepted, AcceptedChains, recorded, extend_entry, accept_entry, accept_entries, check_successor,
}

-- The principal keeps its kind, and its chain is the old one with more behind it.
pub record Continues (a b : Accepted) : Type 0 where
  pub kind : a.kind ≡ b.kind
  pub roots : Extends a.roots b.roots

-- Every principal of `x` is in `y`, continued.
pub record Grows (x y : AcceptedChains) : Type 0 where
  pub at :
      (id : PrincipalId) (a : Accepted)
      → get id x ≡ some a
      → (b : Accepted) × (get id y ≡ some b) × Continues a b

Continues-refl : (a : Accepted) → Continues a a
Continues-refl a = record { kind = refl; roots = ([], sym (append-nil a.roots)) }

Continues-trans : {a b c : Accepted} → Continues a b → Continues b c → Continues a c
Continues-trans {a} {b} {c} x y = record {
  kind = x.kind ∙ y.kind;
  roots = (
    x.roots.0 ++ y.roots.0,
    y.roots.1
        ∙ ap (λ (r : List PublicKey). r ++ y.roots.0) x.roots.1
        ∙ append_assoc a.roots x.roots.0 y.roots.0,
  );
}

pub Grows-refl : (x : AcceptedChains) → Grows x x
Grows-refl x = record { at = λ id a h. (a, h, Continues-refl a) }

pub Grows-trans : {x y z : AcceptedChains} → Grows x y → Grows y z → Grows x z
Grows-trans f g = record {
  at = λ id a h.
      let (b, hb, ab) = f.at id a h in
      let (c, hc, bc) = g.at id b hb in (c, hc, Continues-trans ab bc);
}

-- An insert grows the set if it continues what stood there.
insert-Grows :
    (k : PrincipalId) (v : Accepted) (x : AcceptedChains)
    → ((a : Accepted) → get k x ≡ some a → Continues a v)
    → Grows x (insert k v x)
insert-Grows k v x keep = record {
  at = λ id a h. elim (Bool-cases (k == id)) [
    | inl same ↦ (v, rw (get-insert, same) refl, keep a (rw (eq_of k id same) h))
    | inr other ↦ (a, rw (get-insert, other) h, Continues-refl a)
  ];
}

-- The two ways in which a round ends.
Grows-if : (b : Bool) (x z : AcceptedChains) → (b ≡ true → Grows x z) → Grows x (if b then z else x)
Grows-if true x z h = h refl
Grows-if false x z h = Grows-refl x

extended-Continues :
    (e : VerifiedEntry) (previous : Accepted)
    → is_self_rooted e ≡ true
    → (previous.kind != e.kind) ≡ false
    → (is_self_rooted e && not (prefix_of previous.roots (recorded e).roots)) ≡ false
    → Continues previous (recorded e)
extended-Continues e previous self same_kind same_roots = record {
  kind = unfold recorded in ground (arith, kind_beq_iff previous.kind e.kind);
  roots = prefix_of-Extends previous.roots (recorded e).roots (ground arith);
}

extend_entry-Grows :
    (x y : AcceptedChains) (e : VerifiedEntry) (previous : Accepted)
    → get e.id x ≡ some previous
    → extend_entry x e previous ≡ ok y
    → Grows x y
unfolding extend_entry
extend_entry-Grows x y e previous found h =
    let (u, e1, h1) = >>=-eq-ok _ _ h in
    let (v, e2, h2) = >>=-eq-ok _ _ h1 in
    let kinds = reject_if-eq-ok _ _ e1 in
    let roots = reject_if-eq-ok _ _ e2 in
    rw (← (ok-injective h2)) (
      Grows-if (is_self_rooted e) x _ λ self. insert-Grows e.id (recorded e) x λ a ha.
        let same : a ≡ previous = cc (found, ha) in
        rw same (extended-Continues e previous self kinds roots))

accept_found-Grows :
    (x y : AcceptedChains) (e : VerifiedEntry) (o : Option Accepted)
    → get e.id x ≡ o
    → (elim o [
      | none ↦ ok (insert e.id (recorded e) x)
      | some previous ↦ extend_entry x e previous
    ])
      ≡ ok y
    → Grows x y
accept_found-Grows x y e none found h =
    rw (← (ok-injective h)) (insert-Grows e.id (recorded e) x λ a ha. absurd (ground arith))
accept_found-Grows x y e (some previous) found h = extend_entry-Grows x y e previous found h

accept_entry-Grows :
    (authority : PrincipalId) (x y : AcceptedChains) (e : VerifiedEntry)
    → accept_entry authority x e ≡ ok y
    → Grows x y
unfolding accept_entry
accept_entry-Grows authority x y e h = elim (Bool-cases (e.id == authority)) [
  | inl same ↦ rw (← (ok-injective (rw same at h))) (Grows-refl x)
  | inr other ↦ accept_found-Grows x y e (get e.id x) refl (rw other at h)
]

accept_entries-Grows :
    (authority : PrincipalId) (x y : AcceptedChains) (es : List VerifiedEntry)
    → accept_entries authority x es ≡ ok y
    → Grows x y
unfolding accept_entries
accept_entries-Grows authority x y [] h = rw (← (ok-injective h)) (Grows-refl x)
accept_entries-Grows authority x y (e ∷ es) h =
    let (z, h1, h2) = >>=-eq-ok _ _ h in
    Grows-trans (accept_entry-Grows authority x z e h1) (accept_entries-Grows authority z y es h2)

-- If a version is accepted against `x`, every principal of `x` is in the returned set with the same
-- kind, and its root chain there begins with the chain that `x` holds.
pub check_successor-Grows :
    (r : Resolver) (x y : AcceptedChains) → check_successor r x ≡ ok y → Grows x y
unfolding check_successor
check_successor-Grows r x y h = accept_entries-Grows r.authority x y (values r.entries) h

-- The sets that a receiver holds, version after version; each version may leave entries out.
pub data History (x : AcceptedChains) : AcceptedChains → Type 0 where
  start : History x x
  version :
      {y z : AcceptedChains} (r : Resolver) → History x y → check_successor r y ≡ ok z → History x z

-- Over any number of accepted versions, whatever entries they leave out and bring back, no
-- principal's kind changes and no root chain is forked or shortened.
pub History-Grows : {x y : AcceptedChains} → History x y → Grows x y
History-Grows {x} start = Grows-refl x
History-Grows (version r past step) =
    Grows-trans (History-Grows past) (check_successor-Grows r _ _ step)
