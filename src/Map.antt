-- ===== src/Map.antt =====
-- `BTreeMap<PrincipalId, V>` as a list of pairs in the order of its keys: by scheme, then by bytes.
use identity_crypto.Prelude.{
  ◌≡◌, refl, Bool, true, false, Option, none, some, List, [], ◌∷◌, arith, ltb, ◌==◌, nat_eq,
  if◌then◌else◌,
}
use identity_crypto.Primitives.{Bytes}
use identity_crypto.KeyTypes.{PrincipalId, scheme_number, principal_eq, principal_beq_iff}

-- The order of byte strings.
lt_bytes : Bytes → Bytes → Bool
lt_bytes [] [] = false
lt_bytes [] (y ∷ ys) = true
lt_bytes (x ∷ xs) [] = false
lt_bytes (x ∷ xs) (y ∷ ys) = let rest = lt_bytes xs ys in if x == y then rest else ltb x y

lt_id : PrincipalId → PrincipalId → Bool
unfolding lt_bytes
lt_id a b =
    if scheme_number a.genesis.scheme == scheme_number b.genesis.scheme
    then lt_bytes a.genesis.bytes b.genesis.bytes
    else ltb (scheme_number a.genesis.scheme) (scheme_number b.genesis.scheme)

abbrev pub Map {ℓ} : Type ℓ → Type ℓ
Map V = List (PrincipalId × V)

module _ {ℓ} {V : Type ℓ} where
  -- `BTreeMap::get`
  unfoldable pub get : PrincipalId → Map V → Option V
  get k [] = none
  get k ((j, v) ∷ m) = if j == k then some v else get k m

  -- `BTreeMap::insert`
  unfoldable pub insert : PrincipalId → V → Map V → Map V
  unfolding lt_id
  insert k v [] = (k, v) ∷ []
  insert k v ((j, w) ∷ m) =
      if j == k
      then (k, v) ∷ m
      else if lt_id k j
      then (k, v) ∷ (j, w) ∷ m
      else (j, w) ∷ insert k v m

  -- `BTreeMap::values`
  unfoldable pub values : Map V → List V
  values [] = []
  values ((k, v) ∷ m) = v ∷ values m

  pub get-insert :
      (k j : PrincipalId) (v : V) (m : Map V)
      → get j (insert k v m) ≡ (if k == j then some v else get j m)
  unfolding get insert
  get-insert k j v [] = refl
  get-insert k j v ((i, w) ∷ m) = ground (
    arith,
    principal_beq_iff k j,
    principal_beq_iff i k,
    principal_beq_iff i j,
    get-insert k j v m,
  )

pub get-empty {ℓ} : {V : Type ℓ} (k : PrincipalId) → get {V = V} k [] ≡ none
unfolding get
get-empty k = refl
