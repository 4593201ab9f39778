-- ===== src/Runs/Tables.antt =====
-- A table of values as a codec: a value is written as its position.
use identity_crypto.Prelude.{
  ℕ, zero, suc, ◌≡◌, ◌≢◌, refl, sym, ap, ◌∙◌, inl, inr, Option, none, some, List, [], ◌∷◌,
  PartialEq, ◌==◌, eq_of, Bool-cases, if◌then◌else◌,
}
use identity_crypto.Primitives.{Bytes, Str}
use identity_crypto.Keyfile.Files.{Json, JsonLaws}

abbrev next : Option ℕ → Option ℕ
next none = none
next (some n) = some (suc n)

abbrev numbered : Option ℕ → Option Str
numbered none = none
numbered (some n) = some (n ∷ [])

next-suc : (o : Option ℕ) (n : ℕ) → next o ≡ some (suc n) → o ≡ some n
next-suc none n h = cc
next-suc (some m) n h = cc

next-zero : (o : Option ℕ) → next o ≢ some 0
next-zero none h = cc
next-zero (some m) h = cc

numbered-some :
    (o : Option ℕ) (s : Str) → numbered o ≡ some s → (n : ℕ) × (o ≡ some n) × (s ≡ n ∷ [])
numbered-some none s h = cc
numbered-some (some n) s h = (n, refl, cc)

-- A value of a table is written as its position.
module _ {T : Type 0} ⦃e : PartialEq T⦄ where
  abbrev position : List T → T → Option ℕ
  position [] t = none
  position (x ∷ xs) t = let n = next (position xs t) in if x == t then some 0 else n

  abbrev nth : List T → ℕ → Option T
  nth [] n = none
  nth (x ∷ xs) zero = some x
  nth (x ∷ xs) (suc n) = nth xs n

  abbrev at_number : List T → Bytes → Option T
  at_number ts (n ∷ []) = nth ts n
  at_number ts bytes = none

  abbrev pub table_json : List T → Json T
  table_json ts = record {
    to_string_pretty = λ t. numbered (position ts t);
    from_slice = at_number ts;
  }

  nth-position : (ts : List T) (t : T) (n : ℕ) → position ts t ≡ some n → nth ts n ≡ some t
  nth-position [] t n h = cc
  nth-position (x ∷ xs) t zero h = elim (Bool-cases (x == t)) [
    | inl same ↦ ap some (eq_of x t same)
    | inr other ↦ absurd (
        next-zero (position xs t)
          (sym (ap (λ b. if b then some 0 else next (position xs t)) other) ∙ h))
  ]
  nth-position (x ∷ xs) t (suc n) h = elim (Bool-cases (x == t)) [
    | inl same ↦
        absurd (let f = sym (ap (λ b. if b then some 0 else next (position xs t)) same) ∙ h in cc)
    | inr other ↦ nth-position xs t n (
        next-suc (position xs t) n
          (sym (ap (λ b. if b then some 0 else next (position xs t)) other) ∙ h))
  ]

  pub table-JsonLaws : (ts : List T) → JsonLaws (table_json ts)
  table-JsonLaws ts = record {
    reads_back = λ t s h.
        let (n, e, f) = numbered-some (position ts t) s h in
        ap (at_number ts) f ∙ nth-position ts t n e;
  }
