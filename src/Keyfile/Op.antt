-- ===== src/Keyfile/Op.antt =====
-- Operations on the directory: they give an outcome and the world that they leave, also on an error.
use identity_crypto.Prelude.{◌≡◌, refl, ap, ◌∙◌}
use identity_crypto.Keyfile.Disk.{Outcome, panic, err, ok, World}

abbrev pub Op : Type 0 → Type 0
Op T = World → Outcome T × World

module _ {T : Type 0} where
  -- A step that leaves the world as it is.
  abbrev pub lift : Outcome T → Op T
  lift r w = (r, w)

  abbrev pub reading : (World → Outcome T) → Op T
  reading f w = (f w, w)

-- What follows a step.
abbrev pub follow : {T U : Type 0} → (T → Op U) → Outcome T × World → Outcome U × World
follow rest (panic, w) = (panic, w)
follow rest (err e, w) = (err e, w)
follow rest (ok t, w) = rest t w

infixl 5 ◌>>=◌ ◌>>◌
abbrev pub ◌>>=◌ : {T U : Type 0} → Op T → (T → Op U) → Op U
◌>>=◌ m rest w = follow rest (m w)

abbrev pub ◌>>◌ : {T U : Type 0} → Op T → Op U → Op U
first >> second = first >>= λ _. second

-- What holds of a result: of its value and its world, or of its world alone when it has no value.
abbrev pub After :
    {T : Type 0} → (T → World → Type 0) → (World → Type 0) → Outcome T × World → Type 0
After holds failed (ok t, w) = holds t w
After holds failed (err e, w) = failed w
After holds failed (panic, w) = failed w

module _ {T U : Type 0} (rest : T → Op U) (middle : T → World → Type 0) (holds : U → World → Type 0)
    (failed : World → Type 0) where
  -- The rule of a step and what follows it.
  pub After-follow :
      (r : Outcome T × World)
      → After middle failed r
      → ((t : T) (w : World) → middle t w → After holds failed (rest t w))
      → After holds failed (follow rest r)
  After-follow (ok t, w) h next = next t w h
  After-follow (err e, w) h next = h
  After-follow (panic, w) h next = h

-- A run that gives a value, taken apart.
pub follow-elim {ℓ} :
    {T U : Type 0} {C : Type ℓ} (rest : T → Op U) (r : Outcome T × World) {u : U} {v : World}
    → follow rest r ≡ (ok u, v)
    → ((t : T) (w : World) → r ≡ (ok t, w) → rest t w ≡ (ok u, v) → C)
    → C
follow-elim rest (ok t, w) h k = k t w refl h
follow-elim rest (err e, w) h k = cc
follow-elim rest (panic, w) h k = cc

-- A step that gives a value, and what follows it.
pub follow-ok :
    {T U : Type 0} (rest : T → Op U) (r : Outcome T × World) {t : T} {w : World}
    {out : Outcome U × World}
    → r ≡ (ok t, w)
    → rest t w ≡ out
    → follow rest r ≡ out
follow-ok rest r h k = ap (follow rest) h ∙ k

-- The same of a step that leaves the world as it is.
pub read-elim {ℓ} :
    {T U : Type 0} {C : Type ℓ} (rest : T → Op U) (r : Outcome T) (w : World) {u : U} {v : World}
    → follow rest (r, w) ≡ (ok u, v)
    → ((t : T) → r ≡ ok t → rest t w ≡ (ok u, v) → C)
    → C
read-elim rest (ok t) w h k = k t refl h
read-elim rest (err e) w h k = cc
read-elim rest panic w h k = cc

-- Whatever comes of a step that leaves the world as it is: its error, or what follows its value.
pub read-then :
    {T U : Type 0} (rest : T → Op U) (r : Outcome T) (w : World) (holds : U → World → Type 0)
    (failed : World → Type 0)
    → failed w
    → ((t : T) → r ≡ ok t → After holds failed (rest t w))
    → After holds failed (follow rest (r, w))
read-then rest (ok t) w holds failed kept next = next t refl
read-then rest (err e) w holds failed kept next = kept
read-then rest panic w holds failed kept next = kept

-- A weaker claim of the same result.
pub After-mono :
    {T : Type 0} (holds holds' : T → World → Type 0) (failed failed' : World → Type 0)
    (r : Outcome T × World)
    → ((t : T) (w : World) → holds t w → holds' t w)
    → ((w : World) → failed w → failed' w)
    → After holds failed r
    → After holds' failed' r
After-mono holds holds' failed failed' (ok t, w) f g h = f t w h
After-mono holds holds' failed failed' (err e, w) f g h = g w h
After-mono holds holds' failed failed' (panic, w) f g h = g w h

-- The same of a step whose value is known.
pub read-known :
    {T U : Type 0} (rest : T → Op U) (r : Outcome T) (t : T) (w : World)
    (holds : U → World → Type 0) (failed : World → Type 0)
    → r ≡ ok t
    → (Unit {0} → After holds failed (rest t w))
    → After holds failed (follow rest (r, w))
read-known rest r t w holds failed e next = rw e (next tt)
