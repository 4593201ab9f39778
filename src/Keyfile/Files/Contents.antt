-- ===== src/Keyfile/Files/Contents.antt =====
-- The contents of the files of identity-keyfile/src/files.rs: what the writers leave, and what the
-- readers make of it.
use identity_crypto.Prelude.{◌≡◌, refl, sym, ap, Option, none, some, List, [], ◌∷◌, arith}
use identity_crypto.Primitives.{Bytes, Str, Primitives, HexLaws, IsBytes}
use identity_crypto.KeyTypes.{PrincipalId}
use identity_crypto.PublicKey.{IsKey}
use identity_crypto.Principal.{to_string}
use identity_crypto.Principal.RoundTrip.{parse_canonical-to_string}
use identity_crypto.Jwk.{KeyDuo}
use identity_crypto.Keyfile.Text.Ascii.{from_utf8-is_utf8, from_utf8-to_string, trim-to_string}
use identity_crypto.Keyfile.Disk.{
  File, agent_id_file, KeyfileError, ok, content, World, Fate, Stage, replaced,
}
use identity_crypto.Keyfile.Outcome.{>>=-ok, ok_or-ok}
use identity_crypto.Keyfile.Op.{Op, After, follow}
use identity_crypto.Keyfile.Files.{
  Json, JsonLaws, DuoCodec, DuoLaws, read_bytes, parse_file, read_optional, or_parse, read_duo,
  read_principal_id, write_with, write_next, write_private, write_text,
}

-- The file holds the text of a value.
pub record Holds (w : World) (f : File) (text : Option Str) : Type 0 where
  pub bytes : Str
  pub printed : text ≡ some bytes
  pub there : w.files f ≡ content bytes

read_bytes-content :
    (w : World) (f : File) {b : Bytes} → w.files f ≡ content b → read_bytes w f ≡ ok b
unfolding read_bytes
read_bytes-content w f h = ground arith

pub read_duo-Holds :
    {K : Type 0} ⦃c : DuoCodec K⦄ (laws : DuoLaws c) (w : World) (f : File) (d : KeyDuo K)
    → Holds w f (c.export_key_duo_jwk d)
    → read_duo w f ≡ ok d
unfolding read_duo
read_duo-Holds laws w f d h = >>=-ok _ _ (read_bytes-content w f h.there) (
    >>=-ok _ _ (ok_or-ok _ _ (from_utf8-is_utf8 h.bytes (laws.utf8 d h.bytes h.printed)))
      (ok_or-ok _ _ (laws.reads_back d h.bytes h.printed)))

module _ {T : Type 0} (json : Json T) (laws : JsonLaws json) (w : World) (f : File) (t : T)
    (h : Holds w f (json.to_string_pretty t)) where
  pub parse_file-Holds : parse_file json w f ≡ ok t
  unfolding parse_file
  parse_file-Holds =
      >>=-ok _ _ (read_bytes-content w f h.there)
        (ok_or-ok _ _ (laws.reads_back t h.bytes h.printed))

  pub read_optional-Holds : (default : T) → read_optional json default w f ≡ ok t
  unfolding read_optional
  read_optional-Holds default = let e = h.there in let r = parse_file-Holds in ground arith

pub read_principal_id-Holds :
    ⦃p : Primitives⦄ (laws : HexLaws p) (w : World) (id : PrincipalId)
    → IsKey id.genesis
    → IsBytes id.genesis.bytes
    → w.files agent_id_file ≡ content (to_string id)
    → read_principal_id w ≡ ok id
unfolding read_principal_id or_parse
read_principal_id-Holds laws w id key bytes h = >>=-ok _ _ (read_bytes-content w agent_id_file h) (
    >>=-ok _ _ (ok_or-ok _ _ (from_utf8-to_string laws id key bytes))
      (rw (trim-to_string laws id key bytes, parse_canonical-to_string id laws key bytes) refl))

module _ {ℓ} {U : Type 0} {C : Type ℓ} (rest : Unit {0} → Op U) (f : File) (b : Bytes) {u : U}
    {v : World} where
  write_next-follow :
      (queue : List Fate) (w : World)
      → follow rest (write_next queue f b w) ≡ (ok u, v)
      → ((fates : List Fate) → rest tt (replaced f b (record w { fates = fates })) ≡ (ok u, v) → C)
      → C
  unfolding write_next write_with
  write_next-follow [] w h k = k w.fates h
  write_next-follow (Fate.done ∷ fates) w h k = k fates h
  write_next-follow (Fate.fails Stage.create ∷ fates) w h k = cc
  write_next-follow (Fate.fails Stage.set_permissions ∷ fates) w h k = cc
  write_next-follow (Fate.fails Stage.write_all ∷ fates) w h k = cc
  write_next-follow (Fate.fails Stage.sync_all ∷ fates) w h k = cc
  write_next-follow (Fate.fails Stage.rename ∷ fates) w h k = cc
  write_next-follow (Fate.fails Stage.parent_sync ∷ fates) w h k = cc

  -- A write that succeeds has replaced the file, and the run goes on from there.
  pub write_private-follow :
      (w : World)
      → follow rest (write_private f b w) ≡ (ok u, v)
      → ((fates : List Fate) → rest tt (replaced f b (record w { fates = fates })) ≡ (ok u, v) → C)
      → C
  unfolding write_private
  write_private-follow w h k = write_next-follow w.fates w h k

-- The same where nothing follows.
pub write_private-last {ℓ} :
    {C : Type ℓ} (f : File) (b : Bytes) (w : World) {u : Unit {0}} {v : World}
    → write_private f b w ≡ (ok u, v)
    → ((fates : List Fate) → v ≡ replaced f b (record w { fates = fates }) → C)
    → C
write_private-last f b w h k =
    write_private-follow (λ t v. (ok t, v)) f b w (ap (follow (λ t v. (ok t, v))) h)
      λ fates e. k fates (sym (ap (λ r. r.1) e))

-- The same of a value that is printed first.
pub write_text-follow {ℓ} :
    {U : Type 0} {C : Type ℓ} (rest : Unit {0} → Op U) (text : Option Str) (e : KeyfileError)
    (f : File) (w : World) {u : U} {v : World}
    → follow rest (write_text text e f w) ≡ (ok u, v)
    → ((b : Str) (fates : List Fate)
        → text ≡ some b
        → rest tt (replaced f b (record w { fates = fates })) ≡ (ok u, v)
        → C)
    → C
unfolding write_text
write_text-follow rest none e f w h k = cc
write_text-follow rest (some b) e f w h k =
    write_private-follow rest f b w h λ fates h'. k b fates refl h'

module _ (f : File) (holds failed : World → Type 0) (half : (v : World) → holds v → failed v) where
  write_next-After :
      (b : Bytes) (queue : List Fate) (w : World)
      → ((fates : List Fate) → holds (replaced f b (record w { fates = fates })))
      → ((fates : List Fate) → failed (record w { fates = fates }))
      → After (λ (u : Unit {0}) v. holds v) failed (write_next queue f b w)
  unfolding write_next write_with
  write_next-After b [] w written kept = written w.fates
  write_next-After b (Fate.done ∷ fates) w written kept = written fates
  write_next-After b (Fate.fails Stage.create ∷ fates) w written kept = kept fates
  write_next-After b (Fate.fails Stage.set_permissions ∷ fates) w written kept = kept fates
  write_next-After b (Fate.fails Stage.write_all ∷ fates) w written kept = kept fates
  write_next-After b (Fate.fails Stage.sync_all ∷ fates) w written kept = kept fates
  write_next-After b (Fate.fails Stage.rename ∷ fates) w written kept = kept fates
  write_next-After b (Fate.fails Stage.parent_sync ∷ fates) w written kept = half _ (written fates)

  -- Whatever comes of a write: the world that it leaves, with the file replaced or not.
  pub write_private-After :
      (b : Bytes) (w : World)
      → ((fates : List Fate) → holds (replaced f b (record w { fates = fates })))
      → ((fates : List Fate) → failed (record w { fates = fates }))
      → After (λ (u : Unit {0}) v. holds v) failed (write_private f b w)
  unfolding write_private
  write_private-After b w written kept = write_next-After b w.fates w written kept

  -- The same of a value that is printed first.
  pub write_text-After :
      (text : Option Str) (e : KeyfileError) (w : World)
      → ((b : Str) (fates : List Fate)
          → text ≡ some b
          → holds (replaced f b (record w { fates = fates })))
      → ((fates : List Fate) → failed (record w { fates = fates }))
      → After (λ (u : Unit {0}) v. holds v) failed (write_text text e f w)
  unfolding write_text
  write_text-After none e w written kept = kept w.fates
  write_text-After (some b) e w written kept =
      write_private-After b w (λ fates. written b fates refl) kept

module _ {U : Type 0} (rest : Unit {0} → Op U) (f : File) (holds : U → World → Type 0)
    (failed : World → Type 0) where
  write_next-then :
      (b : Bytes) (queue : List Fate) (w : World)
      → ((fates : List Fate) → failed (record w { fates = fates }))
      → ((fates : List Fate) → failed (replaced f b (record w { fates = fates })))
      → ((fates : List Fate)
          → After holds failed (rest tt (replaced f b (record w { fates = fates }))))
      → After holds failed (follow rest (write_next queue f b w))
  unfolding write_next write_with
  write_next-then b [] w kept half next = next w.fates
  write_next-then b (Fate.done ∷ fates) w kept half next = next fates
  write_next-then b (Fate.fails Stage.create ∷ fates) w kept half next = kept fates
  write_next-then b (Fate.fails Stage.set_permissions ∷ fates) w kept half next = kept fates
  write_next-then b (Fate.fails Stage.write_all ∷ fates) w kept half next = kept fates
  write_next-then b (Fate.fails Stage.sync_all ∷ fates) w kept half next = kept fates
  write_next-then b (Fate.fails Stage.rename ∷ fates) w kept half next = kept fates
  write_next-then b (Fate.fails Stage.parent_sync ∷ fates) w kept half next = half fates

  -- The same of a printed value that a run goes on from.
  pub write_text-then :
      (text : Option Str) (e : KeyfileError) (w : World)
      → ((fates : List Fate) → failed (record w { fates = fates }))
      → ((b : Str) (fates : List Fate)
          → text ≡ some b
          → failed (replaced f b (record w { fates = fates })))
      → ((b : Str) (fates : List Fate)
          → text ≡ some b
          → After holds failed (rest tt (replaced f b (record w { fates = fates }))))
      → After holds failed (follow rest (write_text text e f w))
  unfolding write_text write_private
  write_text-then none e w kept half next = kept w.fates
  write_text-then (some b) e w kept half next =
      write_next-then b w.fates w kept (λ fates. half b fates refl) (λ fates. next b fates refl)
