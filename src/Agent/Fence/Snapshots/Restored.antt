-- ===== src/Agent/Fence/Snapshots/Restored.antt =====
-- The repair of a fence puts the snapshot back.
use driver_os.Base.{
  and_then-some, ◌≡◌, arith, Bool, false, ◌||◌, List, [], ◌∷◌, Option, none, some, Text, text_eq,
  text_eq_iff, if◌then◌else◌,
}
use driver_os.Agent.Fence.Snapshots.{FencedFile, Snapshot, find_file, Files, restore_file, restore}

-- A write and a removal do what they say to their path, and nothing to another.
pub record IsLawful {ℓ} {W : Type ℓ} (files : Files W) : Type ℓ where
  pub written :
      (p q text : Text) (w v : W)
      → files.write p text w ≡ some v
      → files.read q v ≡ (if text_eq q p then some text else files.read q w)
  pub removed :
      (p q : Text) (w v : W)
      → files.remove p w ≡ some v
      → files.read q v ≡ (if text_eq q p then none else files.read q w)

abbrev pub one_of_texts : Text → List Text → Bool
one_of_texts q [] = false
one_of_texts q (p ∷ ps) = text_eq q p || one_of_texts q ps

-- What the snapshot has of a path.
abbrev pub content_of : Option FencedFile → Option Text
content_of none = none
content_of (some b) = b.content

module _ {ℓ} {W : Type ℓ} (files : Files W) (laws : IsLawful files) where
  restore_file-read :
      (p q : Text) (b : Option FencedFile) (w v : W)
      → restore_file files p b w ≡ some v
      → files.read q v ≡ (if text_eq q p then content_of b else files.read q w)
  unfolding restore_file
  restore_file-read p q none w v h = laws.removed p q w v h
  restore_file-read p q (some b) w v h =
      let (text, e, k) = and_then-some b.content _ v h in rw (laws.written p q text w v k) (rw e)

  -- A repair that succeeds: each path that it names reads as the snapshot has it, and is gone where the
  -- snapshot has none; every other path reads as before.
  pub restore-read :
      (base : Snapshot) (ps : List Text) (q : Text) (w v : W)
      → restore files base ps w ≡ some v
      → files.read q v
        ≡ (if one_of_texts q ps then content_of (find_file q base) else files.read q w)
  unfolding restore
  restore-read base [] q w v h = ground arith
  restore-read base (p ∷ ps) q w v h =
      let (u, e, k) = and_then-some (restore_file files p (find_file p base) w) _ v h in
      ground (
        arith,
        restore-read base ps q u v k,
        restore_file-read p q (find_file p base) w u e,
        text_eq_iff q p,
      )
