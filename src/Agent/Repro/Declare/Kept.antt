-- ===== src/Agent/Repro/Declare/Kept.antt =====
-- A declaration leaves the tree as it found it, unless its last restore failed.
use driver_os.Base.{◌≡◌, true, false, some, Text}
use driver_os.Agent.Repro.{Workspace}
use driver_os.Agent.Repro.Declare.{Stage}

-- What git documents: behind a restore that says that it succeeded, the tree is the one restored.
abbrev pub Restores {ℓ} : {W : Type ℓ} → Workspace W → Type ℓ
Restores {W} space =
    (t : Text) (w : W)
    → (space.restore_tree t w).0 ≡ true
    → space.write_tree (space.restore_tree t w).1 ≡ some t

-- The worlds behind which the deferred restore is left to do: the base tree was not restored, the copy
-- failed, or a restore of the current tree was tried already and failed.
pub data Undone {ℓ} {W : Type ℓ} (space : Workspace W) (cur base : Text) (w : W) : W → Type ℓ where
  not_based :
      (space.restore_tree base w).0 ≡ false → Undone space cur base w (space.restore_tree base w).1
  not_made :
      (rel : Text) (v : W)
      → (space.make_dir rel v).0 ≡ false
      → Undone space cur base w (space.make_dir rel v).1
  not_written :
      (rel d : Text) (v : W)
      → (space.write rel d v).0 ≡ false
      → Undone space cur base w (space.write rel d v).1
  tried :
      (v : W)
      → (space.restore_tree cur v).0 ≡ false
      → Undone space cur base w (space.restore_tree cur v).1

-- The tree is the current one, or the deferred restore was made where it was left to do, as the last
-- act, and said that it failed.
pub data IsBack {ℓ} {W : Type ℓ} (space : Workspace W) (cur base : Text) (w : W) : W → Type ℓ where
  back : (v : W) → space.write_tree v ≡ some cur → IsBack space cur base w v
  not_back :
      (v : W)
      → Undone space cur base w v
      → (space.restore_tree cur v).0 ≡ false
      → IsBack space cur base w (space.restore_tree cur v).1

module _ {ℓ} {W : Type ℓ} (space : Workspace W) (cur base : Text) (w₀ : W) where
  -- Disarmed only where the tree is the current one, and armed only where it is left to do.
  abbrev IsKept : Stage space → Type ℓ
  IsKept s =
      (s.restored ≡ true → space.write_tree s.world ≡ some cur)
      × (s.restored ≡ false → Undone space cur base w₀ s.world)
