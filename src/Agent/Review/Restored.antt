-- ===== src/Agent/Review/Restored.antt =====
-- What a repro command leaves of the workspace.
use driver_os.Base.{◌≡◌, true, false, some, Text, if◌then◌else◌, trim_space}
use driver_os.Agent.Review.{Claim, Workspace}

module _ {ℓ} {W : Type ℓ} (space : Workspace W) where
  -- What git documents: behind a restore that says that it succeeded, the tree is the one asked for.
  abbrev pub Restores : Type ℓ
  Restores =
      (t : Text) (w : W)
      → (space.restore_tree t w).0 ≡ true
      → space.write_tree (space.restore_tree t w).1 ≡ some t

  -- The fence is repaired where a fenced path changed.
  abbrev pub unfenced : W → W
  unfenced v = if space.drift v then (space.restore_fence v).1 else v

  -- How the world behind a repro that was run from a tree, and left the world `v`, compares with it.
  pub data Behind (pre : Text) (v : W) : W → Type ℓ where
    same : (u : W) → space.write_tree u ≡ some pre → Behind pre v u
    only_fenced :
        space.write_tree v ≡ some pre
        → space.drift v ≡ true
        → Behind pre v (space.restore_fence v).1
    not_restored :
        (space.restore_tree pre (unfenced v)).0 ≡ false
        → Behind pre v (space.restore_tree pre (unfenced v)).1

  -- The world is the one before, or the repro was run from its tree.
  pub data Left (f : Claim) (w : W) : W → Type ℓ where
    alone : Left f w w
    ran :
        (pre : Text) (u : W)
        → space.write_tree w ≡ some pre
        → Behind pre (space.run (trim_space f.repro_cmd) w).1 u
        → Left f w u
