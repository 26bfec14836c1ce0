-- ===== src/Agent/Fence/Tools/Refused.antt =====
-- What a run of the writing tools behind the fence and the scope leaves alone.
use driver_os.Base.{
  ◌≡◌, ◌≢◌, ◌⊎◌, Bool, true, false, List, [], ◌∷◌, Option, none, some, Text, text_eq,
}
use driver_os.Agent.Fence.{matches_fence, matches_scope, fence_rel_path}
use driver_os.Agent.Fence.Tools.{Tool, first_word, guarded_tool}

module _ {ℓ} {W : Type ℓ} (quoted : Text → Text) (read : Text → W → Option Text) (alias : Text)
    (allowed_new : Text → W → Bool) (tool : Tool W) (scope fence : List Text) where
  -- A call of the tool changes no path but the one that its argument names.
  abbrev pub IsConfined : Type ℓ
  IsConfined =
      (arg : Text) (w : W) (q : Text)
      → text_eq q (fence_rel_path alias (first_word arg)) ≡ false
      → read q (tool arg w).1 ≡ read q w

  -- A reproduction that the fence lets through is a file that is not there.
  abbrev pub IsNew : Type ℓ
  IsNew = (p : Text) (w : W) → allowed_new p w ≡ true → read (fence_rel_path alias p) w ≡ none

  -- A path that the fence or the scope protects in this world: a fenced file that is there, or a path
  -- that a scope leaves out.
  abbrev pub IsProtected : Text → W → Type 0
  IsProtected q w =
      ((d : Text) × (matches_fence fence q ≡ true) × (read q w ≡ some d))
      ⊎ ((scope ≢ []) × (matches_scope scope q ≡ false))

  abbrev pub guarded : Tool W
  guarded = guarded_tool quoted scope fence alias allowed_new tool

  -- The world behind these calls, one after the other.
  abbrev pub after_calls : List Text → W → W
  after_calls [] w = w
  after_calls (arg ∷ args) w = after_calls args (guarded arg w).1
