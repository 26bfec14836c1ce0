-- ===== src/Agent/Fence/Tools.antt =====
-- agent/fence.go: what the writing tools refuse, on the text protocol. The JSON protocol tests the same
-- with the path that it parses.
pub mod Refused
use driver_os.Base.{
  ℕ, ◌+◌, Bool, true, false, not, ◌&&◌, ◌||◌, List, [], ◌∷◌, ◌++◌, Option, none, some, Text, codes,
  drop, length, ◌==◌, if◌then◌else◌, is_empty, text_eq, has_prefix, has_code, contains, trim_space,
  before, sort_texts, clean_path, base_name, path_match,
}
use driver_os.Agent.Fence.{matches_fence, matches_scope, fence_rel_path, comma_texts}

-- The result of a tool: an observation, or the text of an error.
pub data ToolResult : Type 0 where
  observed : Text → ToolResult
  failed : Text → ToolResult

abbrev pub Tool {ℓ} : Type ℓ → Type ℓ
Tool W = Text → W → ToolResult × W

-- The first word of an argument, up to a space or a tab.
unfoldable pub first_word : Text → Text
first_word [] = []
first_word (c ∷ s) = if c == b' ' || c == 9 then [] else c ∷ first_word s

module _ (quoted : Text → Text) where
  unfoldable pub fence_refusal : Text → List Text → Text
  fence_refusal p globs =
      codes "refused: "
      ++ quoted p
      ++ codes " matches the test fence ("
      ++ comma_texts (codes ",") globs
      ++ codes
          ") — test files are read-only for this task; make the NON-test code satisfy them instead of changing the tests"

  unfoldable pub scope_refusal : Text → List Text → Text
  scope_refusal p globs =
      codes "refused: "
      ++ quoted p
      ++ codes " is outside the diff scope (allowed: "
      ++ comma_texts (codes ",") globs
      ++ codes
          ") — only edit files declared in this task's scope; choose an in-scope path or explain why the scope must be changed"

module _ {ℓ} {W : Type ℓ} (quoted : Text → Text) where
  -- applyTestFence on the text protocol of a writing tool. `allowed_new` is allowReproNew.
  unfoldable pub fenced_tool : List Text → Text → (Text → W → Bool) → Tool W → Tool W
  unfolding fence_refusal first_word
  fenced_tool [] alias allowed_new tool arg w = tool arg w
  fenced_tool (g ∷ gs) alias allowed_new tool arg w =
      let p = first_word arg in
      if matches_fence (g ∷ gs) (fence_rel_path alias p) && not (allowed_new p w)
      then (failed (fence_refusal quoted p (g ∷ gs)), w)
      else tool arg w

  -- applyDiffScope on it.
  unfoldable pub scoped_tool : List Text → Text → Tool W → Tool W
  unfolding scope_refusal first_word
  scoped_tool [] alias tool arg w = tool arg w
  scoped_tool (g ∷ gs) alias tool arg w =
      let p = first_word arg in
      if not (matches_scope (g ∷ gs) (fence_rel_path alias p))
      then (failed (scope_refusal quoted p (g ∷ gs)), w)
      else tool arg w

  -- A writing tool behind both: the scope is applied first, and the fence around it.
  unfoldable pub guarded_tool : List Text → List Text → Text → (Text → W → Bool) → Tool W → Tool W
  unfolding fenced_tool scoped_tool
  guarded_tool scope fence alias allowed_new tool =
      fenced_tool fence alias allowed_new (scoped_tool scope alias tool)
