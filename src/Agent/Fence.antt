-- ===== src/Agent/Fence.antt =====
-- agent/fence.go: which paths the globs of the fence match and those of the scope admit.
pub mod Admitted
pub mod Snapshots
pub mod Tools
mod Tests
use driver_os.Base.{
  ℕ, ◌+◌, Bool, true, false, not, ◌&&◌, ◌||◌, List, [], ◌∷◌, ◌++◌, Option, none, some, Text, codes,
  drop, length, ◌==◌, if◌then◌else◌, is_empty, text_eq, has_prefix, has_code, contains, trim_space,
  before, sort_texts, clean_path, base_name, path_match,
}

-- strings.CutSuffix(g, "/**"): the text in front, where the suffix is there.
unfoldable pub cut_globstar : Text → Option Text
unfolding text_eq
cut_globstar [] = none
cut_globstar (c ∷ s) =
    let rest = cut_globstar s in
    if text_eq (c ∷ s) (codes "/**")
    then some []
    else elim rest [ none ↦ none | some d ↦ some (c ∷ d) ]

-- One glob of the fence, once trimmed and not empty, against a path and its cut suffix.
unfoldable pub fences : Text → Text → Option Text → Bool
fences g p (some dir) =
    has_prefix p (dir ++ codes "/") || contains p (codes "/" ++ dir ++ codes "/")
fences g p none = if not (has_code b'/' g) then path_match g (base_name p) else path_match g p

unfoldable pub any_fences : List Text → Text → Bool
unfolding fences cut_globstar
any_fences [] p = false
any_fences (g ∷ gs) p =
    let h = trim_space g in
    (if is_empty h then false else fences h p (cut_globstar h)) || any_fences gs p

-- path.Clean leaves no "./" in front, so that TrimPrefix changes nothing.
unfoldable pub matches_fence : List Text → Text → Bool
unfolding any_fences
matches_fence globs rel = any_fences globs (clean_path rel)

-- One glob of the scope.
unfoldable pub admits : Text → Text → Option Text → Bool
admits g p (some dir) = has_prefix p (dir ++ codes "/")
admits g p none =
    if not (has_code b'/' g) then not (has_code b'/' p) && path_match g p else path_match g p

unfoldable pub any_admits : List Text → Text → Bool
unfolding admits cut_globstar
any_admits [] p = false
any_admits (g ∷ gs) p =
    let h = trim_space g in
    (if is_empty h then false else admits h p (cut_globstar h)) || any_admits gs p

unfoldable pub matches_scope : List Text → Text → Bool
unfolding any_admits
matches_scope globs rel = any_admits globs (clean_path rel)

-- fenceRelPath: the alias of the workspace root is taken off.
unfoldable pub without_alias : Text → Text → Text
without_alias alias p =
    if is_empty alias
    then p
    else if text_eq p alias
    then codes "."
    else if has_prefix p (alias ++ codes "/")
    then drop (length alias + 1) p
    else p

unfoldable pub fence_rel_path : Text → Text → Text
unfolding without_alias
fence_rel_path alias p = clean_path (without_alias alias (trim_space p))

-- strings.Join
abbrev pub comma_texts : Text → List Text → Text
comma_texts sep [] = []
comma_texts sep (p ∷ []) = p
comma_texts sep (p ∷ q ∷ ps) = p ++ sep ++ comma_texts sep (q ∷ ps)
