-- ===== src/Agent/Fence/Tests.antt =====
-- Runs of the patterns, the fence, its repair and the writing tools behind it.
use driver_os.Base.{
  ◌≡◌, refl, sym, ap, Bool, true, false, List, [], ◌∷◌, Option, none, some, Text, codes, text_eq,
  if◌then◌else◌, tokens, read_code, read_low, chunks, match_chunks, place, match_chunk, skip_match,
  takes, has_code, path_match, clean_path, clean, clean_parts, clean_step, joined, with_ups, split,
  trim_space, trim_left, is_space, has_prefix,
}
use driver_os.Agent.Fence.{
  matches_fence, fence_rel_path, matches_scope, any_admits, admits, cut_globstar,
}
use driver_os.Agent.Fence.Admitted.{matches_scope-matches_fence}
use driver_os.Agent.Fence.Snapshots.{
  Snapshot, Files, restore, find_file, FenceState, is_nil, Listing, file, empty, entry,
  new_fence_state, violation_check, walk_fenced,
}
use driver_os.Agent.Fence.Snapshots.Drift.{Exact, violation_check-Exact}
use driver_os.Agent.Fence.Snapshots.Restored.{IsLawful, one_of_texts, content_of, restore-read}
use driver_os.Agent.Fence.Tools.{observed, Tool, first_word}

any_depth_star : path_match (codes "*_test.go") (codes "queue_test.go") ≡ true
unfolding path_match tokens read_code chunks match_chunks place match_chunk skip_match takes
    has_code
any_depth_star = refl

no_slash_star : path_match (codes "*_test.go") (codes "a/queue_test.go") ≡ false
unfolding path_match tokens read_code chunks match_chunks place match_chunk skip_match takes
    has_code
no_slash_star = refl

class_star : path_match (codes "[a-c^]x*\\*?") (codes "^x12*3") ≡ true
unfolding path_match tokens read_code read_low chunks match_chunks place match_chunk skip_match
    takes has_code
class_star = refl

in_scope : matches_scope (codes "src/**" ∷ []) (codes "./src/a.go") ≡ true
unfolding matches_scope any_admits admits cut_globstar clean_path clean clean_parts clean_step
    joined with_ups split trim_space trim_left is_space has_prefix text_eq has_code
in_scope = refl

not_below : matches_scope (codes "src/**" ∷ []) (codes "pkg/src/a.go") ≡ false
unfolding matches_scope any_admits admits cut_globstar clean_path clean clean_parts clean_step
    joined with_ups split trim_space trim_left is_space has_prefix text_eq has_code
not_below = refl

matches_scope-matches_fence_example :
    matches_fence (codes "src/**" ∷ []) (codes "./src/a.go") ≡ true
matches_scope-matches_fence_example =
    matches_scope-matches_fence (codes "src/**" ∷ []) (codes "./src/a.go") in_scope

abbrev test_globs : List Text
test_globs = codes "*_test.go" ∷ []

-- A workspace as a function from paths, and a tool that writes its whole argument to the first word.
abbrev Tree : Type 0
Tree = Text → Option Text

abbrev writes : Tool Tree
writes arg w =
    (observed arg, λ q. if text_eq q (fence_rel_path [] (first_word arg)) then some arg else w q)

abbrev is_free : Text → Tree → Bool
is_free p w = elim (w (fence_rel_path [] p)) [ none ↦ true | some d ↦ false ]

abbrev tests : Tree
tests q = if text_eq q (codes "a_test.go") then some (codes "x") else none

abbrev edits : List Text
edits = codes "a_test.go y" ∷ codes "b_test.go z" ∷ codes "a.go 1" ∷ []

abbrev listing : Text → Listing
listing text = entry (codes "a_test.go") (file (some (text, false)) none) empty

abbrev identity : Text → Text
identity s = s

abbrev armed : FenceState
armed =
    let m = walk_fenced identity test_globs (listing (codes "x")) in
    record { globs = test_globs; base = m; snapshot_failed = is_nil m }

armed_lem : new_fence_state identity test_globs (listing (codes "x")) ≡ some armed
unfolding new_fence_state
armed_lem = refl

violation_check-Exact_example :
    Exact identity test_globs
      (listing (codes "x"))
      (listing (codes "y"))
      (violation_check identity (some armed) (listing (codes "y")))
violation_check-Exact_example =
    violation_check-Exact identity test_globs (listing (codes "x")) (listing (codes "y")) armed
      armed_lem

-- A workspace of files by their paths.
abbrev Store : Type 0
Store = Text → Option Text

abbrev files : Files Store
files = record {
  read = λ p w. w p;
  write = λ p text w. some (λ q. if text_eq q p then some text else w q);
  remove = λ p w. some (λ q. if text_eq q p then none else w q);
}

abbrev inner : Option Store → Store → Store
inner none d = d
inner (some v) d = v

files-IsLawful : IsLawful files
files-IsLawful = record {
  written = λ p q text w v h. sym (ap (λ o. inner o w q) h);
  removed = λ p q w v h. sym (ap (λ o. inner o w q) h);
}

abbrev snapshot : Snapshot
snapshot =
    (
      codes "a_test.go",
      record { hash = codes "x"; content = some (codes "x"); full_hash = []; size = 0 },
    )
    ∷ []

abbrev tampered : Store
tampered q = some (codes "y")

abbrev repaired : Store
repaired = λ q.
    if text_eq q (codes "b_test.go")
    then none
    else if text_eq q (codes "a_test.go")
    then some (codes "x")
    else some (codes "y")

abbrev drift : List Text
drift = codes "a_test.go" ∷ codes "b_test.go" ∷ []

repaired_lem : restore files snapshot drift tampered ≡ some repaired
unfolding restore find_file text_eq
repaired_lem = refl

restore-read_example : repaired (codes "a_test.go") ≡ (
    if one_of_texts (codes "a_test.go") drift
    then content_of (find_file (codes "a_test.go") snapshot)
    else tampered (codes "a_test.go"))
restore-read_example =
    restore-read files files-IsLawful snapshot drift (codes "a_test.go") tampered repaired
      repaired_lem
