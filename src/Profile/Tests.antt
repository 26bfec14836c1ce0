-- ===== src/Profile/Tests.antt =====
-- Postures and commands that are accepted.
use driver_os.Base.{
  split, clean, clean_step, clean_parts, joined, with_ups, ◌≡◌, ◌↔◌, refl, true, false, List, [],
  ◌∷◌, ◌++◌, Option, none, some, Text, codes, text_eq, has_prefix,
}
use driver_os.Profile.Posture.{
  Trust, untrusted, trust_name, parse_trust, Posture, floor_for, descriptors, first_violation,
  enforce_parsed, enforce, sandbox_satisfies, isolation_satisfies, worktree_satisfies,
  approval_satisfies, secrets_satisfies, network_satisfies, approval_deny_all,
}
use driver_os.Profile.Posture.Order.{Meets, enforce-exact}
use driver_os.Profile.Policy.{
  workspace_path, ApprovalPolicy, default_headless_policy, is_executable, allowed_argv, allows,
  search_flags, search_args, search_rest, search_paths, allows_exec, is_go_verb, go_args,
}
use driver_os.Profile.Shell.{
  File, WordParts, literal, no_part, part, has_glob, part_text, parts_text, literal_word,
  literal_words, is_simple, one_command, parse_simple_command,
}
use driver_os.Profile.Policy.Commands.{IsReadOnly, allows-IsReadOnly}

abbrev strict : Posture
strict = record (floor_for untrusted) { approval = approval_deny_all }

strict_accepted : enforce (trust_name untrusted) strict ≡ none
unfolding enforce enforce_parsed parse_trust text_eq first_violation descriptors floor_for
    sandbox_satisfies isolation_satisfies worktree_satisfies approval_satisfies secrets_satisfies
    network_satisfies
strict_accepted = refl

enforce-exact_example :
    (enforce (codes "untrusted") strict ≡ none)
    ↔ ((t : Trust) × (codes "untrusted" ≡ trust_name t) × Meets strict (floor_for t))
enforce-exact_example = enforce-exact (codes "untrusted") strict

path_kept : workspace_path (codes "a/../b/./c") ≡ true
unfolding workspace_path clean clean_parts clean_step split joined with_ups text_eq has_prefix
path_kept = refl

path_refused : workspace_path (codes "a/../../b") ≡ false
unfolding workspace_path clean clean_parts clean_step split joined with_ups text_eq has_prefix
path_refused = refl

abbrev policy : ApprovalPolicy
policy = record { name = default_headless_policy; version = codes "3"; allowlist = [] }

abbrev word : Text → WordParts
word s = part (literal s) no_part

-- `go test ./...`
abbrev go_test : Option File
go_test = some (record {
  stmts =
      record {
        is_call = true;
        has_semicolon = false;
        negated = false;
        background = false;
        coprocess = false;
        redirs = 0;
        comments = 0;
        assigns = 0;
        args = word (codes "go") ∷ word (codes "test") ∷ word (codes "./...") ∷ [];
      }
      ∷ [];
  last = 0;
})

go_test_words : parse_simple_command go_test ≡ some (codes "go" ∷ codes "test" ∷ codes "./..." ∷ [])
unfolding parse_simple_command one_command is_simple literal_words literal_word part_text parts_text
    has_glob
go_test_words = refl

go_test_allowed : allows policy go_test ≡ true
unfolding allows is_executable allowed_argv is_go_verb go_args workspace_path clean clean_parts
    clean_step split joined with_ups text_eq has_prefix parse_simple_command one_command is_simple
    literal_words literal_word part_text parts_text has_glob
go_test_allowed = refl

allows-IsReadOnly_example :
    (is_executable policy ≡ true)
    × ((argv : List Text) × (parse_simple_command go_test ≡ some argv) × IsReadOnly argv)
allows-IsReadOnly_example = allows-IsReadOnly policy go_test go_test_allowed

abbrev search : List Text
search = search_flags ++ codes "func" ∷ codes "--" ∷ codes "agent" ∷ []

search_allowed : allows_exec policy (codes "rg") search ≡ true
unfolding allows_exec search_args search_rest search_paths workspace_path clean clean_parts
    clean_step split joined with_ups text_eq has_prefix
search_allowed = refl
