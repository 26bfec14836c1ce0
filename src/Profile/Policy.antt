-- ===== src/Profile/Policy.antt =====
-- profile/profile.go: the headless command policy over the parsed command, and its path test.
pub mod Paths
pub mod Commands
use driver_os.Base.{
  ℕ, zero, suc, ◌+◌, Bool, true, false, not, ◌&&◌, ◌||◌, List, [], ◌∷◌, ◌++◌, Option, none, some,
  Text, codes, leb, ◌==◌, if◌then◌else◌, is_empty, text_eq, has_prefix, length, clean,
}
use driver_os.Profile.Shell.{File, parse_simple_command}

unfoldable pub workspace_path : Text → Bool
workspace_path arg =
    if is_empty arg || has_prefix arg (codes "/")
    then false
    else not (text_eq (clean arg) (codes "..")) && not (has_prefix (clean arg) (codes "../"))

pub record ApprovalPolicy : Type 0 where
  pub name : Text
  pub version : Text
  pub allowlist : List Text

abbrev pub default_headless_policy : Text
default_headless_policy = codes "reviewed-local-readonly-v3"

-- `[0-9]+`, and `[A-Za-z0-9_./^$|*+?()\[\]{}-]+`, to the end of the text.
unfoldable pub all_digits : Text → Bool
all_digits [] = true
all_digits (c ∷ s) = leb b'0' c && leb c b'9' && all_digits s

unfoldable pub one_of : ℕ → Text → Bool
one_of c [] = false
one_of c (x ∷ xs) = c == x || one_of c xs

unfoldable pub all_run_pattern : Text → Bool
unfolding one_of
all_run_pattern [] = true
all_run_pattern (c ∷ s) =
    ((leb b'A' c && leb c b'Z')
      || (leb b'a' c && leb c b'z')
      || (leb b'0' c && leb c b'9')
      || one_of c (codes "_./^$|*+?()[]{}-"))
    && all_run_pattern s

-- The text behind a prefix.
abbrev pub behind : Text → Text → Text
behind (x ∷ s) (y ∷ p) = behind s p
behind s _ = s

unfoldable pub safe_go_flag : Text → Bool
safe_go_flag arg =
    text_eq arg (codes "-race")
    || text_eq arg (codes "-short")
    || text_eq arg (codes "-v")
    || text_eq arg (codes "-json")
    || (let n = behind arg (codes "-count=") in
        has_prefix arg (codes "-count=") && not (is_empty n) && all_digits n)
    || (let n = behind arg (codes "-run=") in
        has_prefix arg (codes "-run=") && not (is_empty n) && all_run_pattern n)

unfoldable pub go_args : List Text → Bool
go_args [] = true
go_args (arg ∷ args) =
    if has_prefix arg (codes "-")
    then safe_go_flag arg && go_args args
    else workspace_path arg && go_args args

unfoldable pub is_status_flag : Text → Bool
is_status_flag arg =
    text_eq arg (codes "--short")
    || text_eq arg (codes "--porcelain")
    || text_eq arg (codes "--branch")

unfoldable pub status_args : List Text → Bool
status_args [] = true
status_args (arg ∷ args) = is_status_flag arg && status_args args

unfoldable pub is_diff_flag : Text → Bool
is_diff_flag arg =
    text_eq arg (codes "--stat")
    || text_eq arg (codes "--name-only")
    || text_eq arg (codes "--name-status")
    || text_eq arg (codes "--cached")
    || text_eq arg (codes "--staged")

-- The flag says that `--` was met.
unfoldable pub diff_args : Bool → List Text → Bool
diff_args paths [] = true
diff_args paths (arg ∷ args) =
    let rest = diff_args paths args in
    let behind_dashes = diff_args true args in
    if text_eq arg (codes "--")
    then behind_dashes
    else if paths
    then workspace_path arg && rest
    else is_diff_flag arg && rest

unfoldable pub is_go_verb : Text → Bool
is_go_verb verb =
    text_eq verb (codes "test") || text_eq verb (codes "build") || text_eq verb (codes "vet")

unfoldable pub allowed_argv : List Text → Bool
allowed_argv (cmd ∷ verb ∷ args) =
    if text_eq cmd (codes "go")
    then is_go_verb verb && go_args args
    else if text_eq cmd (codes "git")
    then (if text_eq verb (codes "status")
        then status_args args
        else if text_eq verb (codes "diff")
        then diff_args false args
        else false)
    else false
allowed_argv _ = false

-- The versions that still authorize commands.
unfoldable pub is_executable : ApprovalPolicy → Bool
is_executable p =
    (text_eq p.name (codes "reviewed-local-readonly-v2") && text_eq p.version (codes "2"))
    || (text_eq p.name default_headless_policy && text_eq p.version (codes "3"))

abbrev pub allowed_words : Option (List Text) → Bool
allowed_words none = false
allowed_words (some argv) = allowed_argv argv

unfoldable pub allows : ApprovalPolicy → Option File → Bool
allows p f = if not (is_executable p) then false else allowed_words (parse_simple_command f)

abbrev pub search_flags : List Text
search_flags =
    codes "--line-number"
    ∷ codes "--no-heading"
    ∷ codes "--color=never"
    ∷ codes "--smart-case"
    ∷ codes "--max-columns=250"
    ∷ codes "--max-columns-preview"
    ∷ codes "-e"
    ∷ []

unfoldable pub search_paths : List Text → Bool
search_paths [] = true
search_paths (p ∷ ps) =
    if has_prefix p (codes "-") || not (workspace_path p) then false else search_paths ps

-- Behind the pattern: nothing, or `--` and at least one path.
unfoldable pub search_rest : List Text → Bool
search_rest [] = true
search_rest (d ∷ []) = false
search_rest (d ∷ p ∷ ps) = text_eq d (codes "--") && search_paths (p ∷ ps)

-- The flags that are wanted, in order, then a pattern.
unfoldable pub search_args : List Text → List Text → Bool
search_args [] [] = false
search_args [] (pattern ∷ rest) = search_rest rest
search_args (w ∷ ws) [] = false
search_args (w ∷ ws) (a ∷ args) = text_eq a w && search_args ws args

unfoldable pub allows_exec : ApprovalPolicy → Text → List Text → Bool
allows_exec p path args =
    if not (text_eq p.name default_headless_policy)
      || not (text_eq p.version (codes "3"))
      || not (text_eq path (codes "rg"))
    then false
    else search_args search_flags args
