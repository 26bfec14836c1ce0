-- ===== src/Profile/Policy/Commands.antt =====
-- What the headless policy lets through.
use mathlib.Core.Path.{subst}
use driver_os.Base.{
  split, ℕ, ◌≡◌, ◌⊎◌, Bool-cases, inl, inr, refl, sym, ap, ◌∙◌, arith, true, false, List, [], ◌∷◌,
  ◌++◌, Option, none, some, Text, codes, text_eq, text_eq_iff, has_prefix, All,
}
use driver_os.Profile.Policy.{
  workspace_path, ApprovalPolicy, is_executable, safe_go_flag, go_args, is_status_flag, status_args,
  is_diff_flag, diff_args, is_go_verb, allowed_argv, allowed_words, allows, default_headless_policy,
  search_flags, search_paths, search_rest, search_args, allows_exec,
}
use driver_os.Profile.Shell.{File, parse_simple_command}
use driver_os.Profile.Policy.Paths.{walk, workspace_path-stays}

-- A path whose parts never lead above their start.
pub record IsInside (path : Text) : Type 0 where
  depth : ℕ
  stays : walk 0 (split b'/' path) ≡ some depth

pub data IsGoArgument : Text → Type 0 where
  go_flag : {a : Text} → safe_go_flag a ≡ true → IsGoArgument a
  go_path : {a : Text} → IsInside a → IsGoArgument a

-- Flags that choose what is shown and, behind `--`, paths.
pub data IsDiffArguments : List Text → Type 0 where
  no_argument : IsDiffArguments []
  diff_flag :
      {a : Text} {args : List Text}
      → is_diff_flag a ≡ true
      → IsDiffArguments args
      → IsDiffArguments (a ∷ args)
  paths :
      {args : List Text}
      → All (λ p. (p ≡ codes "--") ⊎ IsInside p) args
      → IsDiffArguments (codes "--" ∷ args)

-- The commands that the policy means: three of go, and two of git that read.
pub data IsReadOnly : List Text → Type 0 where
  go_command :
      (verb : Text) (args : List Text)
      → is_go_verb verb ≡ true
      → All IsGoArgument args
      → IsReadOnly (codes "go" ∷ verb ∷ args)
  git_status :
      (args : List Text)
      → All (λ a. is_status_flag a ≡ true) args
      → IsReadOnly (codes "git" ∷ codes "status" ∷ args)
  git_diff :
      (args : List Text) → IsDiffArguments args → IsReadOnly (codes "git" ∷ codes "diff" ∷ args)

inside : (p : Text) → workspace_path p ≡ true → IsInside p
inside p h = let (d, e) = workspace_path-stays p h in record { depth = d; stays = e }

go_args-All : (args : List Text) → go_args args ≡ true → All IsGoArgument args
unfolding go_args
go_args-All [] h = tt
go_args-All (a ∷ args) h = elim (Bool-cases (has_prefix a (codes "-"))) [
  | inl y ↦ (go_flag (ground (arith, y)), go_args-All args (ground (arith, y)))
  | inr n ↦ (go_path (inside a (ground (arith, n))), go_args-All args (ground (arith, n)))
]

status_args-All :
    (args : List Text) → status_args args ≡ true → All (λ a. is_status_flag a ≡ true) args
unfolding status_args
status_args-All [] h = tt
status_args-All (a ∷ args) h = (ground arith, status_args-All args (ground arith))

diff_args-paths :
    (args : List Text) → diff_args true args ≡ true → All (λ p. (p ≡ codes "--") ⊎ IsInside p) args
unfolding diff_args
diff_args-paths [] h = tt
diff_args-paths (a ∷ args) h = elim (Bool-cases (text_eq a (codes "--"))) [
  | inl y ↦ (inl ((text_eq_iff a (codes "--")).0 y), diff_args-paths args (ground (arith, y)))
  | inr n ↦ (inr (inside a (ground (arith, n))), diff_args-paths args (ground (arith, n)))
]

diff_args-IsDiffArguments : (args : List Text) → diff_args false args ≡ true → IsDiffArguments args
unfolding diff_args
diff_args-IsDiffArguments [] h = no_argument
diff_args-IsDiffArguments (a ∷ args) h = elim (Bool-cases (text_eq a (codes "--"))) [
  | inl y ↦
      subst (λ x. IsDiffArguments (x ∷ args)) (sym ((text_eq_iff a (codes "--")).0 y))
        (paths (diff_args-paths args (ground (arith, y))))
  | inr n ↦ diff_flag (ground (arith, n)) (diff_args-IsDiffArguments args (ground (arith, n)))
]

go_argv-IsReadOnly :
    (cmd verb : Text) (args : List Text)
    → text_eq cmd (codes "go") ≡ true
    → allowed_argv (cmd ∷ verb ∷ args) ≡ true
    → IsReadOnly (cmd ∷ verb ∷ args)
unfolding allowed_argv
go_argv-IsReadOnly cmd verb args g h =
    subst (λ x. IsReadOnly (x ∷ verb ∷ args)) (sym ((text_eq_iff cmd (codes "go")).0 g))
      (go_command verb args (ground (arith, g)) (go_args-All args (ground (arith, g))))

git_argv-IsReadOnly :
    (cmd verb : Text) (args : List Text)
    → text_eq cmd (codes "go") ≡ false
    → text_eq cmd (codes "git") ≡ true
    → allowed_argv (cmd ∷ verb ∷ args) ≡ true
    → IsReadOnly (cmd ∷ verb ∷ args)
unfolding allowed_argv
git_argv-IsReadOnly cmd verb args n g h =
    subst (λ x. IsReadOnly (x ∷ verb ∷ args)) (sym ((text_eq_iff cmd (codes "git")).0 g))
      (elim (Bool-cases (text_eq verb (codes "status"))) [
        | inl s ↦
            subst (λ x. IsReadOnly (codes "git" ∷ x ∷ args))
              (sym ((text_eq_iff verb (codes "status")).0 s))
              (git_status args (status_args-All args (ground (arith, n, g, s))))
        | inr s ↦
            subst (λ x. IsReadOnly (codes "git" ∷ x ∷ args))
              (sym ((text_eq_iff verb (codes "diff")).0 (ground (arith, n, g, s))))
              (git_diff args (diff_args-IsDiffArguments args (ground (arith, n, g, s))))
      ])

allowed_argv-IsReadOnly : (argv : List Text) → allowed_argv argv ≡ true → IsReadOnly argv
unfolding allowed_argv
allowed_argv-IsReadOnly [] h = ground arith
allowed_argv-IsReadOnly (cmd ∷ []) h = ground arith
allowed_argv-IsReadOnly (cmd ∷ verb ∷ args) h = elim (Bool-cases (text_eq cmd (codes "go"))) [
  | inl g ↦ go_argv-IsReadOnly cmd verb args g h
  | inr n ↦ git_argv-IsReadOnly cmd verb args n (ground (arith, n)) h
]

allowed_words-IsReadOnly :
    (o : Option (List Text))
    → allowed_words o ≡ true
    → (argv : List Text) × (o ≡ some argv) × IsReadOnly argv
allowed_words-IsReadOnly none h = ground arith
allowed_words-IsReadOnly (some argv) h = (argv, refl, allowed_argv-IsReadOnly argv h)

-- A source that the policy allows is one simple command with literal words, which the policy means to
-- be read-only: `go test`, `go build` or `go vet` with known flags and paths inside the workspace,
-- `git status` with its flags, or `git diff` with its flags and paths inside the workspace. The
-- policy that allows it is version 2, or the default one.
pub allows-IsReadOnly :
    (p : ApprovalPolicy) (f : Option File)
    → allows p f ≡ true
    → (is_executable p ≡ true)
      × ((argv : List Text) × (parse_simple_command f ≡ some argv) × IsReadOnly argv)
unfolding allows
allows-IsReadOnly p f h =
    (ground arith, allowed_words-IsReadOnly (parse_simple_command f) (ground arith))

-- The paths behind the pattern of a search.
pub data IsSearchRest : List Text → Type 0 where
  nothing : IsSearchRest []
  searched :
      (p : Text) (ps : List Text)
      → All (λ q. (has_prefix q (codes "-") ≡ false) × IsInside q) (p ∷ ps)
      → IsSearchRest (codes "--" ∷ p ∷ ps)

search_paths-All :
    (ps : List Text)
    → search_paths ps ≡ true
    → All (λ q. (has_prefix q (codes "-") ≡ false) × IsInside q) ps
unfolding search_paths
search_paths-All [] h = tt
search_paths-All (p ∷ ps) h =
    ((ground arith, inside p (ground arith)), search_paths-All ps (ground arith))

search_rest-IsSearchRest : (rest : List Text) → search_rest rest ≡ true → IsSearchRest rest
unfolding search_rest
search_rest-IsSearchRest [] h = nothing
search_rest-IsSearchRest (d ∷ []) h = ground arith
search_rest-IsSearchRest (d ∷ p ∷ ps) h =
    subst (λ x. IsSearchRest (x ∷ p ∷ ps)) (sym ((text_eq_iff d (codes "--")).0 (ground arith)))
      (searched p ps (search_paths-All (p ∷ ps) (ground arith)))

-- The wanted flags in front, one pattern, and the rest.
search_args-split :
    (want args : List Text)
    → search_args want args ≡ true
    → (pattern : Text) × (rest : List Text) × (args ≡ want ++ pattern ∷ rest) × IsSearchRest rest
unfolding search_args
search_args-split [] [] h = ground arith
search_args-split [] (pattern ∷ rest) h = (pattern, rest, refl, search_rest-IsSearchRest rest h)
search_args-split (w ∷ ws) [] h = ground arith
search_args-split (w ∷ ws) (a ∷ args) h =
    let (pattern, rest, e, r) = search_args-split ws args (ground arith) in
    (
      pattern,
      rest,
      ap (λ x. x ∷ args) ((text_eq_iff a w).0 (ground arith)) ∙ ap (λ xs. w ∷ xs) e,
      r,
    )

-- A direct execution that the policy allows is `rg` under the default policy, with exactly the wanted
-- flags, one pattern and, behind `--`, paths that are no flags and stay inside the workspace.
pub allows_exec-IsSearchRest :
    (p : ApprovalPolicy) (path : Text) (args : List Text)
    → allows_exec p path args ≡ true
    → (p.name ≡ default_headless_policy)
      × (path ≡ codes "rg")
      × ((pattern : Text) × (rest : List Text) × (args ≡ search_flags ++ pattern ∷ rest)
          × IsSearchRest rest)
unfolding allows_exec
allows_exec-IsSearchRest p path args h = (
  (text_eq_iff p.name default_headless_policy).0 (ground arith),
  (text_eq_iff path (codes "rg")).0 (ground arith),
  search_args-split search_flags args (ground arith),
)
