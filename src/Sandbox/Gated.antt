-- ===== src/Sandbox/Gated.antt =====
-- sandbox/gated/gated.go: a sandbox whose execution asks first. The sandbox inside and the approver are
-- parameters that act on the state `W` of the world.
pub mod Execution
mod Tests
use driver_os.Base.{
  ℕ, ◌+◌, Bool, true, false, not, ◌&&◌, ◌||◌, List, [], ◌∷◌, ◌++◌, Option, none, some, Text, codes,
  ltb, ◌==◌, if◌then◌else◌, is_empty, text_eq, has_prefix, contains, trim_space, length, take,
}

pub data Verdict : Type 0 where
  ask allow deny : Verdict

-- What the gate reads of a sandbox.Command.
pub record Command : Type 0 where
  pub path : Text
  pub args : List Text

pub record Result : Type 0 where
  pub exit_code : ℕ
  pub stderr : Text

-- strings.Join(parts, " ")
unfoldable pub join_words : List Text → Text
join_words [] = []
join_words (a ∷ []) = a
join_words (a ∷ b ∷ rest) = a ++ b' ' ∷ join_words (b ∷ rest)

abbrev pub is_shell : Command → Bool
is_shell cmd = text_eq cmd.path (codes "sh") || text_eq cmd.path (codes "bash")

abbrev pub spelled : Text → List Text → Text
spelled path [] = path
spelled path (a ∷ args) = path ++ b' ' ∷ join_words (a ∷ args)

-- `sh -c line` is shown as the line.
abbrev pub shown : Bool → Text → List Text → Text
shown shell path (c ∷ line ∷ []) =
    if shell && text_eq c (codes "-c") then line else spelled path (c ∷ line ∷ [])
shown shell path args = spelled path args

unfoldable pub display : Command → Text
display cmd = shown (is_shell cmd) cmd.path cmd.args

unfoldable pub blocked : Command → Text → Result
blocked cmd why = record { exit_code = 126; stderr = why ++ codes ": " ++ display cmd }

abbrev pub safe_prefixes : List Text
safe_prefixes =
    codes "go test"
    ∷ codes "go build"
    ∷ codes "go vet"
    ∷ codes "go doc"
    ∷ codes "go list"
    ∷ codes "go env"
    ∷ codes "gofmt"
    ∷ codes "ls"
    ∷ codes "cat"
    ∷ codes "head"
    ∷ codes "tail"
    ∷ codes "wc"
    ∷ codes "sha256sum"
    ∷ codes "pwd"
    ∷ codes "echo"
    ∷ codes "find"
    ∷ codes "tree"
    ∷ codes "stat"
    ∷ codes "grep"
    ∷ codes "rg"
    ∷ codes "ag"
    ∷ codes "which"
    ∷ codes "file"
    ∷ codes "diff"
    ∷ codes "git status"
    ∷ codes "git diff"
    ∷ codes "git log"
    ∷ codes "git show"
    ∷ codes "git branch"
    ∷ codes "git rev-parse"
    ∷ []

abbrev pub chaining : List Text
chaining =
    codes "&&"
    ∷ codes "||"
    ∷ codes ";"
    ∷ codes "|"
    ∷ codes ">"
    ∷ codes "<"
    ∷ codes "`"
    ∷ codes "$("
    ∷ (10 ∷ [])
    ∷ codes "&"
    ∷ []

-- The loops over the tokens and over the prefixes.
unfoldable pub has_token : Text → List Text → Bool
has_token line [] = false
has_token line (tok ∷ toks) = if contains line tok then true else has_token line toks

unfoldable pub has_shell_chaining : Text → Bool
has_shell_chaining line = has_token line chaining

unfoldable pub trusts : Text → List Text → Verdict
trusts line [] = ask
trusts line (p ∷ ps) =
    if text_eq line p || has_prefix line (p ++ b' ' ∷ []) then allow else trusts line ps

unfoldable pub default_policy : Command → Verdict
default_policy cmd =
    let line = trim_space (display cmd) in
    if has_shell_chaining line then ask else trusts line safe_prefixes

unfoldable pub ask_all : Command → Verdict
ask_all cmd = ask

pub record Request : Type 0 where
  pub command : Command
  pub display : Text

-- What came of an execution: none is an error of the sandbox. An optional field is a capability that
-- the sandbox may lack; a negative limit is none.
pub record Sandbox {ℓ} (W : Type ℓ) : Type ℓ where
  pub exec : Command → W → Option Result × W
  pub read_file : Text → W → Option Text
  pub read_file_limit : Option (Text → Option ℕ → W → Option (Text × Bool))
  pub make_dir_all : Option (Text → W → Bool × W)
  pub append_file : Option (Text → Text → W → Bool × W)
  pub root : Option Text
  pub workdir : Option Text

-- The answer of an approver, or the text of its error.
pub data Answer : Type 0 where
  answer : Bool → Answer
  unavailable : Text → Answer

abbrev pub Approver {ℓ} : Type ℓ → Type ℓ
Approver W = Request → W → Answer × W

pub record Gated {ℓ} (W : Type ℓ) : Type ℓ where
  pub inner : Sandbox W
  pub policy : Command → Verdict
  pub approver : Option (Approver W)

abbrev pub or_default_policy : Option (Command → Verdict) → Command → Verdict
or_default_policy none = default_policy
or_default_policy (some p) = p

-- Whether more was read than the limit keeps.
abbrev pub over : Option ℕ → Text → Bool
over none bytes = false
over (some max) bytes = ltb max (length bytes)

abbrev pub kept : Option ℕ → Text → Text
kept none bytes = bytes
kept (some max) bytes = if ltb max (length bytes) then take max bytes else bytes

abbrev pub capped : Option ℕ → Option Text → Option (Text × Bool)
capped max none = none
capped max (some bytes) = some (kept max bytes, over max bytes)

module _ {ℓ} {W : Type ℓ} where
  unfoldable pub new_gated : Sandbox W → Option (Approver W) → Option (Command → Verdict) → Gated W
  new_gated inner approver policy = record {
    inner = inner;
    policy = or_default_policy policy;
    approver = approver;
  }

  -- What follows the approver's answer.
  unfoldable pub answered : Sandbox W → Command → Answer × W → Option Result × W
  answered inner cmd (unavailable e, w) =
      (some (blocked cmd (codes "blocked: approval unavailable (" ++ e ++ codes ")")), w)
  answered inner cmd (answer false, w) = (some (blocked cmd (codes "blocked: denied by user")), w)
  answered inner cmd (answer true, w) = inner.exec cmd w

  unfoldable pub confirm : Sandbox W → Option (Approver W) → Command → W → Option Result × W
  confirm inner none cmd w = (some (blocked cmd (codes "blocked: no approver to confirm with")), w)
  confirm inner (some approve) cmd w =
      answered inner cmd (approve (record { command = cmd; display = display cmd }) w)

  unfoldable pub ruled : Gated W → Verdict → Command → W → Option Result × W
  ruled s allow cmd w = s.inner.exec cmd w
  ruled s deny cmd w = (some (blocked cmd (codes "blocked by policy")), w)
  ruled s ask cmd w = confirm s.inner s.approver cmd w

  unfoldable pub exec : Gated W → Command → W → Option Result × W
  exec s cmd w = ruled s (s.policy cmd) cmd w

  unfoldable pub read_file_limit : Gated W → Text → Option ℕ → W → Option (Text × Bool)
  read_file_limit s path max w = elim (s.inner.read_file_limit) [
    | some limited ↦ limited path max w
    | none ↦ capped max (s.inner.read_file path w)
  ]

  -- The flag says that it succeeded: without the capability both are errors.
  unfoldable pub make_dir_all : Gated W → Text → W → Bool × W
  make_dir_all s path w = elim (s.inner.make_dir_all) [
    | some make ↦ make path w
    | none ↦ (false, w)
  ]

  unfoldable pub append_file : Gated W → Text → Text → W → Bool × W
  append_file s path bytes w = elim (s.inner.append_file) [
    | some append ↦ append path bytes w
    | none ↦ (false, w)
  ]

  unfoldable pub root : Gated W → Text
  root s = elim (s.inner.root) [ some r ↦ r | none ↦ [] ]

  unfoldable pub workdir : Gated W → Text
  workdir s = elim (s.inner.workdir) [ some d ↦ d | none ↦ [] ]
