-- ===== src/Profile/Exec.antt =====
-- profile/exec.go: the execution profiles and their declarations. A value declared for a field is of
-- the field's type, so the `any` of the declarations and its assertions are left out; every profile
-- declares every field, as both `add` and `v1Declarations` do. The content hash is left out.
use driver_os.Base.{
  ℕ, ◌*◌, ℤ, pos, Bool, true, false, not, List, [], ◌∷◌, Option, none, some, Text, codes,
  if◌then◌else◌, is_empty, text_eq,
}
use driver_os.Profile.Posture.{Trust, Posture, Descriptor, descriptors, floor_for, parse_trust}

pub record Exec : Type 0 where
  pub name : Text
  pub required_trust : Text
  pub max_iters : ℤ
  pub max_tokens : ℤ
  pub finish_nudge : ℤ
  pub run_timeout : ℤ
  pub effort : Text
  pub worktree : Text
  pub verify_continue : Bool
  pub auto_verify : Bool
  pub memory : Bool
  pub boot_context : Bool
  pub standing_context : Bool
  pub batch_reads : Bool
  pub auto_verify_soft : Bool
  pub require_diff : Bool
  pub read_window : ℤ
  pub read_outline : Bool
  pub churn_nudge_runs : ℤ
  pub nav_spiral_window : ℤ
  pub answer_nudge_window : ℤ

pub data Stance : Type 0 where
  default demand : Stance

-- time.Second in nanoseconds.
abbrev pub second : ℕ
second = 1000000000

abbrev minute : ℤ
minute = pos (60 * second)

-- The profiles of the first generation leave the later fields at zero.
unfoldable pub coding_v1 : Exec
coding_v1 = record {
  name = codes "coding-v1";
  required_trust = [];
  max_iters = pos 40;
  max_tokens = pos 8192;
  finish_nudge = pos 0;
  run_timeout = minute;
  effort = codes "low";
  worktree = codes "auto";
  verify_continue = true;
  auto_verify = true;
  memory = true;
  boot_context = false;
  standing_context = false;
  batch_reads = true;
  auto_verify_soft = false;
  require_diff = false;
  read_window = pos 0;
  read_outline = false;
  churn_nudge_runs = pos 0;
  nav_spiral_window = pos 0;
  answer_nudge_window = pos 0;
}

unfoldable pub interactive_v1 : Exec
interactive_v1 = record {
  name = codes "interactive-v1";
  required_trust = [];
  max_iters = pos 0;
  max_tokens = pos 32768;
  finish_nudge = pos 5;
  run_timeout = minute;
  effort = [];
  worktree = codes "off";
  verify_continue = true;
  auto_verify = true;
  memory = true;
  boot_context = false;
  standing_context = true;
  batch_reads = true;
  auto_verify_soft = false;
  require_diff = false;
  read_window = pos 0;
  read_outline = false;
  churn_nudge_runs = pos 0;
  nav_spiral_window = pos 0;
  answer_nudge_window = pos 0;
}

-- `add`, in the order of ProfileFields.
unfoldable pub added :
    Text
    → ℤ
    → ℤ
    → ℤ
    → ℤ
    → Text
    → Text
    → Bool
    → Bool
    → Bool
    → Bool
    → Bool
    → Bool
    → Bool
    → Bool
    → ℤ
    → Bool
    → ℤ
    → ℤ
    → ℤ
    → Exec
added n iters tokens nudge timeout effort tree cont auto soft mem boot standing batch diff win
      outline churn nav answer =
    record {
      name = n;
      required_trust = [];
      max_iters = iters;
      max_tokens = tokens;
      finish_nudge = nudge;
      run_timeout = timeout;
      effort = effort;
      worktree = tree;
      verify_continue = cont;
      auto_verify = auto;
      memory = mem;
      boot_context = boot;
      standing_context = standing;
      batch_reads = batch;
      auto_verify_soft = soft;
      require_diff = diff;
      read_window = win;
      read_outline = outline;
      churn_nudge_runs = churn;
      nav_spiral_window = nav;
      answer_nudge_window = answer;
    }

unfoldable pub coding_v2 : Exec
unfolding added
coding_v2 =
    added (codes "coding-v2") (pos 40) (pos 8192) (pos 0) minute (codes "low") (codes "auto") true
      true false true false false true true (pos 0) false (pos 0) (pos 4) (pos 0)

unfoldable pub interactive_v2 : Exec
unfolding added
interactive_v2 =
    added (codes "interactive-v2") (pos 0) (pos 32768) (pos 5) minute [] (codes "off") true true
      false true false true true false (pos 0) false (pos 0) (pos 4) (pos 0)

unfoldable pub observe_v1 : Exec
unfolding added
observe_v1 =
    added (codes "observe-v1") (pos 40) (pos 8192) (pos 5) minute (codes "low") (codes "auto") true
      false false true false true true false (pos 0) false (pos 0) (pos 4) (pos 0)

unfoldable pub eval_swe_v1 : Exec
unfolding added
eval_swe_v1 =
    added (codes "eval-swe-v1") (pos 30) (pos 4096) (pos 0) minute [] (codes "off") false false
      false false false false false false (pos 0) false (pos 0) (pos 4) (pos 0)

abbrev second_generation : List Exec
second_generation = coding_v2 ∷ interactive_v2 ∷ observe_v1 ∷ eval_swe_v1 ∷ []

abbrev find : Text → List Exec → Option Exec
find n [] = none
find n (e ∷ es) = if text_eq n e.name then some e else find n es

-- none is the error of an unknown name.
unfoldable pub exec_by_name : Text → Option Exec
exec_by_name n = find n (coding_v1 ∷ interactive_v1 ∷ second_generation)

-- v1Declarations keeps what the first generation declares and gives the later fields their values.
unfoldable pub v1_declarations : Exec → Exec
v1_declarations e = record e {
  auto_verify_soft = false;
  require_diff = false;
  read_window = pos 0;
  read_outline = false;
  churn_nudge_runs = pos 0;
  nav_spiral_window = pos 4;
  answer_nudge_window = pos 0;
}

-- The values that a profile's name has declared, or else those of the first generation.
unfoldable pub declared : Exec → Exec
unfolding v1_declarations
declared e = elim (find e.name second_generation) [ none ↦ v1_declarations e | some d ↦ d ]

-- The stance on the worktree, which eval-swe-v1 alone demands.
unfoldable pub worktree_stance : Exec → Stance
worktree_stance e = if text_eq e.name (codes "eval-swe-v1") then demand else default

-- RequireTrust's errors: the text that is no profile, or the violation of the required one.
pub data ExecError : Type 0 where
  invalid_required : Text → ExecError
  invalid_selected : Text → ExecError
  requires : Text → ExecError

unfoldable pub first_unmet : Posture → Posture → List Descriptor → Option ExecError
first_unmet candidate floor [] = none
first_unmet candidate floor (d ∷ ds) =
    if not (d.satisfies candidate floor)
    then some (requires (d.violation candidate floor))
    else first_unmet candidate floor ds

unfoldable pub require_parsed : Text → Text → Option Trust → Option Trust → Option ExecError
require_parsed required selected none s = some (invalid_required required)
require_parsed required selected (some r) none = some (invalid_selected selected)
require_parsed required selected (some r) (some s) =
    first_unmet (floor_for s) (floor_for r) descriptors

-- The error, where there is one.
unfoldable pub require_trust : Exec → Text → Option ExecError
require_trust e selected =
    if is_empty e.required_trust
    then none
    else require_parsed e.required_trust selected (parse_trust e.required_trust)
        (parse_trust selected)
