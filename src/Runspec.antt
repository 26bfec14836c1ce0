-- ===== src/Runspec.antt =====
-- runspec/runspec.go: what a run is asked for, the complete policy it resolves to, and the trace of the
-- resolution. An absent field of the request is none. A float64 is its bit pattern, which is only
-- copied; a duration is its nanoseconds.
pub mod Resolve
mod Tests
use driver_os.Base.{
  ℕ, ℤ, pos, pos_part, Bool, true, false, List, [], Option, none, some, Text, codes,
}
use driver_os.Agent.Policy.{TerminationPolicy, default_termination_policy}
use driver_os.Profile.Posture.{Isolation, isolation_none}
use driver_os.Profile.Exec.{second}
use driver_os.Profile.Resolve.{Setting}

-- memory.Scope
pub record Scope : Type 0 where
  pub user_id : Text
  pub agent_id : Text
  pub run_id : Text

-- The thresholds as they are asked for, which may be negative.
pub record TerminationRequest : Type 0 where
  pub version : Text
  pub max_repeats : ℤ
  pub max_reasoning_repeats : ℤ
  pub max_stagnant : ℤ
  pub nav_spiral_window : ℤ
  pub wander_multiple : ℤ
  pub frontier_cap : ℤ
  pub green_repeat_threshold : ℤ

pub record RequestedConfig : Type 0 where
  pub trust_profile : Option Text
  pub exec_profile_name : Option Text
  pub effective_protocol : Option Text
  pub disable_memory_store : Option Bool
  pub memory : Option Bool
  pub persona : Option Text
  pub memory_scope : Option Scope
  pub boot_context : Option Bool
  pub standing_context : Option Bool
  pub stream : Option Bool
  pub min_isolation : Option Isolation
  pub require_network_off : Option Bool
  pub max_iterations : Option ℤ
  pub max_tokens : Option ℤ
  pub run_timeout : Option ℤ
  pub verify_timeout : Option ℤ
  pub reasoning_effort : Option Text
  pub prompt_profile : Option Text
  pub code_act : Option Bool
  pub repro_first : Option Bool
  pub repro_gate : Option Bool
  pub batch_reads : Option Bool
  pub read_window : Option ℤ
  pub read_outline : Option Bool
  pub max_wall_clock : Option ℤ
  pub max_total_tokens : Option ℤ
  pub max_total_cost : Option ℕ
  pub allow_unpriced_spend : Option Bool
  pub solver_model : Option Text
  pub verify_cmd : Option Text
  pub auto_verify : Option Bool
  pub auto_verify_soft : Option Bool
  pub skip_verify_baseline : Option Bool
  pub abort_on_red_baseline : Option Bool
  pub verify_last_run : Option Bool
  pub churn_nudge_runs : Option ℤ
  pub verify_continue : Option Bool
  pub test_fence : Option (List Text)
  pub diff_scope : Option (List Text)
  pub review_policy : Option ℤ
  pub require_diff : Option Bool
  pub review_unverified : Option Bool
  pub review_rounds : Option ℤ
  pub finish_nudge_window : Option ℤ
  pub diagnose_cmd : Option Text
  pub diagnose_after_edits : Option ℤ
  pub answer_nudge_window : Option ℤ
  pub finish_tool : Option Text
  pub finish_tool_trusts_caller : Option Bool
  pub worktree : Option Text
  pub nav_spiral_window : Option ℤ
  pub termination_policy : Option TerminationRequest

pub record PolicyValue : Type 0 where
  pub effective_protocol : Text
  pub disable_memory_store : Bool
  pub memory : Bool
  pub persona : Text
  pub memory_scope : Scope
  pub boot_context : Bool
  pub standing_context : Bool
  pub stream : Bool
  pub min_isolation : Isolation
  pub require_network_off : Bool
  pub max_iterations : ℤ
  pub max_tokens : ℤ
  pub run_timeout : ℤ
  pub verify_timeout : ℤ
  pub reasoning_effort : Text
  pub prompt_profile : Text
  pub code_act : Bool
  pub repro_first : Bool
  pub repro_gate : Bool
  pub batch_reads : Bool
  pub read_window : ℤ
  pub read_outline : Bool
  pub max_wall_clock : ℤ
  pub max_total_tokens : ℤ
  pub max_total_cost : ℕ
  pub allow_unpriced_spend : Bool
  pub solver_model : Text
  pub verify_cmd : Text
  pub auto_verify : Bool
  pub auto_verify_soft : Bool
  pub skip_verify_baseline : Bool
  pub abort_on_red_baseline : Bool
  pub verify_last_run : Bool
  pub churn_nudge_runs : ℤ
  pub verify_continue : Bool
  pub test_fence : List Text
  pub diff_scope : List Text
  pub review_policy : ℤ
  pub require_diff : Bool
  pub review_unverified : Bool
  pub review_rounds : ℤ
  pub finish_nudge_window : ℤ
  pub diagnose_cmd : Text
  pub diagnose_after_edits : ℤ
  pub answer_nudge_window : ℤ
  pub finish_tool : Text
  pub finish_tool_trusts_caller : Bool
  pub worktree : Text
  pub termination_policy : TerminationPolicy

-- What a trace entry holds.
pub data Value : Type 0 where
  setting : Setting → Value
  scope : Scope → Value
  isolation : Isolation → Value
  bits : ℕ → Value
  texts : List Text → Value
  thresholds : TerminationRequest → Value

pub record TraceEntry : Type 0 where
  pub field : Text
  pub source : Text
  pub value : Value

-- The map of the fields is a list, since every name is marked once.
pub record Trace : Type 0 where
  pub fields : List TraceEntry
  pub trust_profile : Text
  pub exec_profile : Text
  pub canonical : Bool

pub record ResolvedSpec : Type 0 where
  pub policy : PolicyValue
  pub canonical : Text
  pub hash : Text
  pub trace : Trace
  pub trace_hash : Text

abbrev pub default_max_iterations : ℤ
default_max_iterations = pos 8

abbrev pub default_max_tokens : ℤ
default_max_tokens = pos 8192

abbrev pub default_run_timeout : ℤ
default_run_timeout = pos 30000000000

abbrev pub default_review_rounds : ℤ
default_review_rounds = pos 2

abbrev zero_scope : Scope
zero_scope = record { user_id = []; agent_id = []; run_id = [] }

-- The policy that Resolve starts from.
unfoldable pub initial_policy : PolicyValue
initial_policy = record {
  effective_protocol = [];
  disable_memory_store = false;
  memory = false;
  persona = [];
  memory_scope = zero_scope;
  boot_context = false;
  standing_context = false;
  stream = false;
  min_isolation = isolation_none;
  require_network_off = false;
  max_iterations = default_max_iterations;
  max_tokens = default_max_tokens;
  run_timeout = default_run_timeout;
  verify_timeout = pos 0;
  reasoning_effort = [];
  prompt_profile = [];
  code_act = false;
  repro_first = false;
  repro_gate = false;
  batch_reads = false;
  read_window = pos 0;
  read_outline = false;
  max_wall_clock = pos 0;
  max_total_tokens = pos 0;
  max_total_cost = 0;
  allow_unpriced_spend = false;
  solver_model = [];
  verify_cmd = [];
  auto_verify = false;
  auto_verify_soft = false;
  skip_verify_baseline = false;
  abort_on_red_baseline = false;
  verify_last_run = false;
  churn_nudge_runs = pos 0;
  verify_continue = false;
  test_fence = [];
  diff_scope = [];
  review_policy = pos 0;
  require_diff = false;
  review_unverified = false;
  review_rounds = default_review_rounds;
  finish_nudge_window = pos 0;
  diagnose_cmd = [];
  diagnose_after_edits = pos 0;
  answer_nudge_window = pos 0;
  finish_tool = [];
  finish_tool_trusts_caller = false;
  worktree = [];
  termination_policy = default_termination_policy;
}
