-- ===== src/Runspec/Resolve/Obeyed.antt =====
-- What a request asks for is what its policy has.
use driver_os.Base.{◌≡◌, ℕ, ℤ, Bool, List, is_zero, false, some, Text}
use driver_os.Profile.Posture.{Isolation}
use driver_os.Runspec.{RequestedConfig, PolicyValue, Scope}

-- A field that a request gives is the policy's. A verification timeout of zero asks for the default.
pub record Obeys (r : RequestedConfig) (p : PolicyValue) : Type 0 where
  pub effective_protocol : (x : Text) → r.effective_protocol ≡ some x → p.effective_protocol ≡ x
  pub disable_memory_store :
      (x : Bool) → r.disable_memory_store ≡ some x → p.disable_memory_store ≡ x
  pub memory : (x : Bool) → r.memory ≡ some x → p.memory ≡ x
  pub persona : (x : Text) → r.persona ≡ some x → p.persona ≡ x
  pub memory_scope : (x : Scope) → r.memory_scope ≡ some x → p.memory_scope ≡ x
  pub boot_context : (x : Bool) → r.boot_context ≡ some x → p.boot_context ≡ x
  pub standing_context : (x : Bool) → r.standing_context ≡ some x → p.standing_context ≡ x
  pub stream : (x : Bool) → r.stream ≡ some x → p.stream ≡ x
  pub min_isolation : (x : Isolation) → r.min_isolation ≡ some x → p.min_isolation ≡ x
  pub require_network_off : (x : Bool) → r.require_network_off ≡ some x → p.require_network_off ≡ x
  pub max_iterations : (x : ℤ) → r.max_iterations ≡ some x → p.max_iterations ≡ x
  pub max_tokens : (x : ℤ) → r.max_tokens ≡ some x → p.max_tokens ≡ x
  pub run_timeout : (x : ℤ) → r.run_timeout ≡ some x → p.run_timeout ≡ x
  pub verify_timeout :
      (x : ℤ) → r.verify_timeout ≡ some x → is_zero x ≡ false → p.verify_timeout ≡ x
  pub reasoning_effort : (x : Text) → r.reasoning_effort ≡ some x → p.reasoning_effort ≡ x
  pub prompt_profile : (x : Text) → r.prompt_profile ≡ some x → p.prompt_profile ≡ x
  pub code_act : (x : Bool) → r.code_act ≡ some x → p.code_act ≡ x
  pub repro_first : (x : Bool) → r.repro_first ≡ some x → p.repro_first ≡ x
  pub repro_gate : (x : Bool) → r.repro_gate ≡ some x → p.repro_gate ≡ x
  pub batch_reads : (x : Bool) → r.batch_reads ≡ some x → p.batch_reads ≡ x
  pub read_window : (x : ℤ) → r.read_window ≡ some x → p.read_window ≡ x
  pub read_outline : (x : Bool) → r.read_outline ≡ some x → p.read_outline ≡ x
  pub max_wall_clock : (x : ℤ) → r.max_wall_clock ≡ some x → p.max_wall_clock ≡ x
  pub max_total_tokens : (x : ℤ) → r.max_total_tokens ≡ some x → p.max_total_tokens ≡ x
  pub max_total_cost : (x : ℕ) → r.max_total_cost ≡ some x → p.max_total_cost ≡ x
  pub allow_unpriced_spend :
      (x : Bool) → r.allow_unpriced_spend ≡ some x → p.allow_unpriced_spend ≡ x
  pub solver_model : (x : Text) → r.solver_model ≡ some x → p.solver_model ≡ x
  pub verify_cmd : (x : Text) → r.verify_cmd ≡ some x → p.verify_cmd ≡ x
  pub auto_verify : (x : Bool) → r.auto_verify ≡ some x → p.auto_verify ≡ x
  pub auto_verify_soft : (x : Bool) → r.auto_verify_soft ≡ some x → p.auto_verify_soft ≡ x
  pub skip_verify_baseline :
      (x : Bool) → r.skip_verify_baseline ≡ some x → p.skip_verify_baseline ≡ x
  pub abort_on_red_baseline :
      (x : Bool) → r.abort_on_red_baseline ≡ some x → p.abort_on_red_baseline ≡ x
  pub verify_last_run : (x : Bool) → r.verify_last_run ≡ some x → p.verify_last_run ≡ x
  pub churn_nudge_runs : (x : ℤ) → r.churn_nudge_runs ≡ some x → p.churn_nudge_runs ≡ x
  pub verify_continue : (x : Bool) → r.verify_continue ≡ some x → p.verify_continue ≡ x
  pub test_fence : (x : List Text) → r.test_fence ≡ some x → p.test_fence ≡ x
  pub diff_scope : (x : List Text) → r.diff_scope ≡ some x → p.diff_scope ≡ x
  pub review_policy : (x : ℤ) → r.review_policy ≡ some x → p.review_policy ≡ x
  pub require_diff : (x : Bool) → r.require_diff ≡ some x → p.require_diff ≡ x
  pub review_unverified : (x : Bool) → r.review_unverified ≡ some x → p.review_unverified ≡ x
  pub review_rounds : (x : ℤ) → r.review_rounds ≡ some x → p.review_rounds ≡ x
  pub finish_nudge_window : (x : ℤ) → r.finish_nudge_window ≡ some x → p.finish_nudge_window ≡ x
  pub diagnose_cmd : (x : Text) → r.diagnose_cmd ≡ some x → p.diagnose_cmd ≡ x
  pub diagnose_after_edits : (x : ℤ) → r.diagnose_after_edits ≡ some x → p.diagnose_after_edits ≡ x
  pub answer_nudge_window : (x : ℤ) → r.answer_nudge_window ≡ some x → p.answer_nudge_window ≡ x
  pub finish_tool : (x : Text) → r.finish_tool ≡ some x → p.finish_tool ≡ x
  pub finish_tool_trusts_caller :
      (x : Bool) → r.finish_tool_trusts_caller ≡ some x → p.finish_tool_trusts_caller ≡ x
  pub worktree : (x : Text) → r.worktree ≡ some x → p.worktree ≡ x
