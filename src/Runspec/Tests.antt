-- ===== src/Runspec/Tests.antt =====
-- A request under the container profile with four fields of its own.
use driver_os.Base.{pos, ◌≡◌, refl, true, false, [], ◌∷◌, none, some, codes, text_eq}
use driver_os.Agent.Policy.{default_termination_policy, resolve_termination}
use driver_os.Profile.Posture.{
  Trust, container, trusted_local, isolation_process, floor_for, enforce, enforce_parsed,
  parse_trust, first_violation, descriptors, sandbox_satisfies, isolation_satisfies,
  worktree_satisfies, approval_satisfies, secrets_satisfies, network_satisfies, trust_name,
}
use driver_os.Runspec.{RequestedConfig, PolicyValue, Trace, ResolvedSpec, texts, initial_policy}
use driver_os.Runspec.Resolve.{
  Digests, ok, setting_int, setting_text, resolve_policy, settled, defaulted, verify_timeout_of,
  overlay, resolved_thresholds, asked_thresholds, seeded, thresholds_error, window_error,
  windows_conflict, floor_error, candidate, validate_policy, resolve, resolve_trace, marks,
  is_unset, selected_trust, with_profile,
}
use driver_os.Runspec.Resolve.Sound.{IsSound, resolve-IsSound}
use driver_os.Runspec.Resolve.Stable.{request_of, resolve_policy-request_of}

abbrev contained : RequestedConfig
contained = record {
  trust_profile = some (codes "container");
  exec_profile_name = none;
  effective_protocol = none;
  disable_memory_store = none;
  memory = none;
  persona = none;
  memory_scope = none;
  boot_context = none;
  standing_context = none;
  stream = none;
  min_isolation = none;
  require_network_off = none;
  max_iterations = some (pos 12);
  max_tokens = none;
  run_timeout = some (pos 60000000000);
  verify_timeout = none;
  reasoning_effort = none;
  prompt_profile = none;
  code_act = none;
  repro_first = none;
  repro_gate = none;
  batch_reads = none;
  read_window = none;
  read_outline = none;
  max_wall_clock = none;
  max_total_tokens = none;
  max_total_cost = none;
  allow_unpriced_spend = none;
  solver_model = none;
  verify_cmd = some (codes "go test ./...");
  auto_verify = none;
  auto_verify_soft = none;
  skip_verify_baseline = none;
  abort_on_red_baseline = none;
  verify_last_run = none;
  churn_nudge_runs = none;
  verify_continue = none;
  test_fence = some (codes "*_test.go" ∷ []);
  diff_scope = none;
  review_policy = none;
  require_diff = none;
  review_unverified = none;
  review_rounds = none;
  finish_nudge_window = none;
  diagnose_cmd = none;
  diagnose_after_edits = none;
  answer_nudge_window = none;
  finish_tool = none;
  finish_tool_trusts_caller = none;
  worktree = none;
  nav_spiral_window = some (pos 6);
  termination_policy = none;
}

abbrev contained_policy : PolicyValue
contained_policy = record {
  effective_protocol = [];
  disable_memory_store = false;
  memory = false;
  persona = [];
  memory_scope = record { user_id = []; agent_id = []; run_id = [] };
  boot_context = false;
  standing_context = false;
  stream = false;
  min_isolation = isolation_process;
  require_network_off = true;
  max_iterations = pos 12;
  max_tokens = pos 8192;
  run_timeout = pos 60000000000;
  verify_timeout = pos 300000000000;
  reasoning_effort = [];
  prompt_profile = [];
  code_act = false;
  repro_first = false;
  repro_gate = false;
  batch_reads = false;
  read_window = pos 0;
  read_outline = false;
  max_wall_clock = pos 0;
  max_total_tokens = pos 0;
  max_total_cost = 0;
  allow_unpriced_spend = false;
  solver_model = [];
  verify_cmd = codes "go test ./...";
  auto_verify = false;
  auto_verify_soft = false;
  skip_verify_baseline = false;
  abort_on_red_baseline = false;
  verify_last_run = false;
  churn_nudge_runs = pos 0;
  verify_continue = false;
  test_fence = codes "*_test.go" ∷ [];
  diff_scope = [];
  review_policy = pos 0;
  require_diff = false;
  review_unverified = false;
  review_rounds = pos 2;
  finish_nudge_window = pos 0;
  diagnose_cmd = [];
  diagnose_after_edits = pos 0;
  answer_nudge_window = pos 0;
  finish_tool = [];
  finish_tool_trusts_caller = false;
  worktree = codes "required";
  termination_policy = record (default_termination_policy) { nav_spiral_window = 6 };
}

abbrev digests : Digests
digests = record {
  of_policy = λ p. some (codes "{}", codes "44136f");
  of_trace = λ t. some (codes "{}", codes "44136f");
}

abbrev contained_trace : Trace
contained_trace = record {
  fields =
      record {
        field = codes "MaxIterations";
        source = codes "override";
        value = setting_int (pos 12);
      }
      ∷ record {
        field = codes "RunTimeout";
        source = codes "override";
        value = setting_int (pos 60000000000);
      }
      ∷ record {
        field = codes "VerifyCmd";
        source = codes "override";
        value = setting_text (codes "go test ./...");
      }
      ∷ record {
        field = codes "TestFence";
        source = codes "override";
        value = texts (codes "*_test.go" ∷ []);
      }
      ∷ record {
        field = codes "TerminationPolicy.NavSpiralWindow";
        source = codes "alias";
        value = setting_int (pos 6);
      }
      ∷ record {
        field = codes "trust";
        source = codes "floor";
        value = setting_text (codes "container");
      }
      ∷ [];
  trust_profile = codes "container";
  exec_profile = [];
  canonical = false;
}

abbrev contained_spec : ResolvedSpec
contained_spec = record {
  policy = contained_policy;
  canonical = codes "{}";
  hash = codes "44136f";
  trace = contained_trace;
  trace_hash = codes "44136f";
}

contained_policy_resolves :
    resolve_policy contained container (seeded container) ≡ ok contained_policy
unfolding resolve_policy settled defaulted verify_timeout_of overlay resolved_thresholds
    asked_thresholds resolve_termination seeded initial_policy floor_for thresholds_error
    window_error windows_conflict floor_error candidate enforce enforce_parsed parse_trust
    first_violation descriptors sandbox_satisfies isolation_satisfies worktree_satisfies
    approval_satisfies secrets_satisfies network_satisfies validate_policy trust_name text_eq
contained_policy_resolves = refl

contained_resolves : resolve digests contained ≡ ok contained_spec
unfolding resolve_policy settled defaulted verify_timeout_of overlay resolved_thresholds
    asked_thresholds resolve_termination seeded initial_policy floor_for thresholds_error
    window_error windows_conflict floor_error candidate enforce enforce_parsed parse_trust
    first_violation descriptors sandbox_satisfies isolation_satisfies worktree_satisfies
    approval_satisfies secrets_satisfies network_satisfies validate_policy trust_name text_eq
    resolve resolve_trace marks is_unset selected_trust with_profile
contained_resolves = refl

resolve-IsSound_example :
    (t : Trust) × (selected_trust contained ≡ ok t) × IsSound t contained_policy
resolve-IsSound_example = resolve-IsSound digests contained contained_spec contained_resolves

resolve_policy-request_of_example :
    resolve_policy (request_of none contained_policy) container (seeded trusted_local)
    ≡ ok contained_policy
resolve_policy-request_of_example =
    resolve_policy-request_of contained container (seeded container) contained_policy
      (seeded trusted_local) none contained_policy_resolves
