-- ===== src/Runspec/Resolve/Stable.antt =====
-- A policy that is asked for as it stands is resolved to itself.
use driver_os.Base.{
  ◌≡◌, ◌<◌, refl, ap, ◌∙◌, subst, arith, ℤ, pos, pos_part, is_zero, false, Option, none, some, Text,
  ◌==◌,
}
use driver_os.Agent.Policy.{TerminationPolicy, IsComplete, resolve_termination_total}
use driver_os.Profile.Posture.{Trust}
use driver_os.Runspec.{RequestedConfig, PolicyValue, TerminationRequest}
use driver_os.Runspec.Resolve.{
  ok, thresholds_error, window_error, windows_conflict, floor_error, candidate, validate_policy,
  defaulted, verify_timeout_of, settled, overlay, resolved_thresholds, asked_thresholds,
  resolve_policy,
}
use driver_os.Runspec.Resolve.Checks.{resolve_policy-Passed, Passed-resolve_policy}
use driver_os.Runspec.Resolve.Sound.{Passed-IsSound}

abbrev pub as_request : TerminationPolicy → TerminationRequest
as_request t = record {
  version = t.version;
  max_repeats = pos t.max_repeats;
  max_reasoning_repeats = pos t.max_reasoning_repeats;
  max_stagnant = pos t.max_stagnant;
  nav_spiral_window = pos t.nav_spiral_window;
  wander_multiple = pos t.wander_multiple;
  frontier_cap = pos t.frontier_cap;
  green_repeat_threshold = pos t.green_repeat_threshold;
}

-- The request that gives every field of a policy, under some trust profile, and no profile.
abbrev pub request_of : Option Text → PolicyValue → RequestedConfig
request_of trust p = record {
  trust_profile = trust;
  exec_profile_name = none;
  effective_protocol = some p.effective_protocol;
  disable_memory_store = some p.disable_memory_store;
  memory = some p.memory;
  persona = some p.persona;
  memory_scope = some p.memory_scope;
  boot_context = some p.boot_context;
  standing_context = some p.standing_context;
  stream = some p.stream;
  min_isolation = some p.min_isolation;
  require_network_off = some p.require_network_off;
  max_iterations = some p.max_iterations;
  max_tokens = some p.max_tokens;
  run_timeout = some p.run_timeout;
  verify_timeout = some p.verify_timeout;
  reasoning_effort = some p.reasoning_effort;
  prompt_profile = some p.prompt_profile;
  code_act = some p.code_act;
  repro_first = some p.repro_first;
  repro_gate = some p.repro_gate;
  batch_reads = some p.batch_reads;
  read_window = some p.read_window;
  read_outline = some p.read_outline;
  max_wall_clock = some p.max_wall_clock;
  max_total_tokens = some p.max_total_tokens;
  max_total_cost = some p.max_total_cost;
  allow_unpriced_spend = some p.allow_unpriced_spend;
  solver_model = some p.solver_model;
  verify_cmd = some p.verify_cmd;
  auto_verify = some p.auto_verify;
  auto_verify_soft = some p.auto_verify_soft;
  skip_verify_baseline = some p.skip_verify_baseline;
  abort_on_red_baseline = some p.abort_on_red_baseline;
  verify_last_run = some p.verify_last_run;
  churn_nudge_runs = some p.churn_nudge_runs;
  verify_continue = some p.verify_continue;
  test_fence = some p.test_fence;
  diff_scope = some p.diff_scope;
  review_policy = some p.review_policy;
  require_diff = some p.require_diff;
  review_unverified = some p.review_unverified;
  review_rounds = some p.review_rounds;
  finish_nudge_window = some p.finish_nudge_window;
  diagnose_cmd = some p.diagnose_cmd;
  diagnose_after_edits = some p.diagnose_after_edits;
  answer_nudge_window = some p.answer_nudge_window;
  finish_tool = some p.finish_tool;
  finish_tool_trusts_caller = some p.finish_tool_trusts_caller;
  worktree = some p.worktree;
  nav_spiral_window = none;
  termination_policy = some (as_request p.termination_policy);
}

module _ (trust : Option Text) (p : PolicyValue) where
  settled-request_of :
      (u : PolicyValue) → IsComplete p.termination_policy → settled (request_of trust p) u ≡ p
  unfolding settled overlay resolved_thresholds asked_thresholds
  settled-request_of u h =
      ap (λ (t : TerminationPolicy). record p { termination_policy = t })
        ((resolve_termination_total none).2 p.termination_policy h)

  defaulted-request_of :
      is_zero p.verify_timeout ≡ false
      → (p.termination_policy.nav_spiral_window == 0) ≡ false
      → defaulted (request_of trust p) p ≡ p
  unfolding defaulted verify_timeout_of
  defaulted-request_of a b = rw (a, b)

positive-is_zero : (n : ℤ) → 0 < pos_part n → is_zero n ≡ false
positive-is_zero n h = ground arith

-- The floor looks at fields that the last defaults leave alone.
floor_error-defaulted :
    (r : RequestedConfig) (t : Trust) (q : PolicyValue)
    → floor_error t (defaulted r q) ≡ floor_error t q
unfolding floor_error candidate defaulted
floor_error-defaulted r t q = refl

-- A policy that a request resolves to, whatever the request and the policy it started from: asking for
-- each of its fields as it stands, under the same trust profile, gives it again from any start.
pub resolve_policy-request_of :
    (r : RequestedConfig) (t : Trust) (q p u : PolicyValue) (trust : Option Text)
    → resolve_policy r t q ≡ ok p
    → resolve_policy (request_of trust p) t u ≡ ok p
unfolding thresholds_error window_error windows_conflict
resolve_policy-request_of r t q p u trust h =
    let k = resolve_policy-Passed r t q p h in
    let s = Passed-IsSound r t q p k in
    let e = settled-request_of trust p u s.thresholds in
    let d =
      defaulted-request_of trust p (positive-is_zero p.verify_timeout s.verify_timeout)
        (ground (arith, s.thresholds.window)) in
    Passed-resolve_policy (request_of trust p) t u p (record {
      thresholds = refl;
      window = refl;
      windows = refl;
      floor = rw e (
          subst (λ x. floor_error t x ≡ none) k.policy
            (floor_error-defaulted r t (settled r q) ∙ k.floor));
      ranges = rw (e, d) (subst (λ x. validate_policy x ≡ none) k.policy k.ranges);
      policy = rw e d;
    })
