-- ===== src/Runspec/Resolve.antt =====
-- runspec/runspec.go: Resolve. The digests stand for encoding/json and crypto/sha256, none being an
-- error of json.Marshal; the trace that is returned beside an error is left out.
pub mod Checks
pub mod Sound
pub mod Obeyed
pub mod Stable
use driver_os.Base.{
  ℕ, ◌*◌, ℤ, pos, negsuc, pos_part, is_negative, is_nonpositive, is_zero, Bool, true, false, not,
  ◌&&◌, ◌||◌, List, [], ◌∷◌, ◌++◌, map, Option, none, some, Text, codes, ltb, ◌==◌, if◌then◌else◌,
  is_empty, text_eq,
}
use driver_os.Agent.Policy.{TerminationPolicy, default_termination_policy, resolve_termination}
use driver_os.Profile.Posture.{
  Trust, trusted_local, trust_name, parse_trust, Posture, floor_for, Isolation, Network,
  network_off, network_unrestricted, Worktree, worktree_auto, worktree_required, TrustError,
  enforce, network_value, worktree_value,
}
use driver_os.Profile.Exec.{Exec, exec_by_name}
use driver_os.Profile.Resolve as Profiles
use driver_os.Profile.Resolve.{Overrides, Setting, ResolveError, given, is_absent}
use driver_os.Runspec.{
  RequestedConfig, PolicyValue, Value, setting, scope, isolation, bits, texts, thresholds,
  TraceEntry, Trace, ResolvedSpec, TerminationRequest, Scope, initial_policy,
  default_max_iterations, default_max_tokens, default_run_timeout, default_review_rounds,
}

pub data RunspecError : Type 0 where
  unknown_trust : Text → RunspecError
  unknown_exec : Text → RunspecError
  profile_error : ResolveError → RunspecError
  out_of_range : Text → RunspecError
  window_conflict : RunspecError
  below_floor : TrustError → RunspecError
  digest_error : RunspecError
  incomplete : RunspecError

pub data Result {ℓ} (A : Type ℓ) : Type ℓ where
  ok : A → Result A
  err : RunspecError → Result A

infixl 5 ◌>>=◌ ◌>>◌
abbrev pub ◌>>=◌ {ℓ κ} : {A : Type ℓ} {B : Type κ} → Result A → (A → Result B) → Result B
ok a >>= f = f a
err e >>= f = err e

-- An error that a check found, or none.
abbrev pub raise : Option RunspecError → Result (Unit {0})
raise none = ok tt
raise (some e) = err e

abbrev pub ◌>>◌ {ℓ} : {B : Type ℓ} → Result (Unit {0}) → Result B → Result B
m >> k = m >>= λ _. k

unfoldable pub overrides_from : RequestedConfig → Overrides
overrides_from r = record {
  max_iters = r.max_iterations;
  max_tokens = r.max_tokens;
  finish_nudge = r.finish_nudge_window;
  run_timeout = r.run_timeout;
  effort = r.reasoning_effort;
  worktree = r.worktree;
  verify_continue = r.verify_continue;
  auto_verify = r.auto_verify;
  auto_verify_soft = r.auto_verify_soft;
  memory = r.memory;
  boot_context = r.boot_context;
  standing_context = r.standing_context;
  batch_reads = r.batch_reads;
  require_diff = r.require_diff;
  read_window = r.read_window;
  read_outline = r.read_outline;
  churn_nudge_runs = r.churn_nudge_runs;
  nav_spiral_window = r.nav_spiral_window;
  answer_nudge_window = r.answer_nudge_window;
}

abbrev or_trusted : Option Text → Text
or_trusted none = trust_name trusted_local
or_trusted (some s) = s

unfoldable pub selected_trust : RequestedConfig → Result Trust
selected_trust r = elim (parse_trust (or_trusted r.trust_profile)) [
  | none ↦ err (unknown_trust (or_trusted r.trust_profile))
  | some t ↦ ok t
]

abbrev is_off : Network → Bool
is_off network_off = true
is_off _ = false

abbrev tree_text : Worktree → Text
tree_text worktree_auto = codes "auto"
tree_text worktree_required = codes "required"

-- The floor of the trust profile, put into the initial policy.
unfoldable pub seeded : Trust → PolicyValue
unfolding initial_policy
seeded t = record (initial_policy) {
  min_isolation = (floor_for t).min_isolation;
  require_network_off = is_off (floor_for t).network;
  worktree = tree_text (floor_for t).worktree;
}

-- What a resolved profile gives the policy. A window below zero ends in an error before it is read.
unfoldable pub from_exec : Exec → PolicyValue → PolicyValue
from_exec n p = record p {
  max_iterations = n.max_iters;
  max_tokens = n.max_tokens;
  finish_nudge_window = n.finish_nudge;
  run_timeout = n.run_timeout;
  reasoning_effort = n.effort;
  worktree = n.worktree;
  verify_continue = n.verify_continue;
  auto_verify = n.auto_verify;
  auto_verify_soft = n.auto_verify_soft;
  memory = n.memory;
  boot_context = n.boot_context;
  standing_context = n.standing_context;
  batch_reads = n.batch_reads;
  require_diff = n.require_diff;
  read_window = n.read_window;
  read_outline = n.read_outline;
  churn_nudge_runs = n.churn_nudge_runs;
  answer_nudge_window = n.answer_nudge_window;
  termination_policy = record (p.termination_policy) {
    nav_spiral_window = pos_part n.nav_spiral_window;
  };
}

abbrev start_trace : Trust → Trace
start_trace t = record {
  fields = [];
  trust_profile = trust_name t;
  exec_profile = [];
  canonical = true;
}

-- The entries of a profile's trace, which Go copies from a map, in the order of its list.
abbrev from_profile : Profiles.TraceEntry → TraceEntry
from_profile x = record {
  field = x.field;
  source = codes "profile default";
  value = setting x.value;
}

unfoldable pub from_resolved : Exec → Trust → Profiles.Resolved → Result (PolicyValue × Trace)
unfolding seeded from_exec
from_resolved e t (Profiles.Resolved.refused x) = err (profile_error x)
from_resolved e t (Profiles.Resolved.resolved n tr) = ok (
  from_exec n (seeded t),
  record (start_trace t) { fields = map from_profile tr.fields; exec_profile = e.name },
)

unfoldable pub with_exec :
    RequestedConfig → Trust → Option Exec → Text → Result (PolicyValue × Trace)
unfolding from_resolved
with_exec r t none n = err (unknown_exec n)
with_exec r t (some e) n = from_resolved e t (
    Profiles.resolve (record { selected = trust_name t; posture = floor_for t }) e
      (overrides_from r))

abbrev or_empty : Option Text → Text
or_empty none = []
or_empty (some s) = s

unfoldable pub with_profile : RequestedConfig → Trust → Result (PolicyValue × Trace)
unfolding with_exec seeded
with_profile r t =
    let n = or_empty r.exec_profile_name in
    if is_empty n then ok (seeded t, start_trace t) else with_exec r t (exec_by_name n) n

-- `set` on every field, in the policy.
unfoldable pub overlay : RequestedConfig → PolicyValue → PolicyValue
overlay r p = record {
  effective_protocol = given r.effective_protocol p.effective_protocol;
  disable_memory_store = given r.disable_memory_store p.disable_memory_store;
  memory = given r.memory p.memory;
  persona = given r.persona p.persona;
  memory_scope = given r.memory_scope p.memory_scope;
  boot_context = given r.boot_context p.boot_context;
  standing_context = given r.standing_context p.standing_context;
  stream = given r.stream p.stream;
  min_isolation = given r.min_isolation p.min_isolation;
  require_network_off = given r.require_network_off p.require_network_off;
  max_iterations = given r.max_iterations p.max_iterations;
  max_tokens = given r.max_tokens p.max_tokens;
  run_timeout = given r.run_timeout p.run_timeout;
  verify_timeout = given r.verify_timeout p.verify_timeout;
  reasoning_effort = given r.reasoning_effort p.reasoning_effort;
  prompt_profile = given r.prompt_profile p.prompt_profile;
  code_act = given r.code_act p.code_act;
  repro_first = given r.repro_first p.repro_first;
  repro_gate = given r.repro_gate p.repro_gate;
  batch_reads = given r.batch_reads p.batch_reads;
  read_window = given r.read_window p.read_window;
  read_outline = given r.read_outline p.read_outline;
  max_wall_clock = given r.max_wall_clock p.max_wall_clock;
  max_total_tokens = given r.max_total_tokens p.max_total_tokens;
  max_total_cost = given r.max_total_cost p.max_total_cost;
  allow_unpriced_spend = given r.allow_unpriced_spend p.allow_unpriced_spend;
  solver_model = given r.solver_model p.solver_model;
  verify_cmd = given r.verify_cmd p.verify_cmd;
  auto_verify = given r.auto_verify p.auto_verify;
  auto_verify_soft = given r.auto_verify_soft p.auto_verify_soft;
  skip_verify_baseline = given r.skip_verify_baseline p.skip_verify_baseline;
  abort_on_red_baseline = given r.abort_on_red_baseline p.abort_on_red_baseline;
  verify_last_run = given r.verify_last_run p.verify_last_run;
  churn_nudge_runs = given r.churn_nudge_runs p.churn_nudge_runs;
  verify_continue = given r.verify_continue p.verify_continue;
  test_fence = given r.test_fence p.test_fence;
  diff_scope = given r.diff_scope p.diff_scope;
  review_policy = given r.review_policy p.review_policy;
  require_diff = given r.require_diff p.require_diff;
  review_unverified = given r.review_unverified p.review_unverified;
  review_rounds = given r.review_rounds p.review_rounds;
  finish_nudge_window = given r.finish_nudge_window p.finish_nudge_window;
  diagnose_cmd = given r.diagnose_cmd p.diagnose_cmd;
  diagnose_after_edits = given r.diagnose_after_edits p.diagnose_after_edits;
  answer_nudge_window = given r.answer_nudge_window p.answer_nudge_window;
  finish_tool = given r.finish_tool p.finish_tool;
  finish_tool_trusts_caller = given r.finish_tool_trusts_caller p.finish_tool_trusts_caller;
  worktree = given r.worktree p.worktree;
  termination_policy = p.termination_policy;
}

abbrev marked {ℓ} : {A : Type ℓ} → Text → (A → Value) → Option A → List TraceEntry
marked n as_value none = []
marked n as_value (some x) =
    record { field = n; source = codes "override"; value = as_value x } ∷ []

abbrev pub setting_int : ℤ → Value
setting_int n = setting (Setting.int n)

abbrev setting_flag : Bool → Value
setting_flag b = setting (Setting.flag b)

abbrev pub setting_text : Text → Value
setting_text s = setting (Setting.text s)

-- `set` on every field, in the trace.
unfoldable pub marks : RequestedConfig → List TraceEntry
marks r =
    marked (codes "EffectiveProtocol") setting_text r.effective_protocol
    ++ marked (codes "DisableMemoryStore") setting_flag r.disable_memory_store
    ++ marked (codes "Memory") setting_flag r.memory
    ++ marked (codes "Persona") setting_text r.persona
    ++ marked (codes "MemoryScope") scope r.memory_scope
    ++ marked (codes "BootContext") setting_flag r.boot_context
    ++ marked (codes "StandingContext") setting_flag r.standing_context
    ++ marked (codes "Stream") setting_flag r.stream
    ++ marked (codes "MinIsolation") isolation r.min_isolation
    ++ marked (codes "RequireNetworkOff") setting_flag r.require_network_off
    ++ marked (codes "MaxIterations") setting_int r.max_iterations
    ++ marked (codes "MaxTokens") setting_int r.max_tokens
    ++ marked (codes "RunTimeout") setting_int r.run_timeout
    ++ marked (codes "VerifyTimeout") setting_int r.verify_timeout
    ++ marked (codes "ReasoningEffort") setting_text r.reasoning_effort
    ++ marked (codes "PromptProfile") setting_text r.prompt_profile
    ++ marked (codes "CodeAct") setting_flag r.code_act
    ++ marked (codes "ReproFirst") setting_flag r.repro_first
    ++ marked (codes "ReproGate") setting_flag r.repro_gate
    ++ marked (codes "BatchReads") setting_flag r.batch_reads
    ++ marked (codes "ReadWindow") setting_int r.read_window
    ++ marked (codes "ReadOutline") setting_flag r.read_outline
    ++ marked (codes "MaxWallClock") setting_int r.max_wall_clock
    ++ marked (codes "MaxTotalTokens") setting_int r.max_total_tokens
    ++ marked (codes "MaxTotalCostUSD") bits r.max_total_cost
    ++ marked (codes "AllowUnpricedSpend") setting_flag r.allow_unpriced_spend
    ++ marked (codes "SolverModel") setting_text r.solver_model
    ++ marked (codes "VerifyCmd") setting_text r.verify_cmd
    ++ marked (codes "AutoVerify") setting_flag r.auto_verify
    ++ marked (codes "AutoVerifySoft") setting_flag r.auto_verify_soft
    ++ marked (codes "SkipVerifyBaseline") setting_flag r.skip_verify_baseline
    ++ marked (codes "AbortOnRedBaseline") setting_flag r.abort_on_red_baseline
    ++ marked (codes "VerifyLastRun") setting_flag r.verify_last_run
    ++ marked (codes "ChurnNudgeRuns") setting_int r.churn_nudge_runs
    ++ marked (codes "VerifyContinue") setting_flag r.verify_continue
    ++ marked (codes "TestFence") texts r.test_fence
    ++ marked (codes "DiffScope") texts r.diff_scope
    ++ marked (codes "ReviewPolicy") setting_int r.review_policy
    ++ marked (codes "RequireDiff") setting_flag r.require_diff
    ++ marked (codes "ReviewUnverified") setting_flag r.review_unverified
    ++ marked (codes "ReviewRounds") setting_int r.review_rounds
    ++ marked (codes "FinishNudgeWindow") setting_int r.finish_nudge_window
    ++ marked (codes "DiagnoseCmd") setting_text r.diagnose_cmd
    ++ marked (codes "DiagnoseAfterEdits") setting_int r.diagnose_after_edits
    ++ marked (codes "AnswerNudgeWindow") setting_int r.answer_nudge_window
    ++ marked (codes "FinishTool") setting_text r.finish_tool
    ++ marked (codes "FinishToolTrustsCaller") setting_flag r.finish_tool_trusts_caller
    ++ marked (codes "Worktree") setting_text r.worktree

-- `set` on every field, in the trace's flag. The globs are marked without it.
unfoldable pub is_unset : RequestedConfig → Bool
is_unset r =
    is_absent r.effective_protocol
    && is_absent r.disable_memory_store
    && is_absent r.memory
    && is_absent r.persona
    && is_absent r.memory_scope
    && is_absent r.boot_context
    && is_absent r.standing_context
    && is_absent r.stream
    && is_absent r.min_isolation
    && is_absent r.require_network_off
    && is_absent r.max_iterations
    && is_absent r.max_tokens
    && is_absent r.run_timeout
    && is_absent r.verify_timeout
    && is_absent r.reasoning_effort
    && is_absent r.prompt_profile
    && is_absent r.code_act
    && is_absent r.repro_first
    && is_absent r.repro_gate
    && is_absent r.batch_reads
    && is_absent r.read_window
    && is_absent r.read_outline
    && is_absent r.max_wall_clock
    && is_absent r.max_total_tokens
    && is_absent r.max_total_cost
    && is_absent r.allow_unpriced_spend
    && is_absent r.solver_model
    && is_absent r.verify_cmd
    && is_absent r.auto_verify
    && is_absent r.auto_verify_soft
    && is_absent r.skip_verify_baseline
    && is_absent r.abort_on_red_baseline
    && is_absent r.verify_last_run
    && is_absent r.churn_nudge_runs
    && is_absent r.verify_continue
    && is_absent r.review_policy
    && is_absent r.require_diff
    && is_absent r.review_unverified
    && is_absent r.review_rounds
    && is_absent r.finish_nudge_window
    && is_absent r.diagnose_cmd
    && is_absent r.diagnose_after_edits
    && is_absent r.answer_nudge_window
    && is_absent r.finish_tool
    && is_absent r.finish_tool_trusts_caller
    && is_absent r.worktree

abbrev refuse_if : Bool → Text → Option RunspecError → Option RunspecError
refuse_if true n rest = some (out_of_range n)
refuse_if false n rest = rest

unfoldable pub thresholds_error : Option TerminationRequest → Option RunspecError
thresholds_error none = none
thresholds_error (some q) =
    refuse_if (is_negative q.max_repeats) (codes "TerminationPolicy.MaxRepeats") (
      refuse_if (is_negative q.max_reasoning_repeats)
        (codes "TerminationPolicy.MaxReasoningRepeats")
        (refuse_if (is_negative q.max_stagnant) (codes "TerminationPolicy.MaxStagnant") (
          refuse_if (is_negative q.nav_spiral_window) (codes "TerminationPolicy.NavSpiralWindow") (
            refuse_if (is_negative q.wander_multiple) (codes "TerminationPolicy.WanderMultiple") (
              refuse_if (is_negative q.frontier_cap) (codes "TerminationPolicy.FrontierCap") (
                refuse_if (is_negative q.green_repeat_threshold)
                  (codes "TerminationPolicy.GreenRepeatThreshold") none))))))

unfoldable pub window_error : Option ℤ → Option RunspecError
window_error none = none
window_error (some n) = refuse_if (is_negative n) (codes "NavSpiralWindow") none

-- The thresholds that are asked for, once none is negative.
unfoldable pub asked_thresholds : TerminationRequest → TerminationPolicy
asked_thresholds q = record {
  version = q.version;
  max_repeats = pos_part q.max_repeats;
  max_reasoning_repeats = pos_part q.max_reasoning_repeats;
  max_stagnant = pos_part q.max_stagnant;
  nav_spiral_window = pos_part q.nav_spiral_window;
  wander_multiple = pos_part q.wander_multiple;
  frontier_cap = pos_part q.frontier_cap;
  green_repeat_threshold = pos_part q.green_repeat_threshold;
}

unfoldable pub resolved_thresholds :
    Option TerminationRequest → TerminationPolicy → TerminationPolicy
unfolding asked_thresholds
resolved_thresholds none p = resolve_termination (some p)
resolved_thresholds (some q) p = resolve_termination (some (asked_thresholds q))

-- Two windows that are given, positive and not the same.
unfoldable pub windows_conflict : Option ℤ → Option TerminationRequest → Option RunspecError
windows_conflict (some n) (some q) =
    let a = pos_part n in
    let b = pos_part q.nav_spiral_window in
    if ltb 0 a && ltb 0 b && not (a == b) then some window_conflict else none
windows_conflict _ _ = none

abbrev with_window : Option ℤ → TerminationPolicy → TerminationPolicy
with_window none p = p
with_window (some n) p = record p { nav_spiral_window = pos_part n }

-- The posture that the policy gives: the floor's, but for the three fields that a policy can set.
unfoldable pub candidate : Trust → PolicyValue → Posture
candidate t p = record (floor_for t) {
  min_isolation = p.min_isolation;
  network = if p.require_network_off then network_off else network_unrestricted;
  worktree =
      if text_eq p.worktree (codes "required") then worktree_required else (floor_for t).worktree;
}

abbrev pub as_below : Option TrustError → Option RunspecError
as_below none = none
as_below (some x) = some (below_floor x)

unfoldable pub floor_error : Trust → PolicyValue → Option RunspecError
unfolding candidate
floor_error t p = as_below (enforce (trust_name t) (candidate t p))

abbrev unless_given {ℓ} : {A : Type ℓ} → Option A → ℤ → ℤ → ℤ
unless_given o n d = if is_absent o && is_zero n then d else n

abbrev five_minutes : ℕ
five_minutes = 300000000000

-- The last defaults: a zero that was not asked for, the window, and the timeout of the verification.
unfoldable pub verify_timeout_of : ℤ → ℤ → ℤ
verify_timeout_of run n =
    if is_zero n then (if ltb five_minutes (pos_part run) then run else pos five_minutes) else n

unfoldable pub defaulted : RequestedConfig → PolicyValue → PolicyValue
unfolding verify_timeout_of
defaulted r p =
    let run = unless_given r.run_timeout p.run_timeout default_run_timeout in
    record p {
      max_iterations = unless_given r.max_iterations p.max_iterations default_max_iterations;
      max_tokens = unless_given r.max_tokens p.max_tokens default_max_tokens;
      run_timeout = run;
      review_rounds = unless_given r.review_rounds p.review_rounds default_review_rounds;
      termination_policy = record (p.termination_policy) {
        nav_spiral_window =
            if p.termination_policy.nav_spiral_window == 0
            then (default_termination_policy).nav_spiral_window
            else p.termination_policy.nav_spiral_window;
      };
      verify_timeout = verify_timeout_of run p.verify_timeout;
    }

unfoldable pub validate_policy : PolicyValue → Option RunspecError
validate_policy p = refuse_if (is_nonpositive p.max_iterations) (codes "MaxIterations") (
    refuse_if (is_nonpositive p.max_tokens) (codes "MaxTokens") (
      refuse_if (is_nonpositive p.run_timeout) (codes "RunTimeout") (
        refuse_if (is_nonpositive p.verify_timeout) (codes "VerifyTimeout") (
          refuse_if (is_nonpositive p.review_rounds) (codes "ReviewRounds") (
            refuse_if (is_negative p.read_window) (codes "ReadWindow") (
              refuse_if (is_negative p.churn_nudge_runs) (codes "ChurnNudgeRuns") (
                refuse_if (is_negative p.finish_nudge_window) (codes "FinishNudgeWindow") (
                  refuse_if (is_negative p.answer_nudge_window) (codes "AnswerNudgeWindow") (
                    refuse_if (p.termination_policy.nav_spiral_window == 0)
                      (codes "TerminationPolicy.NavSpiralWindow") none)))))))))

-- The policy once it is overlaid, with its thresholds.
unfoldable pub settled : RequestedConfig → PolicyValue → PolicyValue
unfolding overlay resolved_thresholds
settled r p = record (overlay r p) {
  termination_policy =
      with_window r.nav_spiral_window
        (resolved_thresholds r.termination_policy p.termination_policy);
}

-- The policy of a request, behind every check.
unfoldable pub resolve_policy : RequestedConfig → Trust → PolicyValue → Result PolicyValue
unfolding settled defaulted
resolve_policy r t p = do
  raise (thresholds_error r.termination_policy)
  raise (window_error r.nav_spiral_window)
  raise (windows_conflict r.nav_spiral_window r.termination_policy)
  raise (floor_error t (settled r p))
  raise (validate_policy (defaulted r (settled r p)))
  ok (defaulted r (settled r p))

abbrev threshold_marks : Option TerminationRequest → List TraceEntry
threshold_marks = marked (codes "TerminationPolicy") thresholds

abbrev window_marks : Option ℤ → List TraceEntry
window_marks none = []
window_marks (some n) =
    record {
      field = codes "TerminationPolicy.NavSpiralWindow";
      source = codes "alias";
      value = setting_int n;
    }
    ∷ []

unfoldable pub resolve_trace : RequestedConfig → Trust → Trace → Trace
unfolding marks is_unset
resolve_trace r t tr = record tr {
  fields =
      tr.fields
      ++ marks r
      ++ threshold_marks r.termination_policy
      ++ window_marks r.nav_spiral_window
      ++ record {
        field = codes "trust";
        source = codes "floor";
        value = setting_text (trust_name t);
      }
        ∷ [];
  canonical =
      tr.canonical && is_unset r && is_absent r.termination_policy && is_absent r.nav_spiral_window;
}

-- json.Marshal and the hexadecimal SHA-256 of its text, none being an error.
pub record Digests : Type 0 where
  pub of_policy : PolicyValue → Option (Text × Text)
  pub of_trace : Trace → Option (Text × Text)

abbrev or_error {ℓ} : {A : Type ℓ} → Option A → Result A
or_error none = err digest_error
or_error (some x) = ok x

unfoldable pub resolve : Digests → RequestedConfig → Result ResolvedSpec
unfolding resolve_policy resolve_trace with_profile
resolve d r = do
  t ← selected_trust r
  x ← with_profile r t
  p ← resolve_policy r t x.0
  b ← or_error (d.of_policy p)
  let tr = resolve_trace r t x.1
  h ← or_error (d.of_trace tr)
  ok (record { policy = p; canonical = b.0; hash = b.1; trace = tr; trace_hash = h.1 })

-- Complete: the error of a value that Resolve did not make, or of its policy.
unfoldable pub complete : ResolvedSpec → Option RunspecError
complete s = if is_empty s.hash then some incomplete else validate_policy s.policy
