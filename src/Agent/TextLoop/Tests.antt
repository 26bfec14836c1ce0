-- ===== src/Agent/TextLoop/Tests.antt =====
-- Runs of the text loop in a world that counts the calls of the model: it writes a file and answers.
use driver_os.Base.{
  split, before, after, ℕ, ◌+◌, ◌≡◌, refl, true, false, [], ◌∷◌, none, some, Text, codes, ◌==◌,
  if◌then◌else◌, text_eq, has_prefix, trim_space,
}
use driver_os.Agent.Outcome.{Outcome}
use driver_os.Agent.Observation.{is_run_failure}
use driver_os.Agent.Policy.{default_termination_policy}
use driver_os.Agent.Tracker.{
  TurnTracker, new_turn_tracker, observe_action, is_due, diagnostics, churn_nudge,
  green_repeat_nudge, finish_nudge, observe_tool_observation,
}
use driver_os.Agent.Spiral.{new_spiral_state, reset}
use driver_os.Agent.Spend.{Usage, add}
use driver_os.Agent.Gates.{
  World, Gates, finished_run, verify_run, verify_safety, scope_check, fence_check,
  require_diff_failure,
}
use driver_os.Agent.Gates.Completion.{
  reason_of, concluded, first_run, verify_termination, settled, verified, knows_baseline,
  verify_completion, verify_finish, verify_completion_failure,
}
use driver_os.Agent.Gates.Finish.{
  Reviews, reviewed, answer_stage, repro_stage, verdict_stage, finish,
}
use driver_os.Agent.Gates.Rescue.{RunResult}
use driver_os.Agent.Gates.Rescue.Upgraded.{is_answered}
use driver_os.Agent.TextLoop.{
  replied, ToolOutput, output, Outside, LoopPolicy, LoopState, dispatch, stub, on_wire, add_usage,
}
use driver_os.Agent.TextLoop.Action.{parse_action}
use driver_os.Agent.TextLoop.Budget.{dollar_budget_stop}
use driver_os.Agent.TextLoop.Calls.{
  recorded, nudged, observed, dispatched, executed, spiraled, acted,
}
use driver_os.Agent.TextLoop.Turn.{turn, turns, affordable, generated, parsed, decided, text_loop}
use driver_os.Agent.TextLoop.Turn.Answered.{IsBacked, text_loop-IsBacked}
use driver_os.Agent.TextLoop.Turn.Numbered.{IsNumbered, text_loop-IsNumbered}

abbrev world : World ℕ
world = record {
  canceled = λ w. false;
  run_command = λ cmd w. (some (codes "exit 0 (took 0.2s)\nok"), w);
  write_tree = λ w. some (codes "t1");
  diff_tree_names = λ a b w. some (codes "a.go" ∷ []);
  fence_violation = λ w. some [];
  normal = λ p. p;
  matches_scope = λ p. true;
  quoted = λ s. s;
  timeout_text = codes "2m0s";
  show = λ n. codes "9";
}

abbrev reviews : Reviews ℕ
reviews = record {
  repro_finish = λ w. (([], []), w);
  review_finish = λ b g w. (([], []), g, w);
  review_unverified = λ g w. (g, w);
}

abbrev gates : Gates
gates = record {
  cmd = codes "go test ./...";
  verify_last_run = false;
  verify_continue = true;
  auto_verify_soft = false;
  skip_verify_baseline = false;
  require_diff = false;
  fence = true;
  scope = none;
  globs = [];
  run_base_tree = codes "t0";
  verify_baseline_red = false;
  verify_baseline_out = [];
  verify_baseline_measured = true;
  verify_infra_signature = [];
  baseline_grace_used = false;
  auto_verify_feedback = 0;
  closing_verification = none;
  closing_verify_gen = 0;
  ev = none;
}

abbrev usage : Usage ℕ
usage = record {
  prompt_tokens = 10;
  completion_tokens = 2;
  total_tokens = 12;
  cached_tokens = 0;
  reasoning_tokens = 0;
  cost = 0;
}

abbrev zero_usage : Usage ℕ
zero_usage = record {
  prompt_tokens = 0;
  completion_tokens = 0;
  total_tokens = 0;
  cached_tokens = 0;
  reasoning_tokens = 0;
  cost = 0;
}

-- The action of a call: the first writes a file.
abbrev said : ℕ → Text
said w = if w == 0 then codes "write_file x" else codes "answer x"

abbrev tool_write : Text → ℕ → ToolOutput × ℕ
tool_write arg w = (output (codes "ok"), w)

abbrev outside : Outside ℕ ℕ
outside = record {
  overdue = λ w. false;
  expired = λ w. false;
  generate = λ ms w. (replied (record { text = said w; reasoning = []; usage = usage }) ms, w + 1);
  tool = λ name. some tool_write;
  tool_names = codes "write_file" ∷ [];
  diagnose = λ c w. (none, w);
  hash = λ s. s;
  truncate = λ s. s;
  decode = λ line. none;
  wall_clock_text = codes "1m0s";
  cost_reason = λ p i. [];
  zero_usd = 0;
  plus = λ a b. a + b;
  at_least = λ a b. false;
  cost_fn = none;
}

abbrev policy : ℕ → LoopPolicy ℕ
policy n = record {
  max_iter = n;
  has_wall_clock = false;
  max_total_tokens = 1000;
  max_total_cost = none;
  allow_unpriced = false;
  solver_model = codes "m";
  termination = default_termination_policy;
}

abbrev tracker : ℕ → TurnTracker
tracker n =
    new_turn_tracker
      (record {
        verify_cmd = codes "go test ./...";
        churn_nudge_runs = 0;
        diagnose_cmd = [];
        diagnose_after_edits = 0;
        finish_nudge_window = 0;
      })
      n default_termination_policy

abbrev start : ℕ → LoopState ℕ
start n = record {
  messages = [];
  last_action = [];
  last_read_sig = [];
  last_read_obs = [];
  last_executed_sig = [];
  seen = [];
  repeats = 0;
  spiral = new_spiral_state default_termination_policy none;
  last_reasoning = [];
  tracker = tracker n;
  grounded = false;
  usage = zero_usage;
  spend = none;
  gates = gates;
  steps = [];
  iterations = 0;
}

abbrev outcome_text : Outcome → Text
outcome_text o = codes "cap"

abbrev finished : ℕ → RunResult × LoopState ℕ × ℕ
finished n = text_loop world reviews outcome_text outside (policy n) (start n) 0

text_loop_answers : is_answered (finished 2).0.outcome ≡ true
unfolding text_loop turns turn affordable generated parsed parse_action split before after decided
    acted spiraled executed dispatched observed nudged recorded dollar_budget_stop dispatch
    observe_action is_due diagnostics reset new_turn_tracker churn_nudge green_repeat_nudge
    finish_nudge observe_tool_observation stub on_wire add_usage add finish verdict_stage
    repro_stage answer_stage reviewed verify_finish verify_safety fence_check scope_check
    verify_completion require_diff_failure knows_baseline verified settled verify_termination
    first_run verify_run finished_run concluded reason_of is_run_failure text_eq has_prefix
    verify_completion_failure trim_space
text_loop_answers = refl

text_loop-IsBacked_example :
    IsBacked world reviews outcome_text outside
      (policy 2)
      (finished 2).0
      (finished 2).1.gates
      (finished 2).2
text_loop-IsBacked_example =
    text_loop-IsBacked world reviews outcome_text outside (policy 2) (start 2) 0 (finished 2).0
      (finished 2).1 (finished 2).2 refl refl text_loop_answers

text_loop-IsNumbered_example :
    IsNumbered world reviews outcome_text outside (policy 2) (start 2) 0 (finished 2).1
text_loop-IsNumbered_example =
    text_loop-IsNumbered world reviews outcome_text outside (policy 2) (start 2) 0 refl refl
