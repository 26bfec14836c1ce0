-- ===== src/Agent/Gates/Tests.antt =====
-- The gates in a world that counts the runs of the verification command.
use driver_os.Base.{
  ℕ, ◌+◌, ◌≤◌, ◌≡◌, ◌⊎◌, refl, true, false, not, ◌&&◌, [], ◌∷◌, none, some, Text, codes, is_empty,
  text_eq, has_prefix, contains, trim_space, text_eq_refl, before,
}
use driver_os.Agent.Evidence.{absent}
use driver_os.Agent.Outcome.{Outcome, no_outcome, hit_cap}
use driver_os.Agent.Observation.{
  is_run_failure, is_run_timeout, is_infra_fault, infra_fault_signature,
}
use driver_os.Agent.Observation.Fingerprint.{run_fingerprint}
use driver_os.Agent.Gates.{
  World, Gates, finished_run, verify_run, verify_safety, scope_check, fence_check,
  require_diff_failure,
}
use driver_os.Agent.Gates.Completion.{
  reason_of, concluded, first_run, verify_termination, settled, verified, knows_baseline,
  verify_completion, verify_finish, verify_completion_failure,
}
use driver_os.Agent.Gates.Completion.Confirmed.{Confirmed}
use driver_os.Agent.Gates.Completion.Feedback.{Failure, IsBaseline, rejections, rejections-bounded}
use driver_os.Agent.Gates.Finish.{
  Reviews, FinishInput, answered_with, reviewed, answer_stage, repro_stage, verdict_stage, finish,
}
use driver_os.Agent.Gates.Finish.Answered.{finish-Confirmed}
use driver_os.Agent.Gates.Check.{checked_review, checked_verify, gate_check, gate_check-passed}
use driver_os.Agent.Gates.Measured.{checks_of, IsMeasured, verify_termination-IsMeasured}
use driver_os.Agent.Gates.Completion.Runs.{Ran}
use driver_os.Agent.Gates.Rescue.{
  RunResult, rescued, after_review, after_repro, green, first_upgrade_run, pre_verify_tree,
  upgrade_run, upgrade_if_verified,
}
use driver_os.Agent.Gates.Rescue.Upgraded.{is_answered, Rescued, upgrade_if_verified-Rescued}

abbrev world : World ℕ
world = record {
  canceled = λ w. false;
  run_command = λ cmd w. (some (codes "exit 0 (took 0.2s)\nok"), w + 1);
  write_tree = λ w. some (codes "t1");
  diff_tree_names = λ a b w. some (codes "a.go" ∷ []);
  fence_violation = λ w. some [];
  normal = λ p. p;
  matches_scope = λ p. true;
  quoted = λ s. s;
  timeout_text = codes "2m0s";
  show = λ n. codes "9";
}

abbrev reviews : Reviews ℕ
reviews = record {
  repro_finish = λ w. (([], []), w);
  review_finish = λ b g w. (([], []), g, w);
  review_unverified = λ g w. (g, w);
}

abbrev gates : Gates
gates = record {
  cmd = codes "go test ./...";
  verify_last_run = false;
  verify_continue = true;
  auto_verify_soft = false;
  skip_verify_baseline = false;
  require_diff = false;
  fence = true;
  scope = none;
  globs = [];
  run_base_tree = codes "t0";
  verify_baseline_red = false;
  verify_baseline_out = [];
  verify_baseline_measured = true;
  verify_infra_signature = [];
  baseline_grace_used = false;
  auto_verify_feedback = 0;
  closing_verification = none;
  closing_verify_gen = 0;
  ev = none;
}

abbrev input : FinishInput
input = record {
  answer = codes "done";
  last_run_failed = false;
  can_continue = true;
  trusted = false;
  verify_continue_phrase = codes "you answered";
}

completion_clean : is_empty (verify_completion world gates false 0).0.reason ≡ true
unfolding verify_completion require_diff_failure knows_baseline verified settled verify_termination
    first_run verify_run finished_run concluded reason_of is_run_failure text_eq has_prefix
    verify_completion_failure
completion_clean = refl

finish_answers : (finish world reviews input gates 0).0 ≡ answered_with (codes "done")
unfolding finish verdict_stage repro_stage answer_stage reviewed verify_finish verify_safety
    fence_check scope_check verify_completion require_diff_failure knows_baseline verified settled
    verify_termination first_run verify_run finished_run concluded reason_of is_run_failure text_eq
    has_prefix verify_completion_failure trim_space
finish_answers = refl

finish-Confirmed_example :
    (is_empty (fence_check world gates 0).reason ≡ true)
    × (is_empty (scope_check world gates 0).reason ≡ true)
    × (((knows_baseline world gates 0 ≡ true) × (gates.verify_baseline_red ≡ false))
        ⊎ Confirmed world gates (verify_completion world gates false 0).1 (codes "t1"))
finish-Confirmed_example =
    finish-Confirmed world reviews input gates 0 (codes "done") refl refl refl finish_answers

abbrev name_of : Outcome → Text
name_of o = codes "hit-cap"

abbrev capped : RunResult
capped = record {
  outcome = hit_cap;
  reason = codes "cap";
  answer = [];
  rescued_from = no_outcome;
  verify_infra_signature = [];
  verify_infra = false;
}

capped_upgraded :
    is_answered (upgrade_if_verified world reviews name_of capped gates 0).0.outcome ≡ true
unfolding upgrade_if_verified upgrade_run first_upgrade_run green after_repro after_review rescued
    scope_check fence_check require_diff_failure verify_run finished_run is_run_failure text_eq
    has_prefix
capped_upgraded = refl

upgrade_if_verified-Rescued_example :
    (is_empty (scope_check world gates 0).reason ≡ true)
    × (is_empty (fence_check world gates 0).reason ≡ true)
    × (is_empty gates.cmd ≡ false)
    × ((not (is_empty gates.run_base_tree)
          && text_eq (pre_verify_tree world reviews name_of gates 0) gates.run_base_tree)
        ≡ false)
    × Rescued world reviews name_of gates capped
        (upgrade_if_verified world reviews name_of capped gates 0).0
upgrade_if_verified-Rescued_example =
    upgrade_if_verified-Rescued world reviews name_of gates capped 0 refl capped_upgraded

abbrev red : Text
red = codes "exit 1 (took 0.2s)\n--- FAIL: TestQueue"

abbrev failure : Failure
failure = record { reason = codes "verification command did not pass:\n"; out = red }

rejections-bounded_example :
    rejections (record gates { auto_verify_soft = true }) (failure ∷ failure ∷ failure ∷ []) ≤ 2
rejections-bounded_example =
    rejections-bounded (record gates { auto_verify_soft = true }) (failure ∷ failure ∷ failure ∷ [])
      refl

abbrev red_gates : Gates
red_gates = record gates { verify_baseline_red = true; verify_baseline_out = red }

failure-IsBaseline : IsBaseline red failure
unfolding is_run_timeout is_infra_fault infra_fault_signature contains has_prefix text_eq before
failure-IsBaseline = record {
  not_timeout = refl;
  not_fault = refl;
  did_not_pass = refl;
  not_empty = refl;
  same = text_eq_refl (run_fingerprint red);
}

check_passes : (gate_check world reviews gates 0).0.blocked ≡ false
unfolding gate_check checked_verify checked_review fence_check verify_termination first_run
    verify_run finished_run concluded reason_of is_run_failure text_eq has_prefix
check_passes = refl

gate_check-passed_example :
    let x = verify_termination world gates false 0 in
    (is_empty (fence_check world gates 0).reason ≡ true)
    × (Ran world gates x.0.1 × (is_run_failure x.0.1 ≡ false))
    × (is_empty (reviews.review_finish false x.1 x.2).0.1 ≡ true)
gate_check-passed_example = gate_check-passed world reviews gates 0 refl check_passes

-- A log that is open to the closing checks.
abbrev logging : Gates
logging = record gates {
  ev = some (record {
    verify = [];
    mut_gen = 1;
    isolation = absent;
    observed_isolation = [];
    observed_network = none;
    verify_configured = true;
    review_configured = false;
    cost_configured = false;
    verify_command = codes "go test ./...";
    closing_ready = true;
    unpriced = false;
    root = [];
    base_tree = [];
    reviewed_gen = 0;
    review_reached = false;
  });
}

verify_termination-IsMeasured_example :
    IsMeasured world logging.cmd (checks_of logging.ev) (verify_termination world logging false 0).1
verify_termination-IsMeasured_example = verify_termination-IsMeasured world logging false 0
