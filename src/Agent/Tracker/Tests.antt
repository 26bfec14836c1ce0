-- ===== src/Agent/Tracker/Tests.antt =====
-- The detectors and nudges at a short run.
use driver_os.Base.{
  ℕ, ◌+◌, ◌≤◌, ◌≡◌, refl, arith, true, ◌&&◌, List, [], ◌∷◌, Text, codes, leb, text_eq, has_prefix,
  has_code, before,
}
use driver_os.Agent.Observation.Fingerprint.{run_fingerprint}
use driver_os.Agent.Policy.{default_termination_policy}
use driver_os.Agent.Observation.{is_run_failure, is_run_success}
use driver_os.Agent.Tracker.{
  TrackerDeps, TurnTracker, new_turn_tracker, observe_run, read_run, track_stagnant, track_green,
  observe_action, finish_nudge,
}
use driver_os.Agent.Tracker.Nudges.{
  Op, run_seen, acted, finish, churn, green, apply, run_ops, count, is_churned, is_finished,
  is_greened, bit, nudges_once,
}
use driver_os.Agent.Tracker.Settled.{after_ops}
use driver_os.Agent.Tracker.Stagnation.{real_failure, streak, after_runs, observe_run-streak}
use driver_os.Agent.Tracker.Records.{Run}

abbrev digits : ℕ → Text
digits n = codes "4"

abbrev deps : TrackerDeps
deps = record {
  verify_cmd = codes "go test ./...";
  churn_nudge_runs = 3;
  diagnose_cmd = [];
  diagnose_after_edits = 0;
  finish_nudge_window = 4;
}

abbrev red : Text
red = codes "exit 1 (took 0.31s)\n--- FAIL: TestQueue"

abbrev green_obs : Text
green_obs = codes "exit 0 (took 0.2s)"

abbrev started : TurnTracker
started = new_turn_tracker deps 10 default_termination_policy

abbrev ops : List Op
ops = acted 1 (codes "edit_file") ∷ run_seen green_obs ∷ []

abbrev runs : List Run
runs =
    record { cmd = codes "ls"; obs = codes "exit 0"; tree = codes "t2" }
    ∷ record { cmd = codes " go test ./... "; obs = red; tree = codes "t1" }
    ∷ []

observe_run-streak_example :
    let t = after_runs deps 10 default_termination_policy (red ∷ red ∷ []) in
    ((observe_run t red).2 ≡ streak (red ∷ red ∷ red ∷ []))
    × ((observe_run t red).1 ≡ (real_failure red && leb 3 (streak (red ∷ red ∷ red ∷ []))))
observe_run-streak_example =
    observe_run-streak deps 10 default_termination_policy (red ∷ red ∷ []) red (omega arith)

nudges_once_example :
    let os = churn ∷ finish 8 ∷ run_seen red ∷ green ∷ finish 9 ∷ [] in
    let fired = (run_ops digits started os).1 in
    (count is_churned fired + bit started.nudged ≤ 1)
    × (count is_finished fired + bit started.finish_nudged ≤ 1)
    × (count is_greened fired + bit started.green_nudged ≤ 1)
nudges_once_example =
    nudges_once digits started (churn ∷ finish 8 ∷ run_seen red ∷ green ∷ finish 9 ∷ [])

settled_fires : (finish_nudge (after_ops digits deps 10 default_termination_policy ops) 7).1 ≡ true
unfolding finish_nudge run_ops apply observe_run read_run track_stagnant track_green observe_action
    new_turn_tracker is_run_failure is_run_success has_prefix text_eq run_fingerprint has_code
    before
settled_fires = refl
