-- ===== src/Agent/Tracker.antt =====
-- agent/tracker.go: the detector and nudge state that both loops share. Counters are natural numbers;
-- a threshold below 1 disables a nudge as 0 does. Notes to the observer leave no state and are left out.
pub mod Nudges
pub mod Settled
pub mod Stagnation
pub mod Records
mod Tests
use driver_os.Base.{
  ℕ, ◌+◌, ◌-◌, Bool, true, false, not, ◌&&◌, ◌||◌, [], ◌++◌, Option, none, some, Text, codes, ltb,
  leb, ◌==◌, if◌then◌else◌, is_empty, text_eq, trim_space, length, drop,
}
use driver_os.Agent.Evidence.{EvidenceStatus, absent}
use driver_os.Agent.Observation.Fingerprint.{run_fingerprint}
use driver_os.Agent.Observation.{
  Cause, no_cause, is_run_failure, is_run_success, is_infra_fault, classify_run_observation,
}
use driver_os.Agent.Policy.{TerminationPolicy}

pub record VerificationRecord : Type 0 where
  pub status : EvidenceStatus
  pub cause : Cause
  pub command : Text
  pub output : Text
  pub fingerprint : Text
  pub tree : Text
  pub attempts : ℕ

abbrev pub no_record : VerificationRecord
no_record = record {
  status = absent;
  cause = no_cause;
  command = [];
  output = [];
  fingerprint = [];
  tree = [];
  attempts = 0;
}

-- The rendering of a number by %d, which is package fmt's.
module _ (show : ℕ → Text) where
  -- The last `cap` runes, with the number of those left out in front.
  unfoldable pub tail_clip : Text → ℕ → Text
  tail_clip s cap =
      let r = trim_space s in
      if leb (length r) cap
      then r
      else codes "...["
        ++ show (length r - cap)
        ++ codes " runes elided]...\n"
        ++ drop (length r - cap) r

  unfoldable pub new_verification_record : Text → Text → Text → VerificationRecord
  new_verification_record cmd obs tree =
      let (status, cause) = classify_run_observation obs in
      record {
        status = status;
        cause = cause;
        command = trim_space cmd;
        output = tail_clip obs 800;
        fingerprint = run_fingerprint obs;
        tree = tree;
        attempts = 1;
      }

-- trackerDeps, without the sandbox and the observer.
pub record TrackerDeps : Type 0 where
  pub verify_cmd : Text
  pub churn_nudge_runs : ℕ
  pub diagnose_cmd : Text
  pub diagnose_after_edits : ℕ
  pub finish_nudge_window : ℕ

pub record TurnTracker : Type 0 where
  pub deps : TrackerDeps
  pub max_iter : ℕ
  pub policy : TerminationPolicy
  pub last_run_fp : Text
  pub stagnant : ℕ
  pub last_run_failed : Bool
  pub last_run_passed : Bool
  pub last_run : VerificationRecord
  pub last_verify : VerificationRecord
  pub fail_runs : ℕ
  pub edits : ℕ
  pub nudged : Bool
  pub edits_since_green : ℕ
  pub last_edit_iter : ℕ
  pub finish_nudged : Bool
  pub last_tool_obs_fp : Text
  pub tool_obs_repeat : ℕ
  pub last_green_fp : Text
  pub green_repeat : ℕ
  pub green_nudged : Bool

unfoldable pub new_turn_tracker : TrackerDeps → ℕ → TerminationPolicy → TurnTracker
new_turn_tracker deps max_iter policy = record {
  deps = deps;
  max_iter = max_iter;
  policy = policy;
  last_run_fp = [];
  stagnant = 0;
  last_run_failed = false;
  last_run_passed = false;
  last_run = no_record;
  last_verify = no_record;
  fail_runs = 0;
  edits = 0;
  nudged = false;
  edits_since_green = 0;
  last_edit_iter = 0;
  finish_nudged = false;
  last_tool_obs_fp = [];
  tool_obs_repeat = 0;
  last_green_fp = [];
  green_repeat = 0;
  green_nudged = false;
}

-- The switch on the stagnation streak.
track_stagnant : TurnTracker → Text → TurnTracker
track_stagnant t fp =
    if not t.last_run_failed
    then record t { stagnant = 0; last_run_fp = [] }
    else if text_eq fp t.last_run_fp
    then record t { stagnant = t.stagnant + 1 }
    else record t { stagnant = 1; last_run_fp = fp }

-- The green-repeat block.
track_green : TurnTracker → Text → TurnTracker
track_green t fp =
    if t.last_run_passed
    then if text_eq fp t.last_green_fp
      then record t { green_repeat = t.green_repeat + 1 }
      else record t { green_repeat = 1; last_green_fp = fp }
    else record t { green_repeat = 0; last_green_fp = [] }

-- The flags, and the reset of the stuck count on green.
read_run : TurnTracker → Text → TurnTracker
read_run t obs =
    let u = record t {
      last_run_failed = is_run_failure obs;
      last_run_passed = is_run_success obs;
    } in
    if is_run_success obs then record u { edits_since_green = 0 } else u

-- The result is the tracker, whether to kill the run, and the count.
pub observe_run : TurnTracker → Text → TurnTracker × Bool × ℕ
observe_run t obs =
    let u = read_run t obs in
    if is_run_failure obs && is_infra_fault obs
    then (record u { last_run_failed = false }, false, u.stagnant)
    else (let v = if u.last_run_failed then record u { fail_runs = u.fail_runs + 1 } else u in
        let w = track_green (track_stagnant v (run_fingerprint obs)) (run_fingerprint obs) in
        (w, leb w.policy.max_stagnant w.stagnant, w.stagnant))

unfoldable pub record_run : (ℕ → Text) → TurnTracker → Text → Text → Text → TurnTracker
record_run show t cmd obs tree =
    let r = new_verification_record show cmd obs tree in
    let verify = trim_space t.deps.verify_cmd in
    if not (is_empty verify) && text_eq r.command verify
    then record t { last_run = r; last_verify = record r { attempts = t.last_verify.attempts + 1 } }
    else record t { last_run = r }

unfoldable pub observe_tool_observation : TurnTracker → Text → TurnTracker × Bool × ℕ
observe_tool_observation t fp =
    if is_empty fp
    then (record t { last_tool_obs_fp = []; tool_obs_repeat = 0 }, false, 0)
    else (let u =
          if text_eq fp t.last_tool_obs_fp
          then record t { tool_obs_repeat = t.tool_obs_repeat + 1 }
          else record t { last_tool_obs_fp = fp; tool_obs_repeat = 1 } in
        (u, leb u.policy.max_reasoning_repeats u.tool_obs_repeat, u.tool_obs_repeat))

-- The result says whether the action mutated a file.
unfoldable pub observe_action : TurnTracker → ℕ → Text → TurnTracker × Bool
observe_action t i verb =
    let edit = text_eq verb (codes "edit_file") in
    let u = if edit then record t { edits = t.edits + 1 } else t in
    if text_eq verb (codes "write_file") || edit
    then (
      record u {
        last_edit_iter = i;
        edits_since_green = u.edits_since_green + 1;
        green_repeat = 0;
      },
      true,
    )
    else (u, false)

unfoldable pub churn_nudge : TurnTracker → TurnTracker × Bool
churn_nudge t =
    if t.nudged || t.deps.churn_nudge_runs == 0
    then (t, false)
    else if leb t.deps.churn_nudge_runs t.fail_runs || leb t.deps.churn_nudge_runs t.edits
    then (record t { nudged = true }, true)
    else (t, false)

-- diagState of agent/verify.go.
pub data DiagState : Type 0 where
  diag_unknown diag_clean diag_dirty : DiagState

-- diagnoseSource of agent/verify.go. `run` is what runOp gives for a command: none if it could not run.
unfoldable pub diagnose_source : Text → (Text → Option Text) → Text × DiagState
diagnose_source cmd run = if is_empty cmd then ([], diag_unknown) else elim (run cmd) [
  | none ↦ ([], diag_unknown)
  | some out ↦ if is_run_failure out then (out, diag_dirty) else ([], diag_clean)
]

unfoldable pub diagnostics_message : Text → Text → Text
diagnostics_message cmd report =
    codes "[diagnostics] your recent edits do not build yet — `"
    ++ cmd
    ++ codes "` reports:\n"
    ++ report
    ++ codes "\nFix these errors and continue. This is informational, not a stop."

-- The switch on the state of the check.
unfoldable feed : TurnTracker → Text × DiagState → TurnTracker × Text
feed t (report, diag_clean) = (record t { edits_since_green = 0 }, [])
feed t (report, diag_dirty) = (t, diagnostics_message t.deps.diagnose_cmd report)
feed t (report, diag_unknown) = (t, [])

-- The check is due.
unfoldable pub is_due : TurnTracker → Bool
is_due t = not (
    is_empty t.deps.diagnose_cmd
    || t.deps.diagnose_after_edits == 0
    || ltb t.edits_since_green t.deps.diagnose_after_edits)

unfoldable pub diagnostics : TurnTracker → (Text → Option Text) → TurnTracker × Text
unfolding feed is_due
diagnostics t run =
    if not (is_due t) then (t, []) else feed t (diagnose_source t.deps.diagnose_cmd run)

-- Subtractions on ℕ: the first is taken below the cap only, and where `last_edit_iter` were above
-- `i` both the Go difference and this one are below a positive window.
unfoldable pub finish_nudge : TurnTracker → ℕ → TurnTracker × Bool
finish_nudge t i =
    let w = t.deps.finish_nudge_window in
    if t.finish_nudged || w == 0 || leb t.max_iter i
    then (t, false)
    else if leb (t.max_iter - i) w && t.last_run_passed && leb w (i - t.last_edit_iter)
    then (record t { finish_nudged = true }, true)
    else (t, false)

unfoldable pub green_repeat_nudge : TurnTracker → TurnTracker × Bool
green_repeat_nudge t =
    if t.green_nudged
    then (t, false)
    else if leb t.policy.green_repeat_threshold t.green_repeat
    then (record t { green_nudged = true }, true)
    else (t, false)

unfoldable pub repeat_threshold : TerminationPolicy → Bool → ℕ
repeat_threshold policy reasoning_advanced =
    if reasoning_advanced then policy.max_reasoning_repeats else policy.max_repeats
