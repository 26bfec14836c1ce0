-- ===== src/Agent/Gates/Completion.antt =====
-- agent/verify.go and agent/gate.go: the verification at a finish, and what becomes of a failure.
pub mod Runs
pub mod Confirmed
pub mod Feedback
use driver_os.Base.{
  ℕ, ◌+◌, Bool, true, false, not, ◌&&◌, ◌||◌, List, [], ◌∷◌, ◌++◌, Option, none, some, Text, codes,
  ltb, ◌==◌, if◌then◌else◌, is_empty, text_eq, contains,
}
use driver_os.Agent.Outcome.{Outcome, no_outcome, unverified, scope_violation}
use driver_os.Agent.Observation.{
  is_run_failure, is_run_timeout, is_infra_fault, infra_fault_signature,
}
use driver_os.Agent.Observation.Fingerprint.{run_fingerprint}
use driver_os.Agent.Gates.{
  World, Gates, Verdict, clean_verdict, verdict, Run, skipped, errored, output, verify_run,
  verify_safety, is_tree, require_diff_failure, capture_closing_verification, tree_or_empty,
}

abbrev pub auto_verify_max_feedback : ℕ
auto_verify_max_feedback = 2

-- verifyCompletionFailure: the verdict and what the gates then hold.
unfoldable pub with_signature : Gates → Text → Gates
with_signature g out =
    let sig = infra_fault_signature out in
    if is_empty sig then g else record g { verify_infra_signature = sig }

unfoldable pub baseline_failure : Gates → Text → Text → Verdict × Gates
baseline_failure g reason out =
    let noted =
      reason
      ++ codes
          " note: the verify command was ALREADY failing before any changes were made (pre-existing red baseline — the gate may be unsatisfiable)" in
    if g.verify_baseline_red && contains reason (codes "did not pass:")
    then (if not (is_empty out)
          && text_eq (run_fingerprint out) (run_fingerprint g.verify_baseline_out)
        then (
          verdict unverified noted g.baseline_grace_used,
          record g { baseline_grace_used = true },
        )
        else (verdict unverified noted false, g))
    else (verdict unverified reason false, g)

unfoldable pub hard_failure : Gates → Text → Text → Verdict × Gates
hard_failure g reason out =
    if not g.auto_verify_soft && is_run_timeout out
    then (verdict unverified reason true, g)
    else if is_infra_fault out
    then (verdict unverified reason true, with_signature g out)
    else baseline_failure g reason out

-- The failure was counted.
unfoldable pub soft_failure : Gates → Text → Text → Verdict × Gates
soft_failure g reason out =
    if ltb auto_verify_max_feedback g.auto_verify_feedback || is_infra_fault out
    then (clean_verdict, with_signature g out)
    else hard_failure g reason out

unfoldable pub verify_completion_failure : Gates → Text → Text → Verdict × Gates
verify_completion_failure g reason out =
    if is_empty reason
    then (clean_verdict, g)
    else if g.auto_verify_soft
    then soft_failure (record g { auto_verify_feedback = g.auto_verify_feedback + 1 }) reason out
    else hard_failure g reason out

module _ {ℓ} {W : Type ℓ} (world : World W) where
  -- The command, as it starts every reason.
  abbrev pub named : Gates → Text
  named g = codes "verification command " ++ world.quoted g.cmd

  -- The reason and the output of a command that ran.
  unfoldable pub reason_of : Gates → Text → Text
  reason_of g out =
      if is_run_failure out
      then (if is_run_timeout out
          then named g
            ++ codes " was INCONCLUSIVE (timed out after "
            ++ world.timeout_text
            ++ codes " — raise -verify-timeout):\n"
            ++ out
          else if not (is_empty (infra_fault_signature out))
          then named g
            ++ codes " was INCONCLUSIVE (environment fault: "
            ++ infra_fault_signature out
            ++ codes " — disk quota / no space / OOM, not a code failure; retried once):\n"
            ++ out
          else named g ++ codes " did not pass:\n" ++ out)
      else []

  unfoldable pub concluded : Text → Gates → W → (Text × Text) × Gates × W
  concluded out g w = ((reason_of g out, out), g, w)

  unfoldable pub retried : Text → Run × Gates × W → (Text × Text) × Gates × W
  retried out (output retry, g, w) = concluded retry g w
  retried out (skipped, g, w) = concluded out g w
  retried out (errored, g, w) = concluded out g w

  unfoldable pub first_run : Run × Gates × W → (Text × Text) × Gates × W
  first_run (skipped, g, w) = (
    (
      codes "run canceled before verification command "
          ++ world.quoted g.cmd
          ++ codes " could confirm success",
      [],
    ),
    g,
    w,
  )
  first_run (errored, g, w) = ((codes "could not run " ++ named g, []), g, w)
  first_run (output out, g, w) =
      let again = retried out (verify_run world g w) in
      if is_run_failure out && not (is_run_timeout out) && is_infra_fault out
      then again
      else concluded out g w

  -- verifyTermination of agent/verify.go: the reason why not, and the output.
  unfoldable pub verify_termination : Gates → Bool → W → (Text × Text) × Gates × W
  verify_termination g last_run_failed w =
      if not (is_empty g.cmd)
      then first_run (verify_run world g w)
      else if g.verify_last_run && last_run_failed
      then (
        (
          codes
              "the most recent command run was still failing and nothing succeeded after it — the task does not look complete",
          [],
        ),
        g,
        w,
      )
      else (([], []), g, w)

  abbrev pub paired : Verdict × Gates → W → Verdict × Gates × W
  paired (v, g) w = (v, g, w)

  -- The end of verifyCompletion, from what verifyTermination gave.
  unfoldable pub settled : Text → (Text × Text) × Gates × W → Verdict × Gates × W
  settled tree ((reason, out), g, w) =
      let h =
        if is_empty reason && not (is_empty g.cmd)
        then capture_closing_verification world g out tree
        else g in
      paired (verify_completion_failure h reason out) w

  unfoldable pub verified : Gates → Bool → W → Verdict × Gates × W
  verified g last_run_failed w =
      settled (tree_or_empty (world.write_tree w)) (verify_termination g last_run_failed w)

  -- The tree is the one that the run started from.
  unfoldable pub unchanged_completion : Gates → W → Verdict × Gates × W
  unchanged_completion g w =
      if g.auto_verify_soft && not g.verify_baseline_measured
      then (clean_verdict, g, w)
      else if not g.verify_baseline_red
      then (clean_verdict, g, w)
      else paired
          (verify_completion_failure g
            (named g ++ codes " did not pass:\n" ++ g.verify_baseline_out) g.verify_baseline_out)
          w

  -- Whether the baseline can stand in for a run of the command.
  unfoldable pub knows_baseline : Gates → W → Bool
  knows_baseline g w =
      not (is_empty g.run_base_tree)
      && (g.auto_verify_soft || (not g.skip_verify_baseline && g.verify_baseline_measured))
      && is_tree (world.write_tree w) g.run_base_tree

  unfoldable pub verify_completion : Gates → Bool → W → Verdict × Gates × W
  verify_completion g last_run_failed w =
      let d = require_diff_failure world g w in
      if not (is_empty d.reason)
      then (d, g, w)
      else if knows_baseline g w
      then unchanged_completion g w
      else verified g last_run_failed w

  unfoldable pub verify_finish : Gates → Bool → Bool → W → Verdict × Gates × W
  verify_finish g last_run_failed trusted w =
      let s = verify_safety world g w in
      if not (is_empty s.reason)
      then (s, g, w)
      else if trusted
      then (require_diff_failure world g w, g, w)
      else verify_completion g last_run_failed w
