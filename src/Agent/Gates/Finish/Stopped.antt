-- ===== src/Agent/Gates/Finish/Stopped.antt =====
-- The outcomes with which the gates stop a run.
use driver_os.Base.{◌≡◌, ◌+◌, ◌++◌, codes, arith, Bool, false, Text}
use driver_os.Agent.Outcome.{Outcome}
use driver_os.Agent.Gates.{
  World, Gates, Verdict, verify_safety, require_diff_failure, tree_or_empty,
}
use driver_os.Agent.Gates.Completion.{
  baseline_failure, hard_failure, soft_failure, verify_completion_failure, settled, verified,
  unchanged_completion, verify_completion, verify_termination, named, verify_finish,
}
use driver_os.Agent.Gates.Finish.{
  Reviews, FinishInput, stop_with, stop_reviewed, reviewed, answer_stage, repro_stage,
  verdict_stage, finish,
}
use driver_os.Agent.Gates.Rescue.Upgraded.{is_answered}

baseline_failure-unanswered :
    (g : Gates) (reason out : Text) → is_answered (baseline_failure g reason out).0.outcome ≡ false
unfolding baseline_failure
baseline_failure-unanswered g reason out = ground arith

hard_failure-unanswered :
    (g : Gates) (reason out : Text) → is_answered (hard_failure g reason out).0.outcome ≡ false
unfolding hard_failure
hard_failure-unanswered g reason out = ground (arith, baseline_failure-unanswered g reason out)

verify_completion_failure-unanswered :
    (g : Gates) (reason out : Text)
    → is_answered (verify_completion_failure g reason out).0.outcome ≡ false
unfolding verify_completion_failure soft_failure
verify_completion_failure-unanswered g reason out = ground (
  arith,
  hard_failure-unanswered g reason out,
  hard_failure-unanswered (record g { auto_verify_feedback = g.auto_verify_feedback + 1 }) reason
      out,
)

module _ {ℓ} {W : Type ℓ} (world : World W) (reviews : Reviews W) where
  verify_safety-unanswered :
      (g : Gates) (w : W) → is_answered (verify_safety world g w).outcome ≡ false
  unfolding verify_safety
  verify_safety-unanswered g w = ground arith

  require_diff_failure-unanswered :
      (g : Gates) (w : W) → is_answered (require_diff_failure world g w).outcome ≡ false
  unfolding require_diff_failure
  require_diff_failure-unanswered g w = ground arith

  settled-unanswered :
      (tree : Text) (x : (Text × Text) × Gates × W)
      → is_answered (settled world tree x).0.outcome ≡ false
  unfolding settled
  settled-unanswered tree ((reason, out), g, w) = verify_completion_failure-unanswered _ reason out

  unchanged_completion-unanswered :
      (g : Gates) (w : W) → is_answered (unchanged_completion world g w).0.outcome ≡ false
  unfolding unchanged_completion
  unchanged_completion-unanswered g w = ground (
    arith,
    verify_completion_failure-unanswered g
        (named world g ++ codes " did not pass:\n" ++ g.verify_baseline_out) g.verify_baseline_out,
  )

  verify_completion-unanswered :
      (g : Gates) (last : Bool) (w : W)
      → is_answered (verify_completion world g last w).0.outcome ≡ false
  unfolding verify_completion verified
  verify_completion-unanswered g last w = ground (
    arith,
    require_diff_failure-unanswered g w,
    unchanged_completion-unanswered g w,
    settled-unanswered (tree_or_empty (world.write_tree w)) (verify_termination world g last w),
  )

  verify_finish-unanswered :
      (g : Gates) (last trusted : Bool) (w : W)
      → is_answered (verify_finish world g last trusted w).0.outcome ≡ false
  unfolding verify_finish
  verify_finish-unanswered g last trusted w = ground (
    arith,
    verify_safety-unanswered g w,
    require_diff_failure-unanswered g w,
    verify_completion-unanswered g last w,
  )

  answer_stage-unanswered :
      (i : FinishInput) (g : Gates) (w : W) (o : Outcome) (r a : Text)
      → (answer_stage world reviews i g w).0 ≡ stop_with o r a
      → is_answered o ≡ false
  unfolding answer_stage stop_reviewed reviewed
  answer_stage-unanswered i g w o r a e = ground arith

  repro_stage-unanswered :
      (i : FinishInput) (g : Gates) (x : (Text × Text) × W) (o : Outcome) (r a : Text)
      → (repro_stage world reviews i g x).0 ≡ stop_with o r a
      → is_answered o ≡ false
  unfolding repro_stage stop_reviewed
  repro_stage-unanswered i g ((fb, detail), w) o r a e =
      ground (arith, answer_stage-unanswered i g w o r a)

  verdict_stage-unanswered :
      (i : FinishInput) (v : Verdict) (g : Gates) (w : W) (o : Outcome) (r a : Text)
      → is_answered v.outcome ≡ false
      → (verdict_stage world reviews i (v, g, w)).0 ≡ stop_with o r a
      → is_answered o ≡ false
  unfolding verdict_stage stop_reviewed
  verdict_stage-unanswered i v g w o r a n e =
      ground (arith, n, repro_stage-unanswered i g (reviews.repro_finish w) o r a)

  -- A finish that stops the run never stops it as answered.
  pub finish-unanswered :
      (i : FinishInput) (g : Gates) (w : W) (o : Outcome) (r a : Text)
      → (finish world reviews i g w).0 ≡ stop_with o r a
      → is_answered o ≡ false
  unfolding finish
  finish-unanswered i g w o r a e =
      let x = verify_finish world g i.last_run_failed i.trusted w in
      verdict_stage-unanswered i x.0 x.1 x.2 o r a
        (verify_finish-unanswered g i.last_run_failed i.trusted w) e
