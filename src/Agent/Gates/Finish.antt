-- ===== src/Agent/Gates/Finish.antt =====
-- agent/finish.go, and upgradeIfVerified and the standalone check of agent/gate.go: the stages composed.
pub mod Answered
pub mod Stopped
use driver_os.Base.{
  ℕ, ◌+◌, Bool, true, false, not, ◌&&◌, ◌||◌, List, [], ◌∷◌, ◌++◌, Option, none, some, Text, codes,
  ltb, ◌==◌, if◌then◌else◌, is_empty, text_eq, trim_space,
}
use driver_os.Agent.Outcome.{Outcome, no_outcome, answered, unverified, scope_violation, canceled}
use driver_os.Agent.Observation.{is_run_failure, is_run_timeout, infra_fault_signature}
use driver_os.Agent.Gates.{
  World, Gates, Verdict, Run, skipped, errored, output, verify_run, scope_check, fence_check,
  tree_or_empty, require_diff_failure, capture_closing_verification,
}
use driver_os.Agent.Gates.Completion.{verify_finish, verify_termination}

-- The gates that finish calls behind the verification: reproFinish (feedback and detail), reviewFinish
-- (feedback and the reason to block, from whether the run can continue) and reviewUnverified.
pub record Reviews {ℓ} (W : Type ℓ) : Type ℓ where
  pub repro_finish : W → (Text × Text) × W
  pub review_finish : Bool → Gates → W → (Text × Text) × Gates × W
  pub review_unverified : Gates → W → Gates × W

-- finishInput, without what only words a note or goes to the memory store.
pub record FinishInput : Type 0 where
  pub answer : Text
  pub last_run_failed : Bool
  pub can_continue : Bool
  pub trusted : Bool
  pub verify_continue_phrase : Text

-- finishDecision: the kind with the fields that it sets.
pub data Decision : Type 0 where
  continue_with : Text → Decision
  stop_with : Outcome → Text → Text → Decision
  answered_with : Text → Decision

abbrev pub is_scope_violation : Outcome → Bool
is_scope_violation scope_violation = true
is_scope_violation _ = false

module _ {ℓ} {W : Type ℓ} (world : World W) (reviews : Reviews W) where
  -- The run is over, unverified, behind a salvage review.
  unfoldable pub stop_reviewed : Outcome → Text → Text → Gates → W → Decision × Gates × W
  stop_reviewed o reason answer g w =
      let (h, v) = reviews.review_unverified g w in (stop_with o reason answer, h, v)

  unfoldable pub reviewed : FinishInput → (Text × Text) × Gates × W → Decision × Gates × W
  reviewed i ((fb, block), g, w) =
      if not (is_empty fb)
      then (continue_with (codes "OBSERVATION:\n" ++ fb), g, w)
      else if not (is_empty block)
      then (stop_with unverified block i.answer, g, w)
      else (answered_with i.answer, g, w)

  unfoldable pub answer_stage : FinishInput → Gates → W → Decision × Gates × W
  answer_stage i g w =
      if is_empty (trim_space i.answer)
      then stop_reviewed unverified
          (codes "empty final answer — the model stopped without producing an answer") i.answer g w
      else if not i.trusted
      then reviewed i (reviews.review_finish i.can_continue g w)
      else (answered_with i.answer, g, w)

  unfoldable pub repro_stage : FinishInput → Gates → (Text × Text) × W → Decision × Gates × W
  repro_stage i g ((fb, detail), w) =
      if not (is_empty fb)
      then (if i.can_continue && (text_eq detail (codes "repro_missing") || g.verify_continue)
          then (
            continue_with (
                codes "OBSERVATION:\nNot finished — "
                ++ fb
                ++ codes "\nKeep working: satisfy the repro-first gate before answering."),
            g,
            w,
          )
          else stop_reviewed unverified detail i.answer g w)
      else answer_stage i g w

  unfoldable pub verdict_stage : FinishInput → Verdict × Gates × W → Decision × Gates × W
  verdict_stage i (v, g, w) =
      if is_scope_violation v.outcome
      then (stop_with scope_violation v.reason [], g, w)
      else if world.canceled w
      then (stop_with canceled (codes "run canceled by the caller (interrupt)") [], g, w)
      else if not (is_empty v.reason) && g.verify_continue && i.can_continue && not v.no_continue
      then (
        continue_with (
            codes "OBSERVATION:\nNot finished — "
            ++ i.verify_continue_phrase
            ++ codes ", but the task is not verified:\n"
            ++ v.reason
            ++ codes "\nKeep working: fix the code and re-run until it passes."),
        g,
        w,
      )
      else if not (is_empty v.reason)
      then stop_reviewed v.outcome v.reason i.answer g w
      else repro_stage i g (reviews.repro_finish w)

  unfoldable pub finish : FinishInput → Gates → W → Decision × Gates × W
  finish i g w = verdict_stage i (verify_finish world g i.last_run_failed i.trusted w)
