-- ===== src/Agent/Gates/Rescue.antt =====
-- upgradeIfVerified of agent/gate.go: the exit of a run that was killed, capped or out of budget.
pub mod Upgraded
use driver_os.Base.{
  ℕ, ◌+◌, Bool, true, false, not, ◌&&◌, ◌||◌, List, [], ◌∷◌, ◌++◌, Option, none, some, Text, codes,
  ltb, ◌==◌, if◌then◌else◌, is_empty, text_eq, trim_space,
}
use driver_os.Agent.Outcome.{Outcome, no_outcome, answered, unverified, scope_violation}
use driver_os.Agent.Observation.{is_run_failure, infra_fault_signature}
use driver_os.Agent.Gates.{
  World, Gates, Verdict, Run, skipped, errored, output, verify_run, scope_check, fence_check,
  tree_or_empty, require_diff_failure, capture_closing_verification,
}
use driver_os.Agent.Gates.Finish.{Reviews}

-- The fields of RunResult that the upgrade reads or writes; `no_outcome` is the zero of RescuedFrom.
pub record RunResult : Type 0 where
  pub outcome : Outcome
  pub reason : Text
  pub answer : Text
  pub rescued_from : Outcome
  pub verify_infra_signature : Text
  pub verify_infra : Bool

unfoldable pub append_reason : Text → Text → Text
append_reason existing extra = if is_empty existing then extra else existing ++ codes "; " ++ extra

module _ {ℓ} {W : Type ℓ} (world : World W) (reviews : Reviews W) where
  -- The text of an outcome, which is its value in Go, is a parameter of the wording.
  module _ (outcome_text : Outcome → Text) where
    unfoldable pub rescued : RunResult → Gates → RunResult
    rescued res g = record {
      outcome = answered;
      reason =
          codes "completed despite "
          ++ outcome_text res.outcome
          ++ codes " — "
          ++ world.quoted g.cmd
          ++ codes " passed";
      answer =
          if is_empty res.answer
          then codes "task verified complete (" ++ world.quoted g.cmd ++ codes " passed)"
          else res.answer;
      rescued_from = res.outcome;
      verify_infra_signature = res.verify_infra_signature;
      verify_infra = res.verify_infra;
    }

    unfoldable pub after_review : RunResult → (Text × Text) × Gates × W → RunResult × Gates × W
    after_review res ((fb, block), g, w) =
        if not (is_empty block) then (res, g, w) else (rescued res g, g, w)

    abbrev pub with_salvage : RunResult → Gates × W → RunResult × Gates × W
    with_salvage res (g, w) = (res, g, w)

    unfoldable pub after_repro : RunResult → Gates → (Text × Text) × W → RunResult × Gates × W
    after_repro res g ((fb, detail), w) =
        if not (is_empty fb)
        then with_salvage (record res { outcome = unverified; reason = detail })
            (reviews.review_unverified g w)
        else after_review res (reviews.review_finish false g w)

    -- The command passed with this output.
    unfoldable pub green : RunResult → Text → Text → Gates → W → RunResult × Gates × W
    green res tree out g w =
        after_repro res (capture_closing_verification world g out tree) (reviews.repro_finish w)

    abbrev pub inconclusive_result : RunResult → Text → RunResult
    inconclusive_result res sig = record res {
      reason =
          res.reason
          ++ codes "; verification inconclusive due to environment fault ("
          ++ sig
          ++ codes ")";
      verify_infra_signature = sig;
      verify_infra = not (is_empty sig);
    }

    -- The second run, behind an environment fault in the first.
    unfoldable pub second_run : RunResult → Text → Text → Run × Gates × W → RunResult × Gates × W
    second_run res tree sig (skipped, g, w) = (inconclusive_result res sig, g, w)
    second_run res tree sig (errored, g, w) = (inconclusive_result res sig, g, w)
    second_run res tree sig (output out, g, w) =
        let sig2 = infra_fault_signature out in
        if not (is_run_failure out)
        then green res tree out (record g { verify_infra_signature = [] }) w
        else if not (is_empty sig2)
        then with_salvage (inconclusive_result res sig2)
            (reviews.review_unverified (record g { verify_infra_signature = sig2 }) w)
        else with_salvage res (reviews.review_unverified g w)

    unfoldable pub first_upgrade_run : RunResult → Text → Run × Gates × W → RunResult × Gates × W
    first_upgrade_run res tree (skipped, g, w) = (res, g, w)
    first_upgrade_run res tree (errored, g, w) = (res, g, w)
    first_upgrade_run res tree (output out, g, w) =
        let sig = infra_fault_signature out in
        let h = record g { verify_infra_signature = sig } in
        if not (is_run_failure out)
        then green res tree out g w
        else if not (is_empty sig)
        then second_run res tree sig (verify_run world h w)
        else with_salvage res (reviews.review_unverified g w)

    -- The tree before the run of the command, where the run start left one to compare.
    abbrev pub pre_verify_tree : Gates → W → Text
    pre_verify_tree g w =
        if is_empty g.run_base_tree then [] else tree_or_empty (world.write_tree w)

    unfoldable pub upgrade_run : RunResult → Gates → W → RunResult × Gates × W
    upgrade_run res g w =
        let tree = pre_verify_tree g w in
        if not (is_empty g.run_base_tree) && text_eq tree g.run_base_tree
        then (
          record res {
            reason =
                codes
                  "verify passed but the run changed nothing — refusing upgrade (baseline was already green): "
                ++ world.quoted g.cmd
                ++ codes " passed";
          },
          g,
          w,
        )
        else first_upgrade_run res tree (verify_run world g w)

    unfoldable pub upgrade_if_verified : RunResult → Gates → W → RunResult × Gates × W
    upgrade_if_verified res g w =
        let s = scope_check world g w in
        let d = require_diff_failure world g w in
        let f = fence_check world g w in
        if not (is_empty s.reason)
        then (if s.unverifiable
            then (
              record res {
                reason = append_reason res.reason (codes "upgrade refused — " ++ s.reason);
              },
              g,
              w,
            )
            else (record res { outcome = scope_violation; reason = s.reason }, g, w))
        else if not (is_empty d.reason)
        then (record res { outcome = d.outcome; reason = d.reason }, g, w)
        else if is_empty g.cmd
        then (res, g, w)
        else if not (is_empty f.reason)
        then (
          record res { reason = append_reason res.reason (codes "upgrade refused — " ++ f.reason) },
          g,
          w,
        )
        else upgrade_run res g w
