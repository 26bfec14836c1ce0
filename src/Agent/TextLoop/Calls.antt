-- ===== src/Agent/TextLoop/Calls.antt =====
-- agent/loop_text.go: the part of a turn that calls a tool, behind its detectors.
pub mod Good
use driver_os.Base.{
  ℕ, zero, suc, ◌+◌, ◌-◌, Bool, true, false, not, ◌&&◌, ◌||◌, List, [], ◌∷◌, ◌++◌, Option, none,
  some, Text, codes, ltb, leb, ◌==◌, if◌then◌else◌, is_empty, text_eq, trim_space,
}
use driver_os.Agent.Outcome.{
  Outcome, answered, hit_cap, killed_repeat, killed_spiral, killed_stagnant, hit_deadline,
  hit_budget, canceled,
}
use driver_os.Agent.Evidence.{mutation, is_mutating_tool}
use driver_os.Agent.Tracker.{
  TurnTracker, observe_run, observe_action, is_due, diagnostics, churn_nudge, green_repeat_nudge,
  finish_nudge, observe_tool_observation, repeat_threshold,
}
use driver_os.Agent.Spiral.{
  SpiralState, SpiralKillKind, kill_none, kill_cycle, kill_wander, observe_discovery_turn, reset,
}
use driver_os.Agent.Spend.{add}
use driver_os.Agent.Gates.{World, Gates}
use driver_os.Agent.Gates.Finish.{
  Reviews, FinishInput, Decision, continue_with, stop_with, answered_with, finish,
}
use driver_os.Agent.Gates.Rescue.{RunResult, upgrade_if_verified}
use driver_os.Agent.TextLoop.{
  Message, user, assistant, Response, Failure, Generated, replied, broke, Outside, LoopPolicy, Step,
  LoopState, no_result, ended, add_usage, text_discovery_target, is_discovery, is_read_only,
  is_error, signature, stub, on_wire, escalating_repeat_nudge, dispatch,
}
use driver_os.Agent.TextLoop.Budget.{
  Budget, within, within_unpriced, over_budget, unpriceable, dollar_budget_stop, set_unpriced,
  classify_generate_err,
}

-- How a turn ends a run: with the result as it stands, or with one that upgradeIfVerified may change.
pub data Exit : Type 0 where
  closed rescuable : RunResult → Exit

pub data Turn {ℓ ℓ'} (W : Type ℓ) (D : Type ℓ') : Type (ℓ ⊔ ℓ') where
  going : LoopState D → W → Turn W D
  ending : Exit → LoopState D → W → Turn W D

abbrev pub churn_nudge_text : Text
churn_nudge_text =
    codes
      "\n\n[hint: the tests have failed several times. If you've been making incremental edits, stop and rewrite the whole file in ONE write_file with a complete, correct implementation — that is usually faster than chasing line-by-line edits, and avoids line-number drift.]"

abbrev pub green_repeat_nudge_text : Text
green_repeat_nudge_text =
    codes
      "\n\n[harness: the same command has now passed 3 times with no file changes in between — re-running it gains nothing; either finish (answer) or take a genuinely new action.]"

abbrev pub finish_nudge_text : Text
finish_nudge_text =
    codes
      "\n\n[hint: your last build/test run passed and you haven't edited any files for several turns — the task may already be complete. If it is, FINISH NOW with `answer <one-line summary of what you did>`. If something still remains, say what and keep working.]"

abbrev hint : Bool → Text → Text
hint said text = if said then text else []

abbrev pub nudge_messages : Text → List Message
nudge_messages nudge = if is_empty nudge then [] else user nudge ∷ []

abbrev pub with_step {ℓ} : {D : Type ℓ} → LoopState D → ℕ → Text → Text → Text → Bool → LoopState D
with_step s i verb arg observation grounded = record s {
  steps =
      s.steps
      ++ record { iter = i; verb = verb; arg = arg; observation = observation; grounded = grounded }
        ∷ [];
}

module _ {ℓ ℓ'} {W : Type ℓ} {D : Type ℓ'} (world : World W) (out : Outside W D)
    (pol : LoopPolicy D) where
  -- The end of a turn with a tool call that no detector killed: nudges, the wire's stub, the messages.
  unfoldable pub recorded :
      ℕ → Text → Text → Text → Text → LoopState D → W → TurnTracker × Bool × ℕ → Turn W D
  recorded i verb arg raw seen s w (t, true, count) =
      ending
        (rescuable (
          ended killed_repeat (
            codes "no progress: repeated "
            ++ world.quoted (signature verb arg)
            ++ codes " "
            ++ world.show count
            ++ codes " times")))
        (with_step (record s { tracker = t }) i verb arg seen s.grounded) w
  recorded i verb arg raw seen s w (t, false, count) =
      let (k, firsts) = stub out.hash s.seen raw i in
      let observation = on_wire world.show k raw seen in
      let u =
        with_step (record s { tracker = t; seen = firsts }) i verb arg observation s.grounded in
      going
        (record u {
          messages =
              s.messages
              ++ user (codes "OBSERVATION:\n" ++ observation)
                ∷ nudge_messages (escalating_repeat_nudge count);
        })
        w

  unfoldable pub nudged : ℕ → Text → Text → Text → LoopState D → W → Turn W D
  unfolding recorded
  nudged i verb arg raw s w =
      let (t, changed) = observe_action s.tracker i verb in
      let (ran, v) =
        if changed && is_due t then out.diagnose t.deps.diagnose_cmd w else (none, w) in
      let (t₁, report) = if changed then diagnostics t (λ c. ran) else (t, []) in
      let seen = raw ++ (if is_empty report then [] else codes "\n\n" ++ report) in
      let (t₂, churn) = churn_nudge t₁ in
      let (t₃, green) = green_repeat_nudge t₂ in
      let (t₄, near) = finish_nudge t₃ i in
      recorded i verb arg raw
        (seen
          ++ hint churn churn_nudge_text
          ++ hint green green_repeat_nudge_text
          ++ hint near finish_nudge_text)
        s v (observe_tool_observation t₄ (signature verb arg ++ codes "\nOBSERVATION:\n" ++ seen))

  -- Behind the stagnation detector.
  unfoldable pub stalled :
      ℕ → Text → Text → Text → LoopState D → W → TurnTracker × Bool × ℕ → Turn W D
  unfolding nudged
  stalled i verb arg raw s w (t, true, count) =
      ending
        (rescuable (
          ended killed_stagnant (
            codes "no progress: the same command failure recurred "
            ++ world.show count
            ++ codes
                " times despite changing actions — the approach is stuck; change strategy or rewrite the file")))
        (with_step (record s { tracker = t }) i verb arg raw s.grounded) w
  stalled i verb arg raw s w (t, false, count) = nudged i verb arg raw (record s { tracker = t }) w

  abbrev pub with_observed : Text → Text → LoopState D → LoopState D
  with_observed verb raw s = record s {
    gates = record (s.gates) {
      ev = if is_mutating_tool verb && not (is_error raw) then mutation s.gates.ev else s.gates.ev;
    };
    grounded = s.grounded || not (is_error raw);
  }

  -- What the run saw, and whether the workspace may have changed.
  unfoldable pub observed : ℕ → Text → Text → Text → LoopState D → W → Turn W D
  unfolding stalled
  observed i verb arg raw s w =
      let u = with_observed verb raw s in
      if text_eq verb (codes "run")
      then stalled i verb arg raw u w (observe_run u.tracker raw)
      else nudged i verb arg raw u w

  abbrev pub with_read : Text → Text → Text → LoopState D → LoopState D
  with_read verb arg raw s = record s {
    last_executed_sig = signature verb arg;
    last_read_sig =
        if is_read_only verb && not (is_error raw) then signature verb arg else s.last_read_sig;
    last_read_obs = if is_read_only verb && not (is_error raw) then raw else s.last_read_obs;
  }

  unfoldable pub dispatched : ℕ → Text → Text → LoopState D → Text × W → Turn W D
  unfolding observed
  dispatched i verb arg s (raw, w) = observed i verb arg raw (with_read verb arg raw s) w

  -- A read that was just made, without new reasoning, is not made again.
  unfoldable pub executed : ℕ → Text → Text → Bool → LoopState D → W → Turn W D
  unfolding dispatched
  executed i verb arg moved s w =
      let sig = signature verb arg in
      if is_read_only verb
        && text_eq sig s.last_read_sig
        && text_eq sig s.last_executed_sig
        && not moved
      then observed i verb arg
          (codes "(skipped: identical to your previous read; result unchanged) " ++ s.last_read_obs)
          s w
      else dispatched i verb arg s (dispatch out verb arg w)

  -- Behind the detector of discovery turns.
  unfoldable pub explored :
      ℕ → Text → Text → Bool → LoopState D → W → SpiralState × SpiralKillKind × Text → Turn W D
  unfolding executed
  explored i verb arg moved s w (sp, kill_none, why) =
      executed i verb arg moved (record s { spiral = sp }) w
  explored i verb arg moved s w (sp, _, why) =
      ending (rescuable (ended killed_spiral why))
        (with_step (record s { spiral = sp }) i verb arg
          (codes "harness: run killed by explore-spiral detector: " ++ why) false)
        w

  unfoldable pub spiraled : ℕ → Text → Text → Bool → LoopState D → W → Turn W D
  unfolding explored
  spiraled i verb arg moved s w =
      if is_discovery verb
      then explored i verb arg moved s w
          (observe_discovery_turn world.show s.spiral (text_discovery_target verb arg ∷ []))
      else executed i verb arg moved (record s { spiral = reset s.spiral }) w

  -- The same action again, against the threshold that the reasoning earns.
  unfoldable pub acted : ℕ → Text → Text → Bool → LoopState D → W → Turn W D
  unfolding spiraled
  acted i verb arg moved s w =
      let same = text_eq (signature verb arg) s.last_action in
      let count = if same then s.repeats + 1 else 0 in
      if same && leb (repeat_threshold pol.termination moved) count
      then ending
          (rescuable (
            ended killed_repeat (
              codes "no progress: repeated "
              ++ world.quoted s.last_action
              ++ codes " "
              ++ world.show count
              ++ codes " times")))
          (with_step (record s { repeats = count }) i verb arg [] false) w
      else spiraled i verb arg moved
          (record s { repeats = count; last_action = signature verb arg }) w
