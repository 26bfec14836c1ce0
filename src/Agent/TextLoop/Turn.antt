-- ===== src/Agent/TextLoop/Turn.antt =====
-- agent/loop_text.go: one turn of the text loop, and the loop over the turns that are left.
pub mod Good
pub mod Answered
pub mod Numbered
use driver_os.Base.{
  ℕ, zero, suc, ◌+◌, ◌-◌, Bool, true, false, not, ◌&&◌, ◌||◌, List, [], ◌∷◌, ◌++◌, Option, none,
  some, Text, codes, ltb, leb, ◌==◌, if◌then◌else◌, is_empty, text_eq, trim_space,
}
use driver_os.Agent.Outcome.{
  Outcome, answered, hit_cap, killed_repeat, killed_spiral, killed_stagnant, hit_deadline,
  hit_budget, canceled,
}
use driver_os.Agent.Evidence.{mutation, is_mutating_tool}
use driver_os.Agent.Tracker.{
  TurnTracker, observe_run, observe_action, diagnostics, churn_nudge, green_repeat_nudge,
  finish_nudge, observe_tool_observation, repeat_threshold,
}
use driver_os.Agent.Spiral.{
  SpiralState, SpiralKillKind, kill_none, kill_cycle, kill_wander, observe_discovery_turn, reset,
}
use driver_os.Agent.Spend.{add}
use driver_os.Agent.Gates.{World, Gates}
use driver_os.Agent.Gates.Finish.{
  Reviews, FinishInput, Decision, continue_with, stop_with, answered_with, finish,
}
use driver_os.Agent.Gates.Rescue.{RunResult, upgrade_if_verified}
use driver_os.Agent.TextLoop.{
  Message, user, assistant, Response, Failure, Generated, replied, broke, Outside, LoopPolicy, Step,
  LoopState, no_result, ended, add_usage, text_discovery_target, is_discovery, is_read_only,
  is_error, signature, stub, on_wire, escalating_repeat_nudge, dispatch,
}
use driver_os.Agent.TextLoop.Calls.{Exit, closed, rescuable, Turn, going, ending, with_step, acted}
use driver_os.Agent.TextLoop.Action.{parse_action}
use driver_os.Agent.TextLoop.Budget.{
  Budget, within, within_unpriced, over_budget, unpriceable, dollar_budget_stop, set_unpriced,
  classify_generate_err,
}

abbrev pub is_canceled_outcome : Outcome → Bool
is_canceled_outcome canceled = true
is_canceled_outcome _ = false

module _ {ℓ ℓ'} {W : Type ℓ} {D : Type ℓ'} (world : World W) (reviews : Reviews W)
    (outcome_text : Outcome → Text) (out : Outside W D) (pol : LoopPolicy D) where
  -- What the gates decided about an answer.
  unfoldable pub decided : LoopState D → Decision × Gates × W → Turn W D
  decided s (continue_with feedback, g, w) =
      going (record s { gates = g; messages = s.messages ++ user feedback ∷ [] }) w
  decided s (stop_with o why a, g, w) =
      ending (closed (record (ended o why) { answer = a })) (record s { gates = g }) w
  decided s (answered_with a, g, w) =
      ending (closed (record (ended answered []) { answer = a })) (record s { gates = g }) w

  abbrev pub finish_input : ℕ → Text → LoopState D → FinishInput
  finish_input i arg s = record {
    answer = arg;
    last_run_failed = s.tracker.last_run_failed;
    can_continue = ltb i pol.max_iter;
    trusted = false;
    verify_continue_phrase = codes "you answered";
  }

  -- The action of a reply.
  unfoldable pub parsed : ℕ → Bool → LoopState D → W → Text × Text → Turn W D
  unfolding acted decided
  parsed i moved s w (verb, arg) =
      if text_eq verb (codes "answer")
      then decided (with_step s i verb arg [] s.grounded)
          (finish world reviews (finish_input i arg s) s.gates w)
      else acted world out pol i verb arg moved s w

  unfoldable pub failed_turn : Outcome × Text × Bool → LoopState D → W → Turn W D
  failed_turn (o, why, is_fault) s w =
      if is_fault || is_canceled_outcome o
      then ending (closed (ended o why)) s w
      else ending (rescuable (ended o why)) s w

  unfoldable pub generated : ℕ → LoopState D → Generated D × W → Turn W D
  unfolding parsed failed_turn
  generated i s (broke f ms, w) =
      failed_turn
        (classify_generate_err out.wall_clock_text pol.has_wall_clock (out.expired w)
          (world.canceled w) f)
        (record s { messages = ms }) w
  generated i s (replied r ms, w) =
      let reply = trim_space r.text in
      parsed i (not (is_empty r.reasoning) && not (text_eq r.reasoning s.last_reasoning))
        (record s {
          messages = ms ++ assistant reply ∷ [];
          last_reasoning = r.reasoning;
          iterations = i;
          usage = add_usage out.plus s.usage r.usage;
          spend = add out.zero_usd out.plus s.spend pol.solver_model r.usage;
        })
        w (parse_action out.decode reply out.tool_names)

  unfoldable pub over_dollars : Bool → ℕ → LoopState D → W → Turn W D
  over_dollars is_priced i s w =
      ending (rescuable (ended hit_budget (out.cost_reason is_priced (i - 1)))) s w

  unfoldable pub affordable : ℕ → LoopState D → W → Budget → Turn W D
  unfolding generated over_dollars
  affordable i s w within = generated i s (out.generate s.messages w)
  affordable i s w within_unpriced =
      generated i (record s { gates = record (s.gates) { ev = set_unpriced s.gates.ev } })
        (out.generate s.messages w)
  affordable i s w over_budget = over_dollars true i s w
  affordable i s w unpriceable = over_dollars false i s w

  -- One turn, with its checks at the boundary.
  unfoldable pub turn : ℕ → LoopState D → W → Turn W D
  unfolding affordable
  turn i s w =
      if world.canceled w
      then ending (closed (ended canceled (codes "run canceled by the caller (interrupt)")))
          (record s { iterations = i - 1 }) w
      else if pol.has_wall_clock && out.overdue w
      then ending
          (rescuable (
            ended hit_deadline (
              codes "hit wall-clock budget ("
              ++ out.wall_clock_text
              ++ codes ") after "
              ++ world.show (i - 1)
              ++ codes " turn(s)")))
          s w
      else if not (pol.max_total_tokens == 0) && leb pol.max_total_tokens s.usage.total_tokens
      then ending
          (rescuable (
            ended hit_budget (
              codes "hit token budget ("
              ++ world.show s.usage.total_tokens
              ++ codes " total tokens >= cap "
              ++ world.show pol.max_total_tokens
              ++ codes ") after "
              ++ world.show (i - 1)
              ++ codes " turn(s)")))
          s w
      else affordable i s w (
          dollar_budget_stop out.zero_usd out.plus out.at_least pol.max_total_cost
            pol.allow_unpriced out.cost_fn s.spend s.usage)

  abbrev pub with_gates : LoopState D → RunResult × Gates × W → RunResult × LoopState D × W
  with_gates s (res, g, w) = (res, record s { gates = g }, w)

  unfoldable pub concluded : Exit → LoopState D → W → RunResult × LoopState D × W
  concluded (closed res) s w = (res, s, w)
  concluded (rescuable res) s w =
      with_gates s (upgrade_if_verified world reviews outcome_text res s.gates w)

  abbrev pub after :
      Turn W D → (LoopState D → W → RunResult × LoopState D × W) → RunResult × LoopState D × W
  after (going s w) more = more s w
  after (ending x s w) more = concluded x s w

  -- The turns that are left, from turn `i` on.
  unfoldable pub turns : ℕ → ℕ → LoopState D → W → RunResult × LoopState D × W
  unfolding turn concluded
  turns zero i s w =
      concluded
        (rescuable (
          ended hit_cap (
            codes "hit iteration cap (" ++ world.show pol.max_iter ++ codes ") without an answer")))
        s w
  turns (suc n) i s w = after (turn i s w) (λ u v. turns n (i + 1) u v)

  unfoldable pub text_loop : LoopState D → W → RunResult × LoopState D × W
  unfolding turns
  text_loop s w = turns pol.max_iter 1 s w
