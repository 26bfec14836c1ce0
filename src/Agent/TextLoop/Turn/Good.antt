-- ===== src/Agent/TextLoop/Turn/Good.antt =====
-- The results with which a turn can end a run, and what it adds to the trace.
use driver_os.Base.{
  ℕ, ◌+◌, ◌-◌, ◌≡◌, inl, inr, refl, ap, arith, Bool, false, not, ◌&&◌, ◌||◌, ◌==◌, List, [], ◌∷◌,
  ◌++◌, Text, codes, text_eq, trim_space, leb, Bool-cases,
}
use driver_os.Agent.Outcome.{Outcome}
use driver_os.Agent.Spend.{add}
use driver_os.Agent.Gates.{World, Gates}
use driver_os.Agent.Gates.Finish.{
  Reviews, FinishInput, Decision, continue_with, stop_with, answered_with, finish,
}
use driver_os.Agent.Gates.Finish.Stopped.{finish-unanswered}
use driver_os.Agent.Gates.Rescue.Upgraded.{is_answered}
use driver_os.Agent.TextLoop.{
  Failure, Generated, replied, broke, assistant, add_usage, Outside, LoopPolicy, Step, LoopState,
}
use driver_os.Agent.TextLoop.Action.{parse_action}
use driver_os.Agent.TextLoop.Budget.{
  Budget, within, within_unpriced, over_budget, unpriceable, set_unpriced, classify_generate_err,
}
use driver_os.Agent.TextLoop.Calls.{with_step}
use driver_os.Agent.TextLoop.Turn.{
  is_canceled_outcome, finish_input, decided, parsed, failed_turn, generated, over_dollars,
  affordable, turn,
}
use driver_os.Agent.TextLoop.Calls.Good.{
  IsNext, accepted, unanswered, to_rescue, IsGood, goes_on, ends, acted-IsGood,
}

module _ {ℓ ℓ'} {W : Type ℓ} {D : Type ℓ'} (world : World W) (reviews : Reviews W)
    (outcome_text : Outcome → Text) (out : Outside W D) (pol : LoopPolicy D) where
  -- What the gates decide, on a state with the turn's step.
  decided-IsGood :
      (i : ℕ) (steps : List Step) (f : FinishInput) (s : LoopState D) (g : Gates) (w : W)
      (x : Decision × Gates × W)
      → IsNext i steps s.steps
      → s.iterations ≡ i
      → f.trusted ≡ false
      → finish world reviews f g w ≡ x
      → IsGood world reviews outcome_text out pol i steps
          (decided world reviews outcome_text out pol s x)
  unfolding decided
  decided-IsGood i steps f s g w (continue_with fb, k, v) n h t e = goes_on _ v n h
  decided-IsGood i steps f s g w (stop_with o why a, k, v) n h t e =
      ends _ _ v (unanswered _ (finish-unanswered world reviews f g w o why a (ap (λ x. x.0) e)))
        (inr (n, h))
  decided-IsGood i steps f s g w (answered_with a, k, v) n h t e =
      ends _ _ v (accepted f g w a t e) (inr (n, h))

  parsed-IsGood :
      (i : ℕ) (moved : Bool) (s : LoopState D) (w : W) (x : Text × Text)
      → s.iterations ≡ i
      → IsGood world reviews outcome_text out pol i s.steps
          (parsed world reviews outcome_text out pol i moved s w x)
  unfolding parsed
  parsed-IsGood i moved s w (verb, arg) h =
      let f = finish_input world reviews outcome_text out pol i arg s in
      elim (Bool-cases (text_eq verb (codes "answer"))) [
        | inl e ↦ rw e (
            decided-IsGood i s.steps f (with_step s i verb arg [] s.grounded) s.gates w
              (finish world reviews f s.gates w) (_, refl, refl) h refl refl)
        | inr e ↦ rw e (acted-IsGood world reviews outcome_text out pol i verb arg moved s w h)
      ]

  classify_generate_err-unanswered :
      (text : Text) (wall expired stopped : Bool) (f : Failure)
      → is_answered (classify_generate_err text wall expired stopped f).0 ≡ false
  unfolding classify_generate_err
  classify_generate_err-unanswered text wall expired stopped f = ground arith

  failed_turn-IsGood :
      (i : ℕ) (x : Outcome × Text × Bool) (s : LoopState D) (w : W)
      → is_answered x.0 ≡ false
      → s.iterations + 1 ≡ i
      → IsGood world reviews outcome_text out pol i s.steps
          (failed_turn world reviews outcome_text out pol x s w)
  unfolding failed_turn
  failed_turn-IsGood i (o, why, is_fault) s w n h =
      elim (Bool-cases (is_fault || is_canceled_outcome o)) [
        | inl e ↦ rw e (ends _ s w (unanswered _ n) (inl (refl, h)))
        | inr e ↦ rw e (ends _ s w (to_rescue _ n) (inl (refl, h)))
      ]

  generated-IsGood :
      (i : ℕ) (s : LoopState D) (x : Generated D × W)
      → s.iterations + 1 ≡ i
      → IsGood world reviews outcome_text out pol i s.steps
          (generated world reviews outcome_text out pol i s x)
  unfolding generated
  generated-IsGood i s (broke f ms, w) h =
      failed_turn-IsGood i _ (record s { messages = ms }) w
        (classify_generate_err-unanswered out.wall_clock_text pol.has_wall_clock (out.expired w)
          (world.canceled w) f)
        h
  generated-IsGood i s (replied r ms, w) h =
      parsed-IsGood i _
        (record s {
          messages = ms ++ assistant (trim_space r.text) ∷ [];
          last_reasoning = r.reasoning;
          iterations = i;
          usage = add_usage out.plus s.usage r.usage;
          spend = add out.zero_usd out.plus s.spend pol.solver_model r.usage;
        })
        w (parse_action out.decode (trim_space r.text) out.tool_names) refl

  affordable-IsGood :
      (i : ℕ) (s : LoopState D) (w : W) (b : Budget)
      → s.iterations + 1 ≡ i
      → IsGood world reviews outcome_text out pol i s.steps
          (affordable world reviews outcome_text out pol i s w b)
  unfolding affordable over_dollars
  affordable-IsGood i s w within h = generated-IsGood i s (out.generate s.messages w) h
  affordable-IsGood i s w within_unpriced h =
      generated-IsGood i (record s { gates = record (s.gates) { ev = set_unpriced s.gates.ev } })
        (out.generate s.messages w) h
  affordable-IsGood i s w over_budget h = ends _ s w (to_rescue _ refl) (inl (refl, h))
  affordable-IsGood i s w unpriceable h = ends _ s w (to_rescue _ refl) (inl (refl, h))

  below-add : (n i : ℕ) → n + 1 ≡ i → i - 1 + 1 ≡ i
  below-add n i h = omega arith

  pub turn-IsGood :
      (i : ℕ) (s : LoopState D) (w : W)
      → s.iterations + 1 ≡ i
      → IsGood world reviews outcome_text out pol i s.steps
          (turn world reviews outcome_text out pol i s w)
  unfolding turn
  turn-IsGood i s w h = elim (Bool-cases (world.canceled w)) [
    | inl e ↦ rw e (ends _ _ w (unanswered _ refl) (inl (refl, below-add s.iterations i h)))
    | inr e ↦ elim (Bool-cases (pol.has_wall_clock && out.overdue w)) [
      | inl f ↦ rw (e, f) (ends _ s w (to_rescue _ refl) (inl (refl, h)))
      | inr f ↦
          elim (Bool-cases
            (not (pol.max_total_tokens == 0) && leb pol.max_total_tokens s.usage.total_tokens)) [
              | inl g ↦ rw (e, f, g) (ends _ s w (to_rescue _ refl) (inl (refl, h)))
              | inr g ↦ rw (e, f, g) (affordable-IsGood i s w _ h)
            ]
    ]
  ]
