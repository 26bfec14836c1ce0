-- ===== src/Agent/TextLoop/Turn/Answered.antt =====
-- What stands behind a text run that ends as answered.
use driver_os.Base.{
  ℕ, zero, suc, ◌+◌, ◌≡◌, refl, ap, ◌∙◌, subst, arith, true, false, [], Text, is_empty,
}
use driver_os.Agent.Outcome.{Outcome, answered}
use driver_os.Agent.Gates.{World, Gates, scope_check, fence_check}
use driver_os.Agent.Gates.Completion.{verify_finish}
use driver_os.Agent.Gates.Finish.{Reviews, FinishInput, answered_with, finish}
use driver_os.Agent.Gates.Finish.Answered.{Passed, finish-Passed}
use driver_os.Agent.Gates.Rescue.{RunResult, upgrade_if_verified}
use driver_os.Agent.Gates.Rescue.Upgraded.{is_answered, Rescued, upgrade_if_verified-Rescued}
use driver_os.Agent.TextLoop.{Outside, LoopPolicy, LoopState, ended}
use driver_os.Agent.TextLoop.Calls.{Exit, rescuable, Turn}
use driver_os.Agent.TextLoop.Calls.Good.{
  IsFair, accepted, unanswered, to_rescue, IsGood, goes_on, ends,
}
use driver_os.Agent.TextLoop.Turn.{turn, concluded, after, turns, text_loop}
use driver_os.Agent.TextLoop.Turn.Good.{turn-IsGood}

module _ {ℓ ℓ'} {W : Type ℓ} {D : Type ℓ'} (world : World W) (reviews : Reviews W)
    (outcome_text : Outcome → Text) (out : Outside W D) (pol : LoopPolicy D) where
  -- An answered result of a run that ended with these gates in this world: a finish that the caller is
  -- not trusted in accepted it, passed every gate and left them so; or the exit replaced a result that
  -- was no answer, behind a clean scope and fence and a run of the command that passed.
  pub data IsBacked (res : RunResult) (k : Gates) (v : W) : Type ℓ where
    by_finish :
        (f : FinishInput) (g : Gates) (w : W)
        → f.trusted ≡ false
        → finish world reviews f g w ≡ (answered_with f.answer, k, v)
        → Passed world reviews f (verify_finish world g f.last_run_failed f.trusted w)
        → res.answer ≡ f.answer
        → IsBacked res k v
    by_command :
        (before : RunResult) (g : Gates) (w : W)
        → is_answered before.outcome ≡ false
        → upgrade_if_verified world reviews outcome_text before g w ≡ (res, k, v)
        → is_empty (scope_check world g w).reason ≡ true
        → is_empty (fence_check world g w).reason ≡ true
        → is_empty g.cmd ≡ false
        → Rescued world reviews outcome_text g before res
        → IsBacked res k v

  -- A result, the state and the world that a run left.
  abbrev Holds : RunResult × LoopState D × W → Type ℓ
  Holds (res, u, v) = is_answered res.outcome ≡ true → IsBacked res u.gates v

  rescued-Holds :
      (res : RunResult) (u : LoopState D) (v : W)
      → is_answered res.outcome ≡ false
      → Holds (concluded world reviews outcome_text out pol (rescuable res) u v)
  unfolding concluded
  rescued-Holds res u v n e =
      let (s, f, c, _, r) =
        upgrade_if_verified-Rescued world reviews outcome_text u.gates res v n e in
      by_command res u.gates v n refl s f c r

  accepted-Holds :
      (f : FinishInput) (g k : Gates) (w v : W) (a : Text)
      → f.trusted ≡ false
      → finish world reviews f g w ≡ (answered_with a, k, v)
      → IsBacked (record (ended answered []) { answer = a }) k v
  accepted-Holds f g k w v a t e =
      let (p, q) = finish-Passed world reviews f g w a (ap (λ x. x.0) e) in
      by_finish f g w t (e ∙ ap (λ b. (answered_with b, k, v)) p) q p

  concluded-Holds :
      (x : Exit) (u : LoopState D) (v : W)
      → IsFair world reviews outcome_text out pol u.gates v x
      → Holds (concluded world reviews outcome_text out pol x u v)
  unfolding concluded
  concluded-Holds _ u v (accepted f g w a t e) h = accepted-Holds f g u.gates w v a t e
  concluded-Holds _ u v (unanswered res n) h = cc (n, h)
  concluded-Holds _ u v (to_rescue res n) h = rescued-Holds res u v n h

  after-Holds :
      (i : ℕ) (s : LoopState D) (t : Turn W D)
      (more : LoopState D → W → RunResult × LoopState D × W)
      → IsGood world reviews outcome_text out pol i s.steps t
      → ((u : LoopState D) (v : W) → u.iterations ≡ i → Holds (more u v))
      → Holds (after world reviews outcome_text out pol t more)
  after-Holds i s _ more (goes_on u v n e) m = m u v e
  after-Holds i s _ more (ends x u v f n) m = concluded-Holds x u v f

  next-add : (n i : ℕ) → n ≡ i → n + 1 ≡ i + 1
  next-add n i h = omega arith

  turns-Holds :
      (n i : ℕ) (s : LoopState D) (w : W)
      → s.iterations + 1 ≡ i
      → Holds (turns world reviews outcome_text out pol n i s w)
  unfolding turns
  turns-Holds zero i s w h = rescued-Holds _ s w refl
  turns-Holds (suc n) i s w h =
      after-Holds i s (turn world reviews outcome_text out pol i s w) _
        (turn-IsGood world reviews outcome_text out pol i s w h)
        (λ u v e. turns-Holds n (i + 1) u v (next-add u.iterations i e))

  -- A text run from its start, whatever the model says and the tools do: if it ends as answered, then
  -- either a finish accepted the answer, passed every gate and left the gates and the world as the run
  -- ends, or the exit made it answered in place of another outcome, with the scope and the fence clean
  -- and a run of the verification command that passed.
  pub text_loop-IsBacked :
      (s : LoopState D) (w : W) (res : RunResult) (u : LoopState D) (v : W)
      → s.iterations ≡ 0
      → text_loop world reviews outcome_text out pol s w ≡ (res, u, v)
      → is_answered res.outcome ≡ true
      → IsBacked res u.gates v
  unfolding text_loop
  text_loop-IsBacked s w res u v z e =
      subst Holds e (turns-Holds pol.max_iter 1 s w (next-add s.iterations 0 z))
