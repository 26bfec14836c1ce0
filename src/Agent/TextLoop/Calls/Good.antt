-- ===== src/Agent/TextLoop/Calls/Good.antt =====
-- What a turn adds to the trace, and the results with which it can end a run.
use driver_os.Base.{
  ℕ, ◌+◌, ◌≡◌, ◌⊎◌, inl, inr, refl, Bool, true, false, not, ◌&&◌, List, [], ◌∷◌, ◌++◌, Text, codes,
  text_eq, leb, if◌then◌else◌, Bool-cases,
}
use driver_os.Agent.Outcome.{Outcome, answered}
use driver_os.Agent.Tracker.{TurnTracker, observe_run, repeat_threshold}
use driver_os.Agent.Spiral.{
  SpiralState, SpiralKillKind, kill_none, kill_cycle, kill_wander, observe_discovery_turn, reset,
}
use driver_os.Agent.Gates.{World, Gates}
use driver_os.Agent.Gates.Finish.{Reviews, FinishInput, answered_with, finish}
use driver_os.Agent.Gates.Rescue.{RunResult}
use driver_os.Agent.Gates.Rescue.Upgraded.{is_answered}
use driver_os.Agent.TextLoop.{
  Outside, LoopPolicy, Step, LoopState, ended, signature, dispatch, is_read_only, is_discovery,
  text_discovery_target,
}
use driver_os.Agent.TextLoop.Calls.{
  Exit, closed, rescuable, Turn, going, ending, recorded, nudged, stalled, observed, dispatched,
  executed, explored, spiraled, acted, with_observed, with_read,
}

-- One more step, of turn `i`.
abbrev pub IsNext : ℕ → List Step → List Step → Type 0
IsNext i steps more = (e : Step) × (e.iter ≡ i) × (more ≡ steps ++ e ∷ [])

module _ {ℓ ℓ'} {W : Type ℓ} {D : Type ℓ'} (world : World W) (reviews : Reviews W)
    (outcome_text : Outcome → Text) (out : Outside W D) (pol : LoopPolicy D) where
  -- The result of an exit, with the gates and the world that it leaves: an answer that a finish accepted
  -- and left them so, or one that is no answer.
  pub data IsFair (k : Gates) (v : W) : Exit → Type ℓ where
    accepted :
        (f : FinishInput) (g : Gates) (w : W) (a : Text)
        → f.trusted ≡ false
        → finish world reviews f g w ≡ (answered_with a, k, v)
        → IsFair k v (closed (record (ended answered []) { answer = a }))
    unanswered : (res : RunResult) → is_answered res.outcome ≡ false → IsFair k v (closed res)
    to_rescue : (res : RunResult) → is_answered res.outcome ≡ false → IsFair k v (rescuable res)

  -- A turn `i` of a run with these steps so far.
  pub data IsGood (i : ℕ) (steps : List Step) : Turn W D → Type (ℓ ⊔ ℓ') where
    goes_on :
        (u : LoopState D) (v : W)
        → IsNext i steps u.steps
        → u.iterations ≡ i
        → IsGood i steps (going u v)
    ends :
        (x : Exit) (u : LoopState D) (v : W)
        → IsFair u.gates v x
        → ((u.steps ≡ steps) × (u.iterations + 1 ≡ i))
          ⊎ (IsNext i steps u.steps × (u.iterations ≡ i))
        → IsGood i steps (ending x u v)

  -- Every stage behind a reply, on a state that counts the turn.
  recorded-IsGood :
      (i : ℕ) (verb arg raw seen : Text) (s : LoopState D) (w : W) (x : TurnTracker × Bool × ℕ)
      → s.iterations ≡ i
      → IsGood i s.steps (recorded world out pol i verb arg raw seen s w x)
  unfolding recorded
  recorded-IsGood i verb arg raw seen s w (t, true, count) h =
      ends _ _ w (to_rescue _ refl) (inr ((_, refl, refl), h))
  recorded-IsGood i verb arg raw seen s w (t, false, count) h = goes_on _ w (_, refl, refl) h

  nudged-IsGood :
      (i : ℕ) (verb arg raw : Text) (s : LoopState D) (w : W)
      → s.iterations ≡ i
      → IsGood i s.steps (nudged world out pol i verb arg raw s w)
  unfolding nudged
  nudged-IsGood i verb arg raw s w h = recorded-IsGood i verb arg raw _ s _ _ h

  stalled-IsGood :
      (i : ℕ) (verb arg raw : Text) (s : LoopState D) (w : W) (x : TurnTracker × Bool × ℕ)
      → s.iterations ≡ i
      → IsGood i s.steps (stalled world out pol i verb arg raw s w x)
  unfolding stalled
  stalled-IsGood i verb arg raw s w (t, true, count) h =
      ends _ _ w (to_rescue _ refl) (inr ((_, refl, refl), h))
  stalled-IsGood i verb arg raw s w (t, false, count) h =
      nudged-IsGood i verb arg raw (record s { tracker = t }) w h

  observed-IsGood :
      (i : ℕ) (verb arg raw : Text) (s : LoopState D) (w : W)
      → s.iterations ≡ i
      → IsGood i s.steps (observed world out pol i verb arg raw s w)
  unfolding observed
  observed-IsGood i verb arg raw s w h = elim (Bool-cases (text_eq verb (codes "run"))) [
    | inl e ↦
        let u = with_observed world out pol verb raw s in
        rw e (stalled-IsGood i verb arg raw u w (observe_run u.tracker raw) h)
    | inr e ↦ rw e (nudged-IsGood i verb arg raw (with_observed world out pol verb raw s) w h)
  ]

  executed-IsGood :
      (i : ℕ) (verb arg : Text) (moved : Bool) (s : LoopState D) (w : W)
      → s.iterations ≡ i
      → IsGood i s.steps (executed world out pol i verb arg moved s w)
  unfolding executed dispatched
  executed-IsGood i verb arg moved s w h =
      elim (Bool-cases (
        is_read_only verb
        && text_eq (signature verb arg) s.last_read_sig
        && text_eq (signature verb arg) s.last_executed_sig
        && not moved)) [
          | inl e ↦ rw e (observed-IsGood i verb arg _ s w h)
          | inr e ↦
              let (raw, v) = dispatch out verb arg w in
              rw e (observed-IsGood i verb arg raw (with_read world out pol verb arg raw s) v h)
        ]

  explored-IsGood :
      (i : ℕ) (verb arg : Text) (moved : Bool) (s : LoopState D) (w : W)
      (x : SpiralState × SpiralKillKind × Text)
      → s.iterations ≡ i
      → IsGood i s.steps (explored world out pol i verb arg moved s w x)
  unfolding explored
  explored-IsGood i verb arg moved s w (sp, kill_none, why) h =
      executed-IsGood i verb arg moved (record s { spiral = sp }) w h
  explored-IsGood i verb arg moved s w (sp, kill_cycle, why) h =
      ends _ _ w (to_rescue _ refl) (inr ((_, refl, refl), h))
  explored-IsGood i verb arg moved s w (sp, kill_wander, why) h =
      ends _ _ w (to_rescue _ refl) (inr ((_, refl, refl), h))

  spiraled-IsGood :
      (i : ℕ) (verb arg : Text) (moved : Bool) (s : LoopState D) (w : W)
      → s.iterations ≡ i
      → IsGood i s.steps (spiraled world out pol i verb arg moved s w)
  unfolding spiraled
  spiraled-IsGood i verb arg moved s w h = elim (Bool-cases (is_discovery verb)) [
    | inl e ↦ rw e (
        explored-IsGood i verb arg moved s w
          (observe_discovery_turn world.show s.spiral (text_discovery_target verb arg ∷ [])) h)
    | inr e ↦ rw e (executed-IsGood i verb arg moved (record s { spiral = reset s.spiral }) w h)
  ]

  pub acted-IsGood :
      (i : ℕ) (verb arg : Text) (moved : Bool) (s : LoopState D) (w : W)
      → s.iterations ≡ i
      → IsGood i s.steps (acted world out pol i verb arg moved s w)
  unfolding acted
  acted-IsGood i verb arg moved s w h =
      let count = if text_eq (signature verb arg) s.last_action then s.repeats + 1 else 0 in
      elim (Bool-cases (
        text_eq (signature verb arg) s.last_action
        && leb (repeat_threshold pol.termination moved) count)) [
          | inl e ↦ rw e (ends _ _ w (to_rescue _ refl) (inr ((_, refl, refl), h)))
          | inr e ↦ rw e (
              spiraled-IsGood i verb arg moved
                (record s { repeats = count; last_action = signature verb arg }) w h)
        ]
