-- ===== src/Agent/Repro/Finish/Cleared.antt =====
-- What a finish that the repro gate lets through has shown.
use driver_os.Base.{
  ◌≡◌, ◌⊎◌, refl, arith, true, false, Option, none, some, Text, text_eq, text_eq_iff, Bool-cases,
  inl, inr,
}
use driver_os.Agent.Observation.{is_run_failure, is_run_timeout}
use driver_os.Agent.Repro.{Status, missing, skipped, validated, ReproState, ReproGate, Workspace}
use driver_os.Agent.Repro.Finish.{
  clear, finish_run, finish_tree, finish_read, finish_locked, finish_status, finish_state,
  repro_finish,
}

module _ {ℓ} {W : Type ℓ} (space : Workspace W) where
  -- The locked file is as it was declared, and its command ran and timed out or did not fail.
  pub record IsGreen (s : ReproState) (w : W) : Type 0 where
    pub found : Text
    pub out : Text
    pub read : space.read s.report.path w ≡ some found
    pub unchanged : space.hash found ≡ s.sha256
    pub ran : (space.run s.report.cmd w).0 ≡ some out
    pub passing : (is_run_timeout out ≡ true) ⊎ (is_run_failure out ≡ false)

  finish_run-clear :
      (s : ReproState) (o : Option Text)
      → (finish_run space s o).0 ≡ clear
      → (out : Text) × (o ≡ some out) × ((is_run_timeout out ≡ true) ⊎ (is_run_failure out ≡ false))
  unfolding finish_run
  finish_run-clear s none h = cc
  finish_run-clear s (some out) h = elim (Bool-cases (is_run_timeout out)) [
    | inl t ↦ (out, refl, inl t)
    | inr t ↦ elim (Bool-cases (is_run_failure out)) [
      | inr f ↦ (out, refl, inr f)
      | inl f ↦ absurd (ground arith)
    ]
  ]

  finish_tree-clear :
      (s : ReproState) (o : Option Text) (w : W)
      → (finish_tree space s o w).0 ≡ clear
      → (finish_run space s (space.run s.report.cmd w).0).0 ≡ clear
  unfolding finish_tree
  finish_tree-clear s none w h = cc
  finish_tree-clear s (some cur) w h = h

  finish_read-IsGreen :
      (s : ReproState) (o : Option Text) (w : W)
      → space.read s.report.path w ≡ o
      → (finish_read space s o w).0 ≡ clear
      → IsGreen s w
  unfolding finish_read
  finish_read-IsGreen s none w e h = cc
  finish_read-IsGreen s (some d) w e h = elim (Bool-cases (text_eq (space.hash d) s.sha256)) [
    | inr x ↦ absurd (ground arith)
    | inl x ↦
        let (out, r, p) =
          finish_run-clear s _ (finish_tree-clear s (space.write_tree w) w (ground arith)) in
        record {
          found = d;
          out = out;
          read = e;
          unchanged = (text_eq_iff _ _).0 x;
          ran = r;
          passing = p;
        }
  ]

  finish_status-clear :
      (g : ReproGate) (s : ReproState) (x : Status) (w : W)
      → (finish_status space g s x w).0 ≡ clear
      → (x ≡ skipped) ⊎ IsGreen s w
  unfolding finish_status finish_locked
  finish_status-clear g s skipped w h = inl refl
  finish_status-clear g s missing w h = inr (finish_read-IsGreen s _ w refl h)
  finish_status-clear g s validated w h = inr (finish_read-IsGreen s _ w refl h)

  finish_state-clear :
      (g : ReproGate) (o : Option ReproState) (w : W)
      → (finish_state space g o w).0 ≡ clear
      → (s : ReproState) × (o ≡ some s) × ((s.report.status ≡ skipped) ⊎ IsGreen s w)
  unfolding finish_state
  finish_state-clear g none w h = cc
  finish_state-clear g (some s) w h = (s, refl, finish_status-clear g s s.report.status w h)

  -- A finish that the repro gate lets through: reproductions are not asked for, or one was skipped, or
  -- the declared file reads as it did when it was locked and the declared command ran and did not fail
  -- or ran out of time.
  pub repro_finish-clear :
      (g : ReproGate) (w : W)
      → (repro_finish space g w).0 ≡ clear
      → (g.repro_first ≡ false)
        ⊎ ((s : ReproState) × (g.repro ≡ some s) × ((s.report.status ≡ skipped) ⊎ IsGreen s w))
  unfolding repro_finish
  repro_finish-clear g w h = elim (Bool-cases g.repro_first) [
    | inr f ↦ inl f
    | inl f ↦
        let k : (finish_state space g g.repro w).0 ≡ clear = ground arith in
        inr (finish_state-clear g g.repro w k)
  ]
